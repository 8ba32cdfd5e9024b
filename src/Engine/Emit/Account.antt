-- ===== src/Engine/Emit/Account.antt =====
-- The account of requests of the engine (src/engine.cpp): who holds a request, and how many are
-- processed; `onyx_engine::finish` and `onyx_engine::on_sampled` keep it.
use onyx_engine.Prelude.{
  ℕ, ◌+◌, ◌-◌, ◌≡◌, refl, ap, ◌∙◌, inl, inr, ◌==◌, ltb, if◌then◌else◌, ◌&&◌, Option, none, some,
  List, [], ◌∷◌, Bool-cases, arith, length,
}
use onyx_engine.Prelude.Bytes.{Bytes}
use onyx_engine.Engine.Types.{
  Slot, GenRequest, GenResult, GenError, FinishReason, TokenProbs, is_idle,
}
use onyx_engine.Engine.Llama.{Llama}
use onyx_engine.Engine.Holdback.{stop_holdback}
use onyx_engine.Engine.Emit.{
  Core, is_none, emit, stamp, finish, release_text, append_piece, on_stop, on_sampled,
}
use onyx_engine.Engine.Emit.Identity.{flush-id}

-- How often the request `x` is the one, is in a list, is held by a slot.
unfoldable pub hit : ℕ → ℕ → ℕ
hit x id = if id == x then 1 else 0

unfoldable pub tally : ℕ → List GenRequest → ℕ
tally x [] = 0
tally x (req ∷ reqs) = hit x req.id + tally x reqs

unfoldable pub held : ℕ → Option GenRequest → ℕ
held x none = 0
held x (some req) = hit x req.id

unfoldable pub holders : Option GenRequest → ℕ
holders none = 0
holders (some req) = 1

-- A slot is idle exactly when it holds no request; the requests processed are the one of this slot
-- and `n` others; and the request `x` counts `t` times in all, `r` of them elsewhere.
unfoldable pub Accounted : (L : Llama) → ℕ → ℕ → ℕ → ℕ → Core L → Slot → Type 0
unfolding tally held holders
Accounted L x n r t core slot =
    (is_idle slot.state ≡ is_none slot.req)
    × (core.metrics.requests_processing ≡ holders slot.req + n)
    × (tally x core.finished + held x slot.req + r ≡ t)

-- A slot with its request in it.
abbrev pub holding : Slot → GenRequest → Slot
holding slot req = record slot { req = some req }

module _ (L : Llama) (x n r t : ℕ) where
  abbrev pub Kept : Core L × Slot → Type 0
  Kept p = Accounted L x n r t p.0 p.1

  pub finish-Kept :
      (core : Core L) (slot : Slot) (req : GenRequest) (reason : FinishReason)
      (error : Option GenError)
      → Kept (core, holding slot req)
      → Kept (finish L core slot req reason error)
  unfolding finish Accounted
  finish-Kept core slot req reason error (i, p, f) = (
    refl,
    omega (arith, p),
    ap (λ (k : ℕ). hit x k + tally x core.finished + 0 + r)
          (flush-id s.0 (record req { result = s.1 }) reason)
        ∙ omega (arith, f),
  )
    where
      s : Slot × GenResult
      s = stamp slot req.result reason error (L.now core.world)

  release_text-Kept :
      (core : Core L) (slot : Slot) (req : GenRequest)
      → Kept (core, holding slot req)
      → Kept (core, holding (release_text slot req).0 (release_text slot req).1)
  unfolding release_text emit Accounted
  release_text-Kept core slot req h =
      elim (Bool-cases (
        req.wants_pieces
        && ltb slot.n_sent
            (length req.result.text - stop_holdback req.result.text req.params.stop))) [
              | inl e ↦ rw (e, release_text) h
              | inr e ↦ rw (e, release_text) h
            ]

  on_stop-Kept :
      (core : Core L) (slot : Slot) (req : GenRequest) (stop : Option (Bytes × ℕ))
      → Kept (core, holding slot req)
      → Kept (on_stop L core slot req stop)
  unfolding on_stop Accounted
  on_stop-Kept core slot req none h = release_text-Kept core slot req h
  on_stop-Kept core slot req (some (stop, pos)) h = finish-Kept core slot _ _ none h

  append_piece-Kept :
      (core : Core L) (slot : Slot) (req : GenRequest) (piece : Bytes) (probs : Option TokenProbs)
      → Kept (core, holding slot req)
      → Kept (core, holding slot (record req { result = append_piece req.result piece probs }))
  unfolding Accounted
  append_piece-Kept core slot req piece probs h = h

  pub on_sampled-Kept :
      (core : Core L) (slot : Slot) (req : GenRequest) (probs : Option TokenProbs)
      → Kept (core, holding slot req)
      → Kept (on_sampled L core slot req probs)
  unfolding on_sampled Accounted
  on_sampled-Kept core slot req probs h = elim (Bool-cases (L.is_eog slot.sampled)) [
    | inl e ↦ rw (e, on_sampled) (finish-Kept core slot req _ none h)
    | inr e ↦ rw (e, on_sampled) (on_stop-Kept core slot _ _ h)
  ]
