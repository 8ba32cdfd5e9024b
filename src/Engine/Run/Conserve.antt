-- ===== src/Engine/Run/Conserve.antt =====
-- What every run of the engine (src/engine.cpp) keeps.
use onyx_engine.Prelude.{
  ℕ, zero, suc, ◌+◌, ◌≡◌, refl, sym, ap, ◌∙◌, subst, inl, inr, Bool, ◌==◌, if_both, Option, none,
  some, List, [], ◌∷◌, map, All, arith, Option-cases,
}
use onyx_engine.Engine.Types.{Config, Slot, GenRequest, GenParams}
use onyx_engine.Engine.Llama.{Llama}
use onyx_engine.Engine.Emit.{is_none}
use onyx_engine.Engine.Emit.Account.{hit, tally, held, holders}
use onyx_engine.Engine.Decode.{count_busy}
use onyx_engine.Engine.Decode.Account.{IsLoyal, load, all_held, AccountedAll}
use onyx_engine.Engine.Queue.{Submitted, refused, queued}
use onyx_engine.Engine.Queue.Account.{deliver-id, let_in, submit-Grows}
use onyx_engine.Engine.Loop.{Engine}
use onyx_engine.Engine.Loop.Account.{KeptEngine, tick-KeptEngine}
use onyx_engine.Engine.Load.{new_slots, new_engine}
use onyx_engine.Engine.Run.{
  touch, touch_held, touch_slot, consume, accepted, arrive, Run, starts, arrives, consumes, ticks,
}

-- How often a request is among those let in.
unfoldable pub times : ℕ → List ℕ → ℕ
times x [] = 0
times x (id ∷ ids) = hit x id + times x ids

-- The account of an engine with `t` requests `x`.
abbrev InOrder : (L : Llama) → ℕ → ℕ → Engine L → Type 0
InOrder L x t e = KeptEngine L x t 0 0 e

module _ (L : Llama) (c : Config) (x : ℕ) where
  starts-InOrder : (world : L.World) (n i : ℕ) → InOrder L x 0 (new_engine L world (new_slots n i))
  unfolding new_engine new_slots AccountedAll tally load all_held holders held
  starts-InOrder world zero i = (tt, refl, refl)
  starts-InOrder world (suc n) i =
      let (is, p, q) = starts-InOrder world n (i + 1) in
      ((refl, is), omega (arith, p), omega (arith, q))

  -- What a caller does to its request leaves its identity.
  touch-id : (id : ℕ) (keep : Bool) (req : GenRequest) → (touch id keep req).id ≡ req.id
  unfolding touch
  touch-id id keep req =
      if_both (λ (r : GenRequest). r.id ≡ req.id) (req.id == id) (deliver-id req keep) refl

  map-tally :
      (id : ℕ) (keep : Bool) (reqs : List GenRequest)
      → tally x (map (touch id keep) reqs) ≡ tally x reqs
  unfolding tally
  map-tally id keep [] = refl
  map-tally id keep (req ∷ reqs) =
      omega (arith, map-tally id keep reqs, ap (hit x) (touch-id id keep req))

  touch_held-IsLoyal :
      (id : ℕ) (keep : Bool) (req : Option GenRequest)
      → (is_none (touch_held id keep req) ≡ is_none req)
        × (holders (touch_held id keep req) ≡ holders req)
        × (held x (touch_held id keep req) ≡ held x req)
  unfolding touch_held holders held
  touch_held-IsLoyal id keep none = (refl, refl, refl)
  touch_held-IsLoyal id keep (some req) = (refl, refl, ap (hit x) (touch-id id keep req))

  map-slots :
      (id : ℕ) (keep : Bool) (slots : List Slot)
      → All IsLoyal slots
      → All IsLoyal (map (touch_slot id keep) slots)
        × (load (map (touch_slot id keep) slots) ≡ load slots)
        × (all_held x (map (touch_slot id keep) slots) ≡ all_held x slots)
  unfolding load all_held
  map-slots id keep [] h = (tt, refl, refl)
  map-slots id keep (slot ∷ slots) (i, h) =
      let (e, k, m) = touch_held-IsLoyal id keep slot.req in
      let (is, p, q) = map-slots id keep slots h in
      ((i ∙ sym e, is), omega (arith, k, p), omega (arith, m, q))

  consume-InOrder :
      (t id : ℕ) (keep : Bool) (e : Engine L)
      → InOrder L x t e
      → InOrder L x t (consume L id keep e)
  unfolding consume AccountedAll
  consume-InOrder t id keep e (is, p, q) =
      let (is', l, k) = map-slots id keep e.slots is in
      (
        is',
        omega (arith, p, l),
        omega (arith, q, k, map-tally id keep e.core.finished, map-tally id keep e.queue),
      )

  times-accepted :
      (answer : Submitted) (ids : List ℕ)
      → times x (accepted L answer ids) ≡ times x ids + let_in x answer
  unfolding times accepted let_in
  times-accepted (refused result) ids = omega arith
  times-accepted (queued req) ids = omega arith

  arrive-InOrder :
      (t id : ℕ) (params : GenParams) (w s : Bool) (e : Engine L)
      → InOrder L x t e
      → InOrder L x (t + let_in x (arrive L c id params w s e).1) (arrive L c id params w s e).0
  unfolding arrive AccountedAll
  arrive-InOrder t id params w s e (is, p, q) =
      let (p', f, g) = submit-Grows L x c e.core e.queue id params w s in
      (is, p' ∙ p, omega (arith, q, f, g))

  Run-InOrder : (ids : List ℕ) (e : Engine L) → Run L c ids e → InOrder L x (times x ids) e
  unfolding times
  Run-InOrder ids e (starts world n) = starts-InOrder world n 0
  Run-InOrder ids e (arrives ids' e' id params w s r) =
      subst (λ (t : ℕ). InOrder L x t (arrive L c id params w s e').0)
        (sym (times-accepted (arrive L c id params w s e').1 ids'))
        (arrive-InOrder (times x ids') id params w s e' (Run-InOrder ids' e' r))
  Run-InOrder ids e (consumes ids' e' id keep r) =
      consume-InOrder (times x ids') id keep e' (Run-InOrder ids' e' r)
  Run-InOrder ids e (ticks ids' e' e'' r q) =
      tick-KeptEngine L x (times x ids') 0 0 c e' (Run-InOrder ids' e' r) e'' q

-- Slots that are idle exactly when they hold nothing are busy as often as they hold something.
count_busy-load : (slots : List Slot) → All IsLoyal slots → count_busy slots ≡ load slots
unfolding count_busy load holders
count_busy-load [] h = refl
count_busy-load (slot ∷ slots) (i, h) = elim (Option-cases slot.req) [
  | inl e ↦ rw (i ∙ ap is_none e, e, count_busy) (omega (arith, count_busy-load slots h))
  | inr (req, e) ↦ rw (i ∙ ap is_none e, e, count_busy) (omega (arith, count_busy-load slots h))
]

-- In every run, however submissions, callers' steps and ticks alternate and whatever llama.cpp
-- answers: a slot is idle exactly when it holds no request, the metric of processed requests is the
-- number of busy slots, and each request is as often in the queue, in a slot or finished as it was
-- let in, so none is lost and none is answered twice.
pub Run-conserves :
    (L : Llama) (c : Config) (ids : List ℕ) (e : Engine L)
    → Run L c ids e
    → All IsLoyal e.slots
      × (e.core.metrics.requests_processing ≡ count_busy e.slots)
      × ((x : ℕ) → tally x e.queue + all_held x e.slots + tally x e.core.finished ≡ times x ids)
unfolding AccountedAll
Run-conserves L c ids e r =
    let (is, p, q) = Run-InOrder L c 0 ids e r in
    (
      is,
      omega (arith, p, count_busy-load e.slots is),
      λ x. omega (arith, (Run-InOrder L c x ids e r).2),
    )
