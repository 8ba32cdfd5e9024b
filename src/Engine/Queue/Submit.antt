-- ===== src/Engine/Queue/Submit.antt =====
-- What `generate` lets into the queue, and what its consumer loop does to the pieces.
use onyx_engine.Prelude.{
  ℕ, ◌^◌, ◌≤◌, ◌<◌, ◌≡◌, ◌≢◌, refl, inl, inr, Bool, true, false, not, ◌&&◌, Option, none, some,
  List, [], ◌∷◌, ◌++◌, length, length-append, append_assoc, arith, All, Bool-cases, Option-cases,
  List-cases,
}
use onyx_engine.Engine.Types.{Config, GenParams, GenRequest}
use onyx_engine.Engine.Llama.{Llama}
use onyx_engine.Engine.Emit.{Core}
use onyx_engine.Engine.Emit.Heard.{heard, spoken}
use onyx_engine.Engine.Queue.{
  queue_full, failed, any_bad, is_empty, or_bos, Submitted, refused, queued, check_prompt,
  new_request, enqueue, submit, deliver,
}

any_bad-All :
    (n_vocab : ℕ) (ts : List ℕ)
    → any_bad n_vocab ts ≡ false
    → All (λ t. (t < n_vocab) × (t < 2 ^ 31)) ts
unfolding any_bad
any_bad-All n_vocab [] h = tt
any_bad-All n_vocab (t ∷ ts) h =
    ((ground arith, ground arith), any_bad-All n_vocab ts (ground arith))

-- A request fit for the engine loop: a text prompt has a token, fits in the slot's context and holds
-- valid tokens only; at most 25 alternatives are asked for; a sampler is held; nothing was sent.
pub record IsAdmissible (L : Llama) (c : Config) (req : GenRequest) : Type 0 where
  pub prompt_pos : is_empty req.params.media ≡ true → 0 < length req.params.prompt_tokens
  pub prompt_fits :
      is_empty req.params.media ≡ true → length req.params.prompt_tokens < c.n_ctx_slot
  pub tokens_valid :
      is_empty req.params.media ≡ true
      → All (λ t. (t < L.n_vocab) × (t < 2 ^ 31)) req.params.prompt_tokens
  pub n_probs_le : req.params.n_probs ≤ 25
  pub has_sampler : req.smpl ≡ true
  pub silent : heard req ≡ []
  pub waiting : req.finished ≡ false

-- The outcome of a submission: it was refused and the queue is as it was, or the request stands at
-- the end of a queue that keeps the limit of `--max-queue`.
abbrev pub SubmitResult :
    (L : Llama) → Config → List GenRequest → (Core L × List GenRequest) × Submitted → Type 0
SubmitResult L c queue ((core', queue'), refused res) = (queue' ≡ queue) × (res.error ≢ none)
SubmitResult L c queue ((core', queue'), queued req) =
    (queue' ≡ queue ++ req ∷ [])
    × IsAdmissible L c req
    × (0 < c.max_queue → length queue' ≤ c.max_queue)

queue_full-false :
    (c : Config) (queue : List GenRequest)
    → queue_full c queue ≡ false
    → 0 < c.max_queue
    → length queue < c.max_queue
unfolding queue_full
queue_full-false c queue h p = ground arith

or_bos-pos : (bos : Option ℕ) (ts : List ℕ) → 0 < length (or_bos bos ts)
or_bos-pos none [] = omega arith
or_bos-pos (some b) [] = omega arith
or_bos-pos none (t ∷ ts) = omega arith
or_bos-pos (some b) (t ∷ ts) = omega arith

module _ (L : Llama) (c : Config) where
  enqueue-SubmitResult :
      (core : Core L) (queue : List GenRequest) (req : GenRequest)
      → IsAdmissible L c req
      → SubmitResult L c queue (enqueue L c core queue req)
  unfolding enqueue failed
  enqueue-SubmitResult core queue req ok = elim (Bool-cases (queue_full c queue)) [
    | inl e ↦ rw (e, enqueue) (refl, λ q. cc)
    | inr e ↦
        rw (e, enqueue)
          (
            refl,
            ok,
            λ p. omega (arith, queue_full-false c queue e p, length-append queue (req ∷ [])),
          )
  ]

  with_prompt : GenParams → GenParams
  with_prompt params = record params { prompt_tokens = or_bos L.bos params.prompt_tokens }

  check_prompt-text :
      (params : GenParams)
      → is_empty params.media ≡ true
      → (check_prompt L c params).1 ≡ none
      → ((check_prompt L c params).0 ≡ with_prompt params)
        × (length (or_bos L.bos params.prompt_tokens) < c.n_ctx_slot)
        × (any_bad L.n_vocab (or_bos L.bos params.prompt_tokens) ≡ false)
  unfolding check_prompt with_prompt
  check_prompt-text params e h = (rw (e, check_prompt) refl, ground arith, ground arith)

  check_prompt-media :
      (params : GenParams) → is_empty params.media ≡ false → (check_prompt L c params).0 ≡ params
  unfolding check_prompt
  check_prompt-media params e = rw (e, check_prompt) refl

  admissible :
      (world : L.World) (id : ℕ) (params : GenParams) (wants : Bool)
      → (is_empty params.media ≡ true
          → (0 < length params.prompt_tokens)
            × (length params.prompt_tokens < c.n_ctx_slot)
            × (any_bad L.n_vocab params.prompt_tokens ≡ false))
      → IsAdmissible L c (new_request L world id params wants)
  unfolding new_request spoken
  admissible world id params wants h = record {
    prompt_pos = λ m. (h m).0;
    prompt_fits = λ m. (h m).1;
    tokens_valid = λ m. any_bad-All L.n_vocab params.prompt_tokens (h m).2;
    n_probs_le = omega arith;
    has_sampler = refl;
    silent = refl;
    waiting = refl;
  }

  check_prompt-ok :
      (world : L.World) (id : ℕ) (params : GenParams) (wants : Bool)
      → (check_prompt L c params).1 ≡ none
      → IsAdmissible L c (new_request L world id (check_prompt L c params).0 wants)
  unfolding with_prompt
  check_prompt-ok world id params wants h = elim (Bool-cases (is_empty params.media)) [
    | inl e ↦
        let (same, fits, valid) = check_prompt-text params e h in
        rw same (
          admissible world id (with_prompt params) wants
            (λ _. (or_bos-pos L.bos params.prompt_tokens, fits, valid)))
    | inr e ↦
        rw (check_prompt-media params e)
          (admissible world id params wants (λ m. absurd (cc (e, m))))
  ]

  -- For every request, every limit and every queue: a submission is refused with an error and the
  -- queue is as it was, or the request stands alone behind the old queue, which keeps the limit on
  -- its length if there is one; then its prompt, unless it has media, is not empty, fits in the
  -- context of a slot and holds valid tokens only, at most 25 alternatives are asked for, it has
  -- its sampler, and it has neither sent anything nor finished.
  pub submit-SubmitResult :
      (core : Core L) (queue : List GenRequest) (id : ℕ) (params : GenParams)
      (wants sampler_ok : Bool)
      → SubmitResult L c queue (submit L c core queue id params wants sampler_ok)
  unfolding submit failed
  submit-SubmitResult core queue id params wants sampler_ok = elim (Bool-cases c.embedding_mode) [
    | inl e ↦ simp (e, submit) (refl, λ q. cc)
    | inr e ↦ elim (Bool-cases (not (is_empty params.media) && not c.has_mmproj)) [
      | inl f ↦ simp (e, f, submit) (refl, λ q. cc)
      | inr f ↦ elim (Option-cases (check_prompt L c params).1) [
        | inr (x, g) ↦ simp (e, f, g, submit) (refl, λ q. cc)
        | inl g ↦ elim (Bool-cases sampler_ok) [
          | inr k ↦ simp (e, f, g, k, submit) (refl, λ q. cc)
          | inl k ↦
              simp (e, f, g, k, submit)
                (enqueue-SubmitResult core queue
                  (new_request L core.world id (check_prompt L c params).0 wants)
                  (check_prompt-ok core.world id params wants g))
        ]
      ]
    ]
  ]

-- For a client that wants pieces, taking the next piece from the queue to the callback changes
-- nothing in what the client was sent or is about to be: nothing is lost, doubled or reordered.
pub heard-deliver :
    (req : GenRequest) (keep : Bool)
    → req.wants_pieces ≡ true
    → heard (deliver req keep) ≡ heard req
unfolding deliver
heard-deliver req keep w = elim (List-cases req.pieces) [
  | inl e ↦ ground (arith, e)
  | inr (p, ps, e) ↦ ground (arith, e, append_assoc req.delivered (p ∷ []) ps)
]
