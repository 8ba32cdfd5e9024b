-- ===== src/Engine/Queue/Account.antt =====
-- `onyx_engine::sweep_queue` (src/engine.cpp) keeps the account of requests: whoever leaves the
-- queue is handed over.
use onyx_engine.Prelude.{
  ℕ, ◌+◌, ◌≡◌, refl, ◌∙◌, inl, inr, Bool, ◌&&◌, not, if_both, option_both, list_both, Option, none,
  some, some-injective, List, [], ◌∷◌, ◌++◌, Option-cases, arith, ap, sym, subst,
}
use onyx_engine.Engine.Types.{Config, GenRequest, GenResult, GenParams, Metrics}
use onyx_engine.Engine.Llama.{Llama}
use onyx_engine.Engine.Emit.{Core}
use onyx_engine.Engine.Emit.Account.{hit, tally}
use onyx_engine.Engine.Queue.{
  Submitted, refused, queued, is_empty, queue_full, check_prompt, enqueue, submit, deliver,
  timed_out, swept, count_timeout, hand_over, sweep_from, sweep_queue,
}

pub tally-append : (x : ℕ) (xs ys : List GenRequest) → tally x (xs ++ ys) ≡ tally x xs + tally x ys
unfolding tally
tally-append x [] ys = omega arith
tally-append x (a ∷ xs) ys = omega (arith, tally-append x xs ys)

module _ (L : Llama) where
  abbrev IsSame : GenRequest → Option GenRequest → Type 0
  IsSame req o = (done : GenRequest) → o ≡ some done → done.id ≡ req.id

  -- A verdict is about the request it was asked for.
  swept-id : (c : Config) (now : ℕ) (req : GenRequest) → IsSame req (swept L c now req)
  unfolding swept
  swept-id c now req =
      if_both (IsSame req) req.cancelled
        (λ done e. ap (λ (q : GenRequest). q.id) (sym (some-injective _ done e)))
        (if_both (IsSame req) (timed_out L c now req)
          (λ done e. ap (λ (q : GenRequest). q.id) (sym (some-injective _ done e)))
          (λ done e. absurd (cc)))

  -- Nothing of the slots is touched, and the request `x` is in the queue or finished as often as
  -- before.
  abbrev Moves : ℕ → Core L → List GenRequest → Core L × List GenRequest → Type 0
  Moves x core queue p =
      (p.0.metrics.requests_processing ≡ core.metrics.requests_processing)
      × (tally x p.0.finished + tally x p.1 ≡ tally x core.finished + tally x queue)

  hand_over-processing :
      (core : Core L) (req : GenRequest)
      → (hand_over L core req).metrics.requests_processing ≡ core.metrics.requests_processing
  unfolding hand_over count_timeout
  hand_over-processing core req =
      if_both (λ (m : Metrics). m.requests_processing ≡ core.metrics.requests_processing)
        req.result.queue_timeout refl refl

  with_verdict :
      Config
      → ℕ
      → Core L
      → GenRequest
      → List GenRequest
      → Option GenRequest
      → Core L × List GenRequest
  with_verdict c now core req queue o =
      let p : Core L × List GenRequest =
        sweep_from L c now (elim o [ none ↦ core | some done ↦ hand_over L core done ]) queue in
      (p.0, elim o [ none ↦ req ∷ p.1 | some done ↦ p.1 ])

  swept-none :
      (c : Config) (now : ℕ) (core : Core L) (req : GenRequest) (queue : List GenRequest)
      → swept L c now req ≡ none
      → sweep_from L c now core (req ∷ queue)
        ≡ ((sweep_from L c now core queue).0, req ∷ (sweep_from L c now core queue).1)
  unfolding sweep_from with_verdict
  swept-none c now core req queue e = ap (with_verdict c now core req queue) e

  swept-some :
      (c : Config) (now : ℕ) (core : Core L) (req done : GenRequest) (queue : List GenRequest)
      → swept L c now req ≡ some done
      → sweep_from L c now core (req ∷ queue) ≡ sweep_from L c now (hand_over L core done) queue
  unfolding sweep_from with_verdict
  swept-some c now core req done queue e = ap (with_verdict c now core req queue) e

  sweep_from-Moves :
      (x : ℕ) (c : Config) (now : ℕ) (core : Core L) (queue : List GenRequest)
      → Moves x core queue (sweep_from L c now core queue)
  unfolding tally sweep_from hand_over
  sweep_from-Moves x c now core [] = (refl, refl)
  sweep_from-Moves x c now core (req ∷ queue) = elim (Option-cases (swept L c now req)) [
    | inl e ↦
        let (p, q) = sweep_from-Moves x c now core queue in
        subst (Moves x core (req ∷ queue)) (sym (swept-none c now core req queue e))
          (p, omega (arith, q))
    | inr (done, e) ↦
        let (p, q) = sweep_from-Moves x c now (hand_over L core done) queue in
        subst (Moves x core (req ∷ queue)) (sym (swept-some c now core req done queue e)) (
          p ∙ hand_over-processing core done,
          omega (arith, q, ap (hit x) (swept-id c now req done e)),
        )
  ]

  pub sweep_queue-Moves :
      (x : ℕ) (c : Config) (core : Core L) (queue : List GenRequest)
      → Moves x core queue (sweep_queue L c core queue)
  unfolding sweep_queue
  sweep_queue-Moves x c core queue = sweep_from-Moves x c (L.now core.world) core queue

tally-one : (x : ℕ) (req : GenRequest) → tally x (req ∷ []) ≡ hit x req.id
unfolding tally
tally-one x req = omega arith

-- A caller that takes a piece leaves the identity of its request.
pub deliver-id : (req : GenRequest) (keep : Bool) → (deliver req keep).id ≡ req.id
unfolding deliver
deliver-id req keep =
    list_both (λ (r : GenRequest). r.id ≡ req.id) req.pieces
      (if_both (λ (r : GenRequest). r.id ≡ req.id)
        (req.wants_pieces && not req.finished && not keep) refl refl)
      (λ piece rest. if_both (λ (r : GenRequest). r.id ≡ req.id) req.wants_pieces refl refl)

-- How often the request `x` is let in by an answer of `submit`.
unfoldable pub let_in : ℕ → Submitted → ℕ
let_in x (refused result) = 0
let_in x (queued req) = hit x req.id

module _ (L : Llama) (x : ℕ) (c : Config) (core : Core L) (queue : List GenRequest) where
  -- A call of `submit` finishes nobody, and adds to the queue whom it lets in.
  abbrev pub Grows : (Core L × List GenRequest) × Submitted → Type 0
  Grows p =
      (p.0.0.metrics.requests_processing ≡ core.metrics.requests_processing)
      × (tally x p.0.0.finished ≡ tally x core.finished)
      × (tally x p.0.1 ≡ tally x queue + let_in x p.1)

  refuses :
      (core' : Core L) (result : GenResult)
      → core'.metrics.requests_processing ≡ core.metrics.requests_processing
      → tally x core'.finished ≡ tally x core.finished
      → Grows ((core', queue), refused result)
  unfolding let_in
  refuses core' result p q = (p, q, omega arith)

  enqueue-Grows : (req : GenRequest) → Grows (enqueue L c core queue req)
  unfolding enqueue let_in
  enqueue-Grows req =
      if_both Grows (queue_full c queue) (refl, refl, omega arith)
        (refl, refl, tally-append x queue (req ∷ []) ∙ omega (arith, tally-one x req))

  pub submit-Grows :
      (id : ℕ) (params : GenParams) (wants_pieces sampler_ok : Bool)
      → Grows (submit L c core queue id params wants_pieces sampler_ok)
  unfolding submit
  submit-Grows id params wants_pieces sampler_ok =
      if_both Grows c.embedding_mode (refuses core _ refl refl) (
        if_both Grows (not (is_empty params.media) && not c.has_mmproj) (refuses core _ refl refl) (
          option_both Grows (check_prompt L c params).1
            (if_both Grows sampler_ok (enqueue-Grows _) (refuses core _ refl refl))
            (λ e q. refuses core _ refl refl)))
