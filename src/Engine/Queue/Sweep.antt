-- ===== src/Engine/Queue/Sweep.antt =====
-- What `sweep_queue` leaves in the queue and what it finishes.
use onyx_engine.Prelude.{
  ℕ, ◌+◌, ◌≤◌, ◌<◌, ◌≡◌, refl, ◌⊎◌, inl, inr, true, false, none, some, List, [], ◌∷◌, arith, All,
  Option-cases,
}
use onyx_engine.Engine.Types.{Config, GenRequest, cancel_reason, queue_wait}
use onyx_engine.Engine.Llama.{Llama}
use onyx_engine.Engine.Emit.{Core}
use onyx_engine.Engine.Queue.{timed_out, swept, hand_over, sweep_from, sweep_queue}

-- `zs` is made of `xs` and `ys`, each of them in its order.
pub data Split {ℓ} {A : Type ℓ} : List A → List A → List A → Type ℓ where
  nil : Split [] [] []
  left : {x : A} {xs ys zs : List A} → Split xs ys zs → Split (x ∷ xs) ys (x ∷ zs)
  right : {y : A} {xs ys zs : List A} → Split xs ys zs → Split xs (y ∷ ys) (y ∷ zs)

-- The items of a list are put on another one after the other.
unfoldable pub put_on {ℓ} : {A : Type ℓ} → List A → List A → List A
put_on [] ys = ys
put_on (x ∷ xs) ys = put_on xs (x ∷ ys)

-- There is a limit, and the request has waited for it.
abbrev pub Expired : Config → ℕ → GenRequest → Type 0
Expired c now req = (0 < c.queue_timeout_us) × (req.t_queued + c.queue_timeout_us ≤ now)

-- The client still waits, and there is no limit or it is not reached.
abbrev pub Waits : Config → ℕ → GenRequest → Type 0
Waits c now req =
    (req.cancelled ≡ false) × ((c.queue_timeout_us ≡ 0) ⊎ (now < req.t_queued + c.queue_timeout_us))

-- What a request that was cancelled or has expired becomes.
pub record Answer (c : Config) (now : ℕ) (req done : GenRequest) : Type 0 where
  pub same : done.id ≡ req.id
  pub is_finished : done.finished ≡ true
  pub no_sampler : done.smpl ≡ false
  pub cause :
      ((req.cancelled ≡ true)
        × (done.result.finish ≡ cancel_reason)
        × (done.result.error ≡ req.result.error))
      ⊎ ((req.cancelled ≡ false)
          × Expired c now req
          × (done.result.error ≡ some queue_wait)
          × (done.result.queue_timeout ≡ true))

-- One answer for each request, in the same order.
pub data Answers (c : Config) (now : ℕ) : List GenRequest → List GenRequest → Type 0 where
  no_answers : Answers c now [] []
  answer :
      {req done : GenRequest} {reqs dones : List GenRequest}
      → Answer c now req done
      → Answers c now reqs dones
      → Answers c now (req ∷ reqs) (done ∷ dones)

module _ (L : Llama) (c : Config) (now : ℕ) where
  swept-none : (req : GenRequest) → swept L c now req ≡ none → Waits c now req
  unfolding swept timed_out
  swept-none req h = ground arith

  swept-some : (req done : GenRequest) → swept L c now req ≡ some done → Answer c now req done
  unfolding swept timed_out
  swept-some req done h = record {
    same = ground arith;
    is_finished = ground arith;
    no_sampler = ground arith;
    cause = ground arith;
  }

  -- The queue is split into those that still wait and those that are gone, which are answered.
  pub record Swept (core : Core L) (queue : List GenRequest) (core' : Core L)
      (queue' : List GenRequest) : Type 0 where
    pub gone : List GenRequest
    pub done : List GenRequest
    pub split : Split queue' gone queue
    pub waits : All (Waits c now) queue'
    pub answers : Answers c now gone done
    pub handed : core'.finished ≡ put_on done core.finished

  sweep_from-Swept :
      (core : Core L) (queue : List GenRequest)
      → Swept core queue (sweep_from L c now core queue).0 (sweep_from L c now core queue).1
  unfolding sweep_from hand_over put_on
  sweep_from-Swept core [] = record {
    gone = [];
    done = [];
    split = nil;
    waits = tt;
    answers = no_answers;
    handed = refl;
  }
  sweep_from-Swept core (req ∷ queue) = elim (Option-cases (swept L c now req)) [
    | inl e ↦
        let ih : Swept core queue (sweep_from L c now core queue).0
            (sweep_from L c now core queue).1 =
          sweep_from-Swept core queue in
        simp (e, sweep_from)
          (record {
            gone = ih.gone;
            done = ih.done;
            split = left ih.split;
            waits = (swept-none req e, ih.waits);
            answers = ih.answers;
            handed = ih.handed;
          })
    | inr (done, e) ↦
        let next : Core L = hand_over L core done in
        let ih : Swept next queue (sweep_from L c now next queue).0
            (sweep_from L c now next queue).1 =
          sweep_from-Swept next queue in
        simp (e, sweep_from)
          (record {
            gone = req ∷ ih.gone;
            done = done ∷ ih.done;
            split = right ih.split;
            waits = ih.waits;
            answers = answer (swept-some req done e) ih.answers;
            handed = ih.handed;
          })
  ]

-- A sweep splits the queue in two. Those that stay are, in their old order, requests that are not
-- cancelled and for which there is no time limit or it is not reached. Each of the others was
-- cancelled, or there is a limit and it waited that long; it is handed over, in the order of the queue
-- on top of those finished before, finished, without its sampler, and with the result of its cause.
pub sweep_queue-Swept :
    (L : Llama) (c : Config) (core : Core L) (queue : List GenRequest)
    → Swept L c
        (L.now core.world)
        core
        queue
        (sweep_queue L c core queue).0
        (sweep_queue L c core queue).1
unfolding sweep_queue
sweep_queue-Swept L c core queue = sweep_from-Swept L c (L.now core.world) core queue
