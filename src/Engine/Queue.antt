-- ===== src/Engine/Queue.antt =====
-- src/engine.cpp: the queue between the HTTP threads and the engine loop: `queue_full`, `generate`
-- (its checks and the submission, then one round of its consumer loop), and `sweep_queue`.
pub mod Submit
pub mod Sweep
pub mod Account
use onyx_engine.Prelude.{
  ℕ, zero, suc, ◌+◌, ◌-◌, ◌^◌, min, Bool, true, false, not, ◌&&◌, ◌||◌, Option, none, some, List,
  [], ◌∷◌, ◌++◌, length, leb, ltb, ◌==◌, if◌then◌else◌,
}
use onyx_engine.Prelude.Bytes.{Bytes}
use onyx_engine.Engine.Types.{
  Config, Slot, Metrics, GenParams, GenRequest, GenResult, GenPiece, GenError, stop_reason,
  cancel_reason, in_embedding_mode, no_projector, invalid_token, bad_sampler, prompt_too_long, busy,
  queue_wait,
}
use onyx_engine.Engine.Llama.{Llama}
use onyx_engine.Engine.Emit.{Core, u64}

unfoldable pub queue_full : Config → List GenRequest → Bool
queue_full c queue = if c.max_queue == 0 then false else leb c.max_queue (length queue)

-- A default `onyx_gen_result`, and one with an error.
unfoldable pub empty_result : GenResult
empty_result = record {
  error = none;
  text = [];
  finish = stop_reason;
  stopping_word = [];
  n_prompt = 0;
  n_cached = 0;
  n_predicted = 0;
  truncated = false;
  queue_full = false;
  queue_timeout = false;
  t_prompt_us = 0;
  t_predict_us = 0;
  probs = [];
}

unfoldable pub failed : GenError → GenResult
unfolding empty_result
failed error = record empty_result { error = some error }

-- `token < 0 || token >= n_vocab`, on a 32-bit pattern.
abbrev pub bad_token : ℕ → ℕ → Bool
bad_token n_vocab token = leb (2 ^ 31) token || leb n_vocab token

unfoldable pub any_bad : ℕ → List ℕ → Bool
any_bad n_vocab [] = false
any_bad n_vocab (t ∷ ts) = bad_token n_vocab t || any_bad n_vocab ts

abbrev pub is_empty {ℓ} : {A : Type ℓ} → List A → Bool
is_empty [] = true
is_empty (x ∷ xs) = false

-- An empty prompt falls back to BOS, or to token 0.
abbrev pub or_bos : Option ℕ → List ℕ → List ℕ
or_bos none [] = 0 ∷ []
or_bos (some b) [] = b ∷ []
or_bos bos (t ∷ ts) = t ∷ ts

-- What a call of `generate` does before it waits: it refuses, or the request is in the queue.
pub data Submitted : Type 0 where
  refused : GenResult → Submitted
  queued : GenRequest → Submitted

module _ (L : Llama) where
  -- The checks of the prompt: the prompt to use, or the error.
  unfoldable pub check_prompt : Config → GenParams → GenParams × Option GenError
  check_prompt c params =
      let prompt = or_bos L.bos params.prompt_tokens in
      let params' = record params { prompt_tokens = prompt } in
      if is_empty params.media
      then (
        params',
        (if leb c.n_ctx_slot (length prompt)
            then some prompt_too_long
            else if any_bad L.n_vocab prompt
            then some invalid_token
            else none),
      )
      else (params, none)

  new_request : L.World → ℕ → GenParams → Bool → GenRequest
  unfolding empty_result
  new_request world id params wants_pieces = record {
    id = id;
    params = record params { n_probs = min params.n_probs 25 };
    smpl = true;
    wants_pieces = wants_pieces;
    pieces = [];
    delivered = [];
    cancelled = false;
    t_queued = L.now world;
    finished = false;
    result = empty_result;
  }

  -- The locked part: the limit of the queue, or the request at its end.
  enqueue : Config → Core L → List GenRequest → GenRequest → (Core L × List GenRequest) × Submitted
  unfolding failed queue_full
  enqueue c core queue req =
      if queue_full c queue
      then (
        (
          record core {
            metrics = record core.metrics {
              requests_rejected = u64 (core.metrics.requests_rejected + 1);
            };
          },
          queue,
        ),
        refused (record (failed busy) { queue_full = true }),
      )
      else ((core, queue ++ req ∷ []), queued req)

  -- `sampler_ok` says whether the sampler could be built, which depends on parameters that the
  -- engine hands to llama.cpp unread.
  unfoldable pub submit :
      Config
      → Core L
      → List GenRequest
      → ℕ
      → GenParams
      → Bool
      → Bool
      → (Core L × List GenRequest) × Submitted
  unfolding check_prompt new_request enqueue
  submit c core queue id params wants_pieces sampler_ok =
      let (params', error) = check_prompt c params in
      if c.embedding_mode
      then ((core, queue), refused (failed in_embedding_mode))
      else if not (is_empty params.media) && not c.has_mmproj
      then ((core, queue), refused (failed no_projector))
      else (elim error [
        | some e ↦ ((core, queue), refused (failed e))
        | none ↦
            if sampler_ok
            then enqueue c core queue (new_request core.world id params' wants_pieces)
            else ((core, queue), refused (failed bad_sampler))
      ])

  -- `queue_timeout_us > 0 && now - t_queued >= queue_timeout_us`.
  unfoldable pub timed_out : Config → ℕ → GenRequest → Bool
  timed_out c now req = ltb 0 c.queue_timeout_us && leb c.queue_timeout_us (now - req.t_queued)

  -- The verdict on a waiting request: the finished request, or `none` if it goes on waiting.
  unfoldable pub swept : Config → ℕ → GenRequest → Option GenRequest
  unfolding timed_out
  swept c now req =
      if req.cancelled
      then some (record req {
        result = record req.result { finish = cancel_reason };
        smpl = false;
        finished = true;
      })
      else if timed_out c now req
      then some (record req {
        result = record req.result { error = some queue_wait; queue_timeout = true };
        smpl = false;
        finished = true;
      })
      else none

  count_timeout : Metrics → GenRequest → Metrics
  count_timeout m req =
      if req.result.queue_timeout
      then record m { requests_timed_out = u64 (m.requests_timed_out + 1) }
      else m

  hand_over : Core L → GenRequest → Core L
  unfolding count_timeout
  hand_over core req = record core {
    metrics = count_timeout core.metrics req;
    finished = req ∷ core.finished;
  }

  -- Takes every request with a verdict out of the queue, wherever it stands.
  sweep_from : Config → ℕ → Core L → List GenRequest → Core L × List GenRequest
  unfolding hand_over
  sweep_from c now core [] = (core, [])
  sweep_from c now core (req ∷ queue) =
      let verdict = swept c now req in
      let (core', rest) =
        sweep_from c now (elim verdict [ none ↦ core | some done ↦ hand_over core done ]) queue in
      (core', elim verdict [ none ↦ req ∷ rest | some done ↦ rest ])

  unfoldable pub sweep_queue : Config → Core L → List GenRequest → Core L × List GenRequest
  unfolding sweep_from
  sweep_queue c core queue = sweep_from c (L.now core.world) core queue

-- One piece of the consumer loop of `generate`: the callback gets the front piece, and its answer
-- may cancel the request. Without a piece the callback is polled with an empty text.
unfoldable pub deliver : GenRequest → Bool → GenRequest
deliver req keep = elim req.pieces [
  | [] ↦
      if req.wants_pieces && not req.finished && not keep
      then record req { cancelled = true }
      else req
  | piece ∷ pieces ↦
      if req.wants_pieces
      then record req {
        pieces = pieces;
        delivered = req.delivered ++ piece ∷ [];
        cancelled = req.cancelled || not keep;
      }
      else record req { pieces = pieces }
]
