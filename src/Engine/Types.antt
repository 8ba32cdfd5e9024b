-- ===== src/Engine/Types.antt =====
-- src/engine.h: the data of the generation engine.
--
-- Numbers: a `llama_token` is the 32-bit pattern of its value, so a negative token is one from 2^31
-- on; a count that the code never makes negative is an ℕ; where the code uses -1 for "none"
-- (`i_batch`, `n_predict`, the reasoning budget, `n_keep`) the field is an `Option ℕ` and `none` is
-- any negative value, which the code does not tell apart. A logprob is a `float` that the engine
-- only carries; it is held as its bit pattern. Times are microseconds, so `t_prompt_us` is
-- `t_prompt_ms * 1000`.
use onyx_engine.Prelude.{ℕ, Bool, true, false, Option, List}
use onyx_engine.Prelude.Bytes.{Bytes}

-- One candidate token with its raw logprob.
pub record ProbEntry : Type 0 where
  pub token : ℕ
  pub piece : Bytes
  pub logprob : ℕ

-- One generated token: the sampled entry and the top alternatives.
pub record TokenProbs : Type 0 where
  pub sampled : ProbEntry
  pub top : List ProbEntry

-- The reasoning-budget parameters of one request.
pub record ReasoningBudget : Type 0 where
  pub enabled : Bool
  pub budget : Option ℕ
  pub start_tag : List ℕ
  pub end_tag : List ℕ
  pub forced : List ℕ
  pub start_in_prompt : Bool

-- The parameters of one request; the sampling parameters belong to the sampler, apart from the
-- tokens that are rendered as text.
pub record GenParams : Type 0 where
  pub prompt_tokens : List ℕ
  pub n_predict : Option ℕ
  pub stop : List Bytes
  pub preserved_tokens : List ℕ
  pub cache_prompt : Bool
  pub prompt_text : Bytes
  pub media : List Bytes
  pub want_logprobs : Bool
  pub n_probs : ℕ
  pub reasoning : ReasoningBudget

pub data FinishReason : Type 0 where
  stop_reason length_reason cancel_reason : FinishReason

-- The error messages of the engine, one constructor for each text. A result with no error has
-- `none` where the code has the empty string.
pub data GenError : Type 0 where
  in_embedding_mode no_projector invalid_token bad_sampler : GenError
  prompt_too_long busy queue_wait shutting_down : GenError
  tick_failed sampling_failed generation_failed : GenError
  context_exceeded invalid_batch compute_error : GenError
  media_decode media_markers media_preprocess media_too_long media_eval : GenError

pub record GenResult : Type 0 where
  pub error : Option GenError
  pub text : Bytes
  pub finish : FinishReason
  pub stopping_word : Bytes
  pub n_prompt : ℕ
  pub n_cached : ℕ
  pub n_predicted : ℕ
  pub truncated : Bool
  pub queue_full : Bool
  pub queue_timeout : Bool
  pub t_prompt_us : ℕ
  pub t_predict_us : ℕ
  pub probs : List TokenProbs

-- One piece of text on its way to the caller.
pub record GenPiece : Type 0 where
  pub text : Bytes
  pub probs : List TokenProbs

-- One request in flight. `id` is the identity of the shared pointer, `smpl` says whether it still
-- holds its sampler, and `delivered` is the history of the calls of the token callback.
pub record GenRequest : Type 0 where
  pub id : ℕ
  pub params : GenParams
  pub smpl : Bool
  pub wants_pieces : Bool
  pub pieces : List GenPiece
  pub delivered : List GenPiece
  pub cancelled : Bool
  pub t_queued : ℕ
  pub finished : Bool
  pub result : GenResult

pub data SlotState : Type 0 where
  idle prefill generating : SlotState

pub data RbState : Type 0 where
  rb_off rb_idle rb_counting rb_forcing rb_done : RbState

-- One request slot. The KV cache of sequence `seq_id` holds `cache_tokens`.
pub record Slot : Type 0 where
  pub seq_id : ℕ
  pub state : SlotState
  pub req : Option GenRequest
  pub cache_tokens : List ℕ
  pub prompt : List ℕ
  pub has_media : Bool
  pub n_past : ℕ
  pub i_batch : Option ℕ
  pub sampled : ℕ
  pub n_sent : ℕ
  pub t_last_used : ℕ
  pub t_start : ℕ
  pub t_prompt : ℕ
  pub n_probs_sent : ℕ
  pub probs_covered_bytes : ℕ
  pub rb_state : RbState
  pub rb_count : ℕ
  pub rb_forced_idx : ℕ
  pub rb_start_match : ℕ
  pub rb_end_match : ℕ

-- The counters behind /metrics; seconds are kept as microseconds.
pub record Metrics : Type 0 where
  pub prompt_tokens : ℕ
  pub prompt_us : ℕ
  pub predicted_tokens : ℕ
  pub predicted_us : ℕ
  pub n_decode : ℕ
  pub n_busy_slots : ℕ
  pub n_tokens_max : ℕ
  pub requests_rejected : ℕ
  pub requests_timed_out : ℕ
  pub requests_processing : ℕ

-- What a memory can cut back.
pub data SeqRmKind : Type 0 where
  rm_none rm_partial rm_full rm_bounded : SeqRmKind

-- The fields of `onyx_engine` that `load` sets and nothing changes afterwards. `n_keep` is `none`
-- for the whole prompt.
pub record Config : Type 0 where
  pub embedding_mode : Bool
  pub has_mmproj : Bool
  pub n_ctx_slot : ℕ
  pub n_batch : ℕ
  pub tick_tokens : ℕ
  pub max_queue : ℕ
  pub queue_timeout_us : ℕ
  pub n_swa : ℕ
  pub cache_reuse : ℕ
  pub ctx_shift : Bool
  pub n_keep : Option ℕ
  pub add_bos : Bool
  pub seq_rm : SeqRmKind

-- `slot.state != ONYX_SLOT_IDLE`, `== ONYX_SLOT_PREFILL` and `== ONYX_SLOT_GENERATE`.
abbrev pub is_idle : SlotState → Bool
is_idle idle = true
is_idle _ = false

abbrev pub is_prefill : SlotState → Bool
is_prefill prefill = true
is_prefill _ = false

abbrev pub is_generating : SlotState → Bool
is_generating generating = true
is_generating _ = false
