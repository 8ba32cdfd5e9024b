-- ===== src/Examples/Data.antt =====
-- A small llama.cpp and the requests and slots that the examples run on.
use onyx_engine.Prelude.{ℕ, suc, true, false, none, some, List, [], ◌∷◌, ◌==◌}
use onyx_engine.Prelude.Bytes.{bytes}
use onyx_engine.Engine.Types.{
  ReasoningBudget, GenParams, GenRequest, GenResult, Slot, idle, prefill, generating, rb_off,
  rb_counting, stop_reason, Metrics, Config, rm_partial,
}
use onyx_engine.Engine.Llama.{Llama, decode_ok, chunks}
use onyx_engine.Engine.Emit.{Core}
use onyx_engine.Engine.Loop.{Engine}

-- Its state is its clock, its tokens are the letters, and it samples the letter 'b'.
abbrev pub toy : Llama
toy = record {
  World = ℕ;
  now = λ w. w;
  n_vocab = 128;
  bos = some 1;
  is_eog = λ t. t == 0;
  token_to_piece = λ t special. t ∷ [];
  seq_rm = λ w s p q. (w, true);
  seq_add_neg = λ w s p q d. w;
  seq_pos_min = λ w s. some 0;
  memory_clear = λ w. w;
  decode = λ w rows. (suc w, decode_ok);
  sample = λ w id i. (w, some 98);
  accept = λ w id t g. (w, true);
  logprob = λ w i t. 0;
  top_tokens = λ w i n. [];
  bitmap_ok = λ m. true;
  media_chunks = λ text media. chunks [] 0;
  eval_chunk = λ w chunk p s n last. (w, some p);
}

-- Four tokens of thinking, between the tokens 60 and 62.
abbrev pub thinking : ReasoningBudget
thinking = record {
  enabled = true;
  budget = some 4;
  start_tag = 60 ∷ [];
  end_tag = 62 ∷ [];
  forced = 10 ∷ 62 ∷ [];
  start_in_prompt = true;
}

abbrev pub params : GenParams
params = record {
  prompt_tokens = 7 ∷ 8 ∷ 9 ∷ [];
  n_predict = none;
  stop = bytes "ab" ∷ [];
  preserved_tokens = [];
  cache_prompt = true;
  prompt_text = [];
  media = [];
  want_logprobs = false;
  n_probs = 0;
  reasoning = thinking;
}

abbrev pub no_result : GenResult
no_result = record {
  error = none;
  text = [];
  finish = stop_reason;
  stopping_word = [];
  n_prompt = 3;
  n_cached = 0;
  n_predicted = 0;
  truncated = false;
  queue_full = false;
  queue_timeout = false;
  t_prompt_us = 0;
  t_predict_us = 0;
  probs = [];
}

-- A request whose text so far is "a", all of it held back.
abbrev pub request : GenRequest
request = record {
  id = 1;
  params = params;
  smpl = true;
  wants_pieces = true;
  pieces = [];
  delivered = [];
  cancelled = false;
  t_queued = 0;
  finished = false;
  result = record no_result { text = bytes "a" };
}

abbrev pub second_request : GenRequest
second_request = record request { id = 2; result = no_result }

abbrev pub rested : Slot
rested = record {
  seq_id = 0;
  state = idle;
  req = none;
  cache_tokens = 7 ∷ 8 ∷ 5 ∷ [];
  prompt = [];
  has_media = false;
  n_past = 3;
  i_batch = none;
  sampled = 0;
  n_sent = 0;
  t_last_used = 0;
  t_start = 0;
  t_prompt = 0;
  n_probs_sent = 0;
  probs_covered_bytes = 0;
  rb_state = rb_off;
  rb_count = 0;
  rb_forced_idx = 0;
  rb_start_match = 0;
  rb_end_match = 0;
}

-- A slot that sampled the letter 'b' for the request.
abbrev pub talking : Slot
talking = record rested {
  state = generating;
  req = some request;
  prompt = 7 ∷ 8 ∷ 9 ∷ [];
  cache_tokens = 7 ∷ 8 ∷ 9 ∷ 97 ∷ [];
  n_past = 4;
  sampled = 98;
  t_prompt = 1;
  rb_state = rb_counting;
  rb_count = 4;
}

-- A slot with two tokens of its prompt left.
abbrev pub reading : Slot
reading = record rested {
  seq_id = 1;
  state = prefill;
  req = some second_request;
  prompt = 7 ∷ 8 ∷ 9 ∷ [];
  cache_tokens = 7 ∷ [];
  n_past = 1;
}

abbrev pub slots : List Slot
slots = talking ∷ reading ∷ (record rested { seq_id = 2 }) ∷ []

abbrev pub zero_metrics : Metrics
zero_metrics = record {
  prompt_tokens = 0;
  prompt_us = 0;
  predicted_tokens = 0;
  predicted_us = 0;
  n_decode = 0;
  n_busy_slots = 0;
  n_tokens_max = 0;
  requests_rejected = 0;
  requests_timed_out = 0;
  requests_processing = 2;
}

abbrev pub core : Core toy
core = record { world = 10; tick = 0; metrics = zero_metrics; finished = [] }

abbrev pub config : Config
config = record {
  embedding_mode = false;
  has_mmproj = false;
  n_ctx_slot = 16;
  n_batch = 8;
  tick_tokens = 4;
  max_queue = 2;
  queue_timeout_us = 5;
  n_swa = 0;
  cache_reuse = 1;
  ctx_shift = true;
  n_keep = some 1;
  add_bos = false;
  seq_rm = rm_partial;
}

abbrev pub engine : Engine toy
engine = record { core = core; slots = slots; queue = second_request ∷ [] }
