-- ===== src/Engine/Llama.antt =====
-- The interface to llama.cpp, which is not part of the repository: an abstract state (context,
-- memory, samplers and clock) and the calls that the engine makes of it.
use onyx_engine.Prelude.{ℕ, Bool, Option, List}
use onyx_engine.Prelude.Bytes.{Bytes}

-- One row of a `llama_batch`.
pub record Row : Type 0 where
  pub token : ℕ
  pub pos : ℕ
  pub seq_id : ℕ
  pub logits : Bool

-- The codes of `llama_decode` that the engine tells apart: 0, 1, -1 and any other.
pub data DecodeCode : Type 0 where
  decode_ok decode_full decode_invalid decode_error : DecodeCode

-- What mtmd_tokenize makes of a prompt with media: its chunks and the positions they take, or one
-- of its two refusals.
pub data MediaChunks : Type 0 where
  chunks : List ℕ → ℕ → MediaChunks
  marker_mismatch : MediaChunks
  preprocess_failed : MediaChunks

-- A position argument of -1 is `none`; so is the batch row -1, the last one. A sampler is named by
-- the id of the request that holds it.
pub record Llama : Type 1 where
  pub World : Type 0
  -- ggml_time_us
  pub now : World → ℕ
  -- llama_vocab_n_tokens, llama_vocab_bos (none if negative), llama_vocab_is_eog
  pub n_vocab : ℕ
  pub bos : Option ℕ
  pub is_eog : ℕ → Bool
  -- onyx_token_to_piece over llama_token_to_piece
  pub token_to_piece : ℕ → Bool → Bytes
  -- llama_memory_seq_rm, llama_memory_seq_add by a negative delta, llama_memory_seq_pos_min,
  -- llama_memory_clear
  pub seq_rm : World → ℕ → Option ℕ → Option ℕ → World × Bool
  pub seq_add_neg : World → ℕ → ℕ → ℕ → ℕ → World
  pub seq_pos_min : World → ℕ → Option ℕ
  pub memory_clear : World → World
  -- llama_decode
  pub decode : World → List Row → World × DecodeCode
  -- the sampler of a request: none and false are exceptions
  pub sample : World → ℕ → Option ℕ → World × Option ℕ
  pub accept : World → ℕ → ℕ → Bool → World × Bool
  -- the float part of compute_token_probs: the logprob of a token in a row, and the top tokens
  pub logprob : World → Option ℕ → ℕ → ℕ
  pub top_tokens : World → Option ℕ → ℕ → List ℕ
  -- mtmd_helper_bitmap_init_from_buf (whether it gives a bitmap), mtmd_tokenize, and
  -- mtmd_helper_eval_chunk_single (the new position, unless it fails)
  pub bitmap_ok : Bytes → Bool
  pub media_chunks : Bytes → List Bytes → MediaChunks
  pub eval_chunk : World → ℕ → ℕ → ℕ → ℕ → Bool → World × Option ℕ
