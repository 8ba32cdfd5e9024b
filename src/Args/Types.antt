-- ===== src/Args/Types.antt =====
-- src/args.h: `onyx_args`, and the errors of the parser.
use onyx_engine.Prelude.{
  ℕ, suc, ◌+◌, ◌-◌, ◌%◌, ◌^◌, Bool, true, false, List, [], ltb, if◌then◌else◌,
}
use onyx_engine.Prelude.Bytes.{Bytes, bytes}

-- `int32_t` and `int64_t`; `negsuc n` is -(n + 1).
pub data ℤ : Type 0 where
  pos : ℕ → ℤ
  negsuc : ℕ → ℤ

-- `z < n` and `z > n` for a literal `n` that is not negative.
abbrev pub below : ℤ → ℕ → Bool
below (pos m) n = ltb m n
below (negsuc m) n = true

abbrev pub above : ℤ → ℕ → Bool
above (pos m) n = ltb n m
above (negsuc m) n = false

-- `(uint32_t) z`
abbrev pub to_u32 : ℤ → ℕ
to_u32 (pos m) = m % 2 ^ 32
to_u32 (negsuc m) = 2 ^ 32 - suc (m % 2 ^ 32)

-- A number in an `int32_t`, on which the machine's addition wraps around.
abbrev pub to_i32 : ℕ → ℤ
to_i32 m = if ltb (m % 2 ^ 32) (2 ^ 31) then pos (m % 2 ^ 32) else negsuc (2 ^ 32 - 1 - m % 2 ^ 32)

-- `std::max<int32_t>(0, z)`
abbrev pub at_least_zero : ℤ → ℕ
at_least_zero (pos n) = n
at_least_zero (negsuc n) = 0

-- `std::max<int32_t>(0, n + 1)` for an `int32_t` that is not negative.
unfoldable pub next_i32 : ℕ → ℕ
next_i32 n = at_least_zero (to_i32 (n + 1))

-- --flash-attn: -1, 0 and 1.
pub data FlashAttn : Type 0 where
  fa_auto fa_off fa_on : FlashAttn

pub record Args : Type 0 where
  pub model_path : Bytes
  pub alias : Bytes
  pub chat_template : Bytes
  pub chat_template_file : Bytes
  pub host : Bytes
  pub port : ℤ
  pub api_key : Bytes
  pub api_key_file : Bytes
  pub allow_unauthenticated : Bool
  pub timeout : ℤ
  pub max_request_bytes : ℤ
  pub n_ctx : ℤ
  pub n_batch : ℤ
  pub n_ubatch : ℤ
  pub n_gpu_layers : ℤ
  pub n_threads : ℤ
  pub n_threads_batch : ℤ
  pub n_parallel : ℤ
  pub max_queue : ℤ
  pub tick_tokens : ℤ
  pub flash_attn : FlashAttn
  pub mlock : Bool
  pub no_mmap : Bool
  pub seed : ℕ
  pub queue_timeout : ℤ
  pub cache_type_k : Bytes
  pub cache_type_v : Bytes
  pub cpu_moe : Bool
  pub n_cpu_moe : ℤ
  pub tensor_overrides : List (Bytes × Bytes)
  pub embedding : Bool
  pub pooling : Bytes
  pub cache_reuse : ℤ
  pub jinja : Bool
  pub verbose : Bool
  pub no_webui : Bool
  pub metrics : Bool
  pub ctx_shift : Bool
  pub n_keep : ℤ
  pub reasoning_budget : ℤ
  pub reasoning_budget_message : Bytes
  pub mmproj_path : Bytes
  pub convert_dir : Bytes
  pub show_help : Bool
  pub show_version : Bool

abbrev pub defaults : Args
defaults = record {
  model_path = [];
  alias = [];
  chat_template = [];
  chat_template_file = [];
  host = bytes "127.0.0.1";
  port = pos 8080;
  api_key = [];
  api_key_file = [];
  allow_unauthenticated = false;
  timeout = pos 600;
  max_request_bytes = pos 104857600;
  n_ctx = pos 4096;
  n_batch = pos 2048;
  n_ubatch = pos 512;
  n_gpu_layers = negsuc 0;
  n_threads = negsuc 0;
  n_threads_batch = negsuc 0;
  n_parallel = pos 1;
  max_queue = pos 0;
  tick_tokens = pos 0;
  flash_attn = fa_auto;
  mlock = false;
  no_mmap = false;
  seed = 0xFFFFFFFF;
  queue_timeout = pos 0;
  cache_type_k = bytes "f16";
  cache_type_v = bytes "f16";
  cpu_moe = false;
  n_cpu_moe = pos 0;
  tensor_overrides = [];
  embedding = false;
  pooling = [];
  cache_reuse = pos 1;
  jinja = true;
  verbose = false;
  no_webui = false;
  metrics = false;
  ctx_shift = false;
  n_keep = pos 0;
  reasoning_budget = negsuc 0;
  reasoning_budget_message = [];
  mmproj_path = [];
  convert_dir = [];
  show_help = false;
  show_version = false;
}

-- One constructor for each error message.
pub data ArgsError : Type 0 where
  requires_value invalid_integer invalid_cache_type invalid_override : ArgsError
  invalid_flash_attn unknown_argument : ArgsError
  model_required invalid_value invalid_timeout invalid_max_request_bytes : ArgsError
  keys_exclusive key_file_unreadable key_file_empty : ArgsError
  needs_flash_attn needs_key invalid_pooling needs_embedding : ArgsError

-- `true` with the arguments, or `false` behind an error message.
pub data Parsed : Type 0 where
  parsed : Args → Parsed
  rejected : ArgsError → Parsed
