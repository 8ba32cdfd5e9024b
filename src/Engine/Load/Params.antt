-- ===== src/Engine/Load/Params.antt =====
-- src/engine.cpp: what `onyx_engine::load` hands to llama.cpp: `pick_load_mode`, `pick_pooling`,
-- `pick_cache_type`, `build_tensor_overrides` and the parameters of the model and the context.
use onyx_engine.Prelude.{
  ℕ, zero, suc, ◌+◌, ◌/◌, ◌%◌, max, Bool, not, ◌&&◌, ◌||◌, Option, none, some, List, [], ◌∷◌, ◌++◌,
  ltb, if◌then◌else◌,
}
use onyx_engine.Prelude.Bytes.{Bytes, bytes, eqb}
use onyx_engine.Args.Types.{ℤ, pos, above, below, at_least_zero, next_i32, FlashAttn, Args}

pub data LoadMode : Type 0 where
  mode_mlock mode_none mode_mmap_mlock mode_auto : LoadMode

unfoldable pub pick_load_mode : Bool → Bool → LoadMode
pick_load_mode no_mmap mlock =
    if no_mmap && mlock
    then mode_mlock
    else if no_mmap
    then mode_none
    else if mlock
    then mode_mmap_mlock
    else mode_auto

pub data Pooling : Type 0 where
  pooling_none pooling_mean pooling_cls pooling_last pooling_rank pooling_unspecified : Pooling

unfoldable pub pick_pooling : Bytes → Pooling
pick_pooling name =
    if eqb name (bytes "none")
    then pooling_none
    else if eqb name (bytes "mean")
    then pooling_mean
    else if eqb name (bytes "cls")
    then pooling_cls
    else if eqb name (bytes "last")
    then pooling_last
    else if eqb name (bytes "rank")
    then pooling_rank
    else pooling_unspecified

pub data CacheType : Type 0 where
  f32 bf16 q8_0 q4_0 q4_1 iq4_nl q5_0 q5_1 f16 : CacheType

unfoldable pub pick_cache_type : Bytes → CacheType
pick_cache_type name =
    if eqb name (bytes "f32")
    then f32
    else if eqb name (bytes "bf16")
    then bf16
    else if eqb name (bytes "q8_0")
    then q8_0
    else if eqb name (bytes "q4_0")
    then q4_0
    else if eqb name (bytes "q4_1")
    then q4_1
    else if eqb name (bytes "iq4_nl")
    then iq4_nl
    else if eqb name (bytes "q5_0")
    then q5_0
    else if eqb name (bytes "q5_1")
    then q5_1
    else f16

-- `std::to_string` of a number below `10 ^ fuel`.
unfoldable pub to_string : ℕ → ℕ → Bytes
to_string zero n = []
to_string (suc fuel) n =
    let front = to_string fuel (n / 10) in (if ltb n 10 then [] else front) ++ (48 + n % 10) ∷ []

abbrev pub ffn_exps_regex : Bytes
ffn_exps_regex = bytes "\\.ffn_(up|down|gate|gate_up)_(ch|)exps"

-- The buffer type of a name: the last device that has it.
unfoldable pub find_buft : List (Bytes × ℕ) → Bytes → Option ℕ
find_buft [] name = none
find_buft ((n, b) ∷ bufts) name = elim (find_buft bufts name) [
  | some found ↦ some found
  | none ↦ if eqb n name then some b else none
]

-- The patterns of the command line, or the name that no device has.
pub data Overrides : Type 0 where
  unknown_buft : Bytes → Overrides
  overrides : List (Bytes × ℕ) → Overrides

add_override : Bytes → ℕ → Overrides → Overrides
add_override pattern buft (unknown_buft name) = unknown_buft name
add_override pattern buft (overrides rest) = overrides ((pattern, buft) ∷ rest)

-- A name that is not known ends the loop at once.
unfoldable pub named_overrides :
    List (Bytes × ℕ) → List (Bytes × Bytes) → List (Bytes × ℕ) → Overrides
unfolding add_override
named_overrides bufts [] more = overrides more
named_overrides bufts ((pattern, name) ∷ rest) more = elim (find_buft bufts name) [
  | none ↦ unknown_buft name
  | some buft ↦ add_override pattern buft (named_overrides bufts rest more)
]

-- `for (il = 0; il < n_cpu_moe; il++)`, by the rounds left; ten digits hold an int32_t.
unfoldable pub moe_layers : ℕ → ℕ → ℕ → List (Bytes × ℕ)
unfolding to_string
moe_layers cpu zero il = []
moe_layers cpu (suc rounds) il =
    (bytes "blk\\." ++ to_string 10 il ++ ffn_exps_regex, cpu) ∷ moe_layers cpu rounds (il + 1)

-- `bufts` are the buffer types of the devices by name, and `cpu` is the host's. The terminating
-- null entry of the array is left out.
unfoldable pub build_tensor_overrides : List (Bytes × ℕ) → ℕ → Args → Overrides
unfolding named_overrides moe_layers
build_tensor_overrides bufts cpu args = named_overrides bufts args.tensor_overrides (
    if args.cpu_moe
    then (ffn_exps_regex, cpu) ∷ []
    else moe_layers cpu (at_least_zero args.n_cpu_moe) 0)

-- The fields of `llama_model_params` and `llama_context_params` that `load` sets; `none` leaves the
-- default of llama.cpp.
pub record ModelParams : Type 0 where
  pub n_gpu_layers : ℤ
  pub load_mode : LoadMode
  pub tensor_buft_overrides : List (Bytes × ℕ)

unfoldable pub model_params : Args → List (Bytes × ℕ) → ModelParams
unfolding pick_load_mode
model_params args patterns = record {
  n_gpu_layers = if below args.n_gpu_layers 0 then pos 999 else args.n_gpu_layers;
  load_mode = pick_load_mode args.no_mmap args.mlock;
  tensor_buft_overrides = patterns;
}

pub record ContextParams : Type 0 where
  pub n_ctx : ℕ
  pub n_batch : ℕ
  pub n_ubatch : ℕ
  pub n_seq_max : ℕ
  pub kv_unified : Bool
  pub n_threads : ℕ
  pub n_threads_batch : ℕ
  pub flash_attn : FlashAttn
  pub type_k : CacheType
  pub type_v : CacheType
  pub embeddings : Bool
  pub pooling_type : Option Pooling
  pub n_outputs_max : Option ℕ

-- `n_parallel_` of a generation or embedding engine, and of a decision engine; an `int32_t`, as what the
-- command line gives is one.
unfoldable pub slots_wanted : Args → Bool → ℕ
slots_wanted args is_decision =
    if args.embedding || is_decision then 1 else max 1 (at_least_zero args.n_parallel)

-- `std::max({32, n, n_parallel_ + 1})`, where the sum is an `int32_t`.
abbrev pub batch_size : ℤ → ℕ → ℕ
batch_size n n_parallel = max 32 (max (at_least_zero n) (next_i32 n_parallel))

abbrev threads : ℤ → ℕ → ℕ
threads n default = if above n 0 then at_least_zero n else default

unfoldable pub context_params : Args → ℕ → Bool → Bool → ContextParams
unfolding pick_cache_type pick_pooling slots_wanted
context_params args hw_threads is_decision reads_embeddings =
    let n_parallel = slots_wanted args is_decision in
    let n_batch = batch_size args.n_batch n_parallel in
    let n_threads = threads args.n_threads (max 1 hw_threads) in
    record {
      n_ctx = at_least_zero args.n_ctx;
      n_batch = n_batch;
      n_ubatch =
          if args.embedding || reads_embeddings
          then n_batch
          else batch_size args.n_ubatch n_parallel;
      n_seq_max = if is_decision then 2 else n_parallel;
      kv_unified = is_decision;
      n_threads = n_threads;
      n_threads_batch = threads args.n_threads_batch n_threads;
      flash_attn = args.flash_attn;
      type_k = pick_cache_type args.cache_type_k;
      type_v = pick_cache_type args.cache_type_v;
      embeddings = args.embedding || reads_embeddings;
      pooling_type =
          if reads_embeddings
          then some pooling_none
          else if args.embedding
          then some (pick_pooling args.pooling)
          else none;
      n_outputs_max = if is_decision && not reads_embeddings then some 2 else none;
    }
