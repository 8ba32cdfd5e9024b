-- ===== src/Args/Parse.antt =====
-- src/args.cpp: the loop of `onyx_args_parse` over the arguments.
pub mod Shown
use onyx_engine.Prelude.{
  ℕ, Bool, true, false, ◌||◌, Option, none, some, List, [], ◌∷◌, if◌then◌else◌,
}
use onyx_engine.Prelude.Bytes.{Bytes, bytes, eqb}
use onyx_engine.Args.Types.{
  ℤ, to_u32, Args, FlashAttn, fa_auto, fa_off, fa_on, ArgsError, requires_value, invalid_integer,
  invalid_cache_type, invalid_override, invalid_flash_attn, unknown_argument, Parsed, parsed,
  rejected,
}
use onyx_engine.Args.Number.{parse_int, parse_int64}
use onyx_engine.Args.Values.{onyx_cache_type_is_valid, onyx_parse_tensor_overrides, one_of}

-- What a flag does: `value` and its special cases `text` and `number` take the next argument.
pub data Flag : Type 0 where
  help version : Flag
  toggle : (Args → Args) → Flag
  value : (Args → Bytes → Parsed) → Flag

-- A flag whose value is stored as it is, and one whose value is an `int32_t`.
abbrev pub text : (Args → Bytes → Args) → Flag
text set = value (λ out val. parsed (set out val))

set_number : (Args → ℤ → Args) → Args → Option ℤ → Parsed
set_number set out none = rejected invalid_integer
set_number set out (some n) = parsed (set out n)

abbrev number : (Args → ℤ → Args) → Flag
number set = value (λ out val. set_number set out (parse_int val))

abbrev set_max_request_bytes : Args → Bytes → Parsed
set_max_request_bytes out val =
    set_number (λ o n. record o { max_request_bytes = n }) out (parse_int64 val)

abbrev set_cache_type : (Args → Bytes → Args) → Args → Bytes → Parsed
set_cache_type set out val =
    if onyx_cache_type_is_valid val then parsed (set out val) else rejected invalid_cache_type

set_overrides : Args → Bytes → Parsed
set_overrides out val = elim (onyx_parse_tensor_overrides val out.tensor_overrides) [
  | none ↦ rejected invalid_override
  | some pairs ↦ parsed (record out { tensor_overrides = pairs })
]

abbrev set_flash_attn : Args → Bytes → Parsed
set_flash_attn out val =
    if eqb val (bytes "on") || eqb val (bytes "1")
    then parsed (record out { flash_attn = fa_on })
    else if eqb val (bytes "off") || eqb val (bytes "0")
    then parsed (record out { flash_attn = fa_off })
    else if eqb val (bytes "auto")
    then parsed (record out { flash_attn = fa_auto })
    else rejected invalid_flash_attn

-- The tests of the loop in their order: the spellings of a flag, and what it does.
abbrev number_flags : List (List Bytes × Flag)
number_flags =
    (bytes "--port" ∷ [], number (λ out n. record out { port = n }))
    ∷ (bytes "-c" ∷ bytes "--ctx-size" ∷ [], number (λ out n. record out { n_ctx = n }))
    ∷ (bytes "-b" ∷ bytes "--batch-size" ∷ [], number (λ out n. record out { n_batch = n }))
    ∷ (bytes "-ub" ∷ bytes "--ubatch-size" ∷ [], number (λ out n. record out { n_ubatch = n }))
    ∷ (
      bytes "-ngl" ∷ bytes "--n-gpu-layers" ∷ bytes "--gpu-layers" ∷ [],
      number (λ out n. record out { n_gpu_layers = n }),
    )
    ∷ (bytes "-t" ∷ bytes "--threads" ∷ [], number (λ out n. record out { n_threads = n }))
    ∷ (
      bytes "-tb" ∷ bytes "--threads-batch" ∷ [],
      number (λ out n. record out { n_threads_batch = n }),
    )
    ∷ (bytes "-np" ∷ bytes "--parallel" ∷ [], number (λ out n. record out { n_parallel = n }))
    ∷ (bytes "--max-queue" ∷ [], number (λ out n. record out { max_queue = n }))
    ∷ (bytes "--tick-tokens" ∷ [], number (λ out n. record out { tick_tokens = n }))
    ∷ (bytes "--cache-reuse" ∷ [], number (λ out n. record out { cache_reuse = n }))
    ∷ (bytes "--keep" ∷ [], number (λ out n. record out { n_keep = n }))
    ∷ (bytes "--reasoning-budget" ∷ [], number (λ out n. record out { reasoning_budget = n }))
    ∷ (bytes "--queue-timeout" ∷ [], number (λ out n. record out { queue_timeout = n }))
    ∷ (bytes "-ncmoe" ∷ bytes "--n-cpu-moe" ∷ [], number (λ out n. record out { n_cpu_moe = n }))
    ∷ (bytes "--timeout" ∷ [], number (λ out n. record out { timeout = n }))
    ∷ (bytes "--max-request-bytes" ∷ [], value set_max_request_bytes)
    ∷ (bytes "-s" ∷ bytes "--seed" ∷ [], number (λ out n. record out { seed = to_u32 n }))
    ∷ []

abbrev value_flags : List (List Bytes × Flag)
value_flags =
    (bytes "-m" ∷ bytes "--model" ∷ [], text (λ out val. record out { model_path = val }))
    ∷ (bytes "-a" ∷ bytes "--alias" ∷ [], text (λ out val. record out { alias = val }))
    ∷ (bytes "--chat-template" ∷ [], text (λ out val. record out { chat_template = val }))
    ∷ (bytes "--chat-template-file" ∷ [], text (λ out val. record out { chat_template_file = val }))
    ∷ (bytes "--host" ∷ [], text (λ out val. record out { host = val }))
    ∷ (bytes "--api-key" ∷ [], text (λ out val. record out { api_key = val }))
    ∷ (bytes "--api-key-file" ∷ [], text (λ out val. record out { api_key_file = val }))
    ∷ (bytes "--pooling" ∷ [], text (λ out val. record out { pooling = val }))
    ∷ (bytes "--mmproj" ∷ [], text (λ out val. record out { mmproj_path = val }))
    ∷ (bytes "--convert-dir" ∷ [], text (λ out val. record out { convert_dir = val }))
    ∷ (
      bytes "--reasoning-budget-message" ∷ [],
      text (λ out val. record out { reasoning_budget_message = val }),
    )
    ∷ (bytes "-cmoe" ∷ bytes "--cpu-moe" ∷ [], toggle (λ out. record out { cpu_moe = true }))
    ∷ (
      bytes "-ctk" ∷ bytes "--cache-type-k" ∷ [],
      value (set_cache_type (λ out val. record out { cache_type_k = val })),
    )
    ∷ (
      bytes "-ctv" ∷ bytes "--cache-type-v" ∷ [],
      value (set_cache_type (λ out val. record out { cache_type_v = val })),
    )
    ∷ (bytes "-ot" ∷ bytes "--override-tensor" ∷ [], value set_overrides)
    ∷ (bytes "-fa" ∷ bytes "--flash-attn" ∷ [], value set_flash_attn)
    ∷ number_flags

abbrev flags : List (List Bytes × Flag)
flags =
    (bytes "-h" ∷ bytes "--help" ∷ [], help)
    ∷ (bytes "--version" ∷ [], version)
    ∷ (bytes "-v" ∷ bytes "--verbose" ∷ [], toggle (λ out. record out { verbose = true }))
    ∷ (bytes "--jinja" ∷ [], toggle (λ out. record out { jinja = true }))
    ∷ (bytes "--no-webui" ∷ [], toggle (λ out. record out { no_webui = true }))
    ∷ (bytes "--metrics" ∷ [], toggle (λ out. record out { metrics = true }))
    ∷ (
      bytes "--allow-unauthenticated" ∷ [],
      toggle (λ out. record out { allow_unauthenticated = true }),
    )
    ∷ (bytes "--mlock" ∷ [], toggle (λ out. record out { mlock = true }))
    ∷ (bytes "--no-mmap" ∷ [], toggle (λ out. record out { no_mmap = true }))
    ∷ (
      bytes "--embedding" ∷ bytes "--embeddings" ∷ [],
      toggle (λ out. record out { embedding = true }),
    )
    ∷ (bytes "--context-shift" ∷ [], toggle (λ out. record out { ctx_shift = true }))
    ∷ (bytes "--no-context-shift" ∷ [], toggle (λ out. record out { ctx_shift = false }))
    ∷ value_flags

unfoldable pub find_flag : Bytes → List (List Bytes × Flag) → Option Flag
unfolding one_of
find_flag arg [] = none
find_flag arg ((names, flag) ∷ rest) =
    let later = find_flag arg rest in if one_of arg names then some flag else later

-- The arguments read so far, and whether --help or --version ended the loop.
pub data Read : Type 0 where
  goes_on : Args → Read
  shows : Args → Read
  fails : ArgsError → Read

-- A flag with a value: what it makes of the value, and then the rest.
and_then : Parsed → (Args → Read) → Read
and_then (rejected e) k = fails e
and_then (parsed out) k = k out

-- One flag: `next` reads the arguments behind it, `rest` those behind its value.
flag_step : Option Flag → Args → (Args → Read) → Option (Bytes × (Args → Read)) → Read
unfolding and_then
flag_step none out next rest = fails unknown_argument
flag_step (some help) out next rest = shows (record out { show_help = true })
flag_step (some version) out next rest = shows (record out { show_version = true })
flag_step (some (toggle set)) out next rest = next (set out)
flag_step (some (value set)) out next none = fails requires_value
flag_step (some (value set)) out next (some (val, rest)) = and_then (set out val) rest

-- The loop over `argv` from its second element on.
unfoldable pub read_args : List Bytes → Args → Read
unfolding flag_step find_flag set_number set_overrides
read_args [] out = goes_on out
read_args (arg ∷ []) out = flag_step (find_flag arg flags) out (λ o. goes_on o) none
read_args (arg ∷ val ∷ argv) out =
    flag_step (find_flag arg flags) out (λ o. read_args (val ∷ argv) o)
      (some (val, λ o. read_args argv o))
