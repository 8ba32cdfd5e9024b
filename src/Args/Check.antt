-- ===== src/Args/Check.antt =====
-- src/args.cpp: `onyx_args_parse` behind its loop, the checks and the defaults.
pub mod Ranges
pub mod Laws
use onyx_engine.Prelude.{
  ℕ, suc, ◌+◌, ◌-◌, Bool, true, false, not, ◌&&◌, ◌||◌, Option, none, some, List, [], ◌∷◌, length,
  take, drop, ◌==◌, if◌then◌else◌,
}
use onyx_engine.Prelude.Bytes.{Bytes, bytes, eqb, starts}
use onyx_engine.Args.Types.{
  ℤ, below, above, Args, FlashAttn, fa_off, ArgsError, model_required, invalid_value,
  invalid_timeout, invalid_max_request_bytes, keys_exclusive, needs_flash_attn, needs_key,
  invalid_pooling, needs_embedding, Parsed, parsed, rejected,
}
use onyx_engine.Args.Values.{
  one_of, pop_if, onyx_cache_type_is_quantized, KeyFile, key_is, no_key, onyx_read_api_key_file,
  onyx_host_is_loopback,
}
use onyx_engine.Args.Parse.{Read, goes_on, shows, fails, read_args}

-- The machine: the files that can be read, and the environment variable of the key.
pub record Machine : Type 0 where
  pub read_file : Bytes → Option Bytes
  pub api_key_env : Option Bytes

abbrev pub is_blank : Bytes → Bool
is_blank [] = true
is_blank (c ∷ s) = false

abbrev pub is_off : FlashAttn → Bool
is_off fa_off = true
is_off _ = false

-- The ranges of the second test.
pub out_of_range : Args → Bool
out_of_range out =
    below out.port 0
    || above out.port 65535
    || below out.n_parallel 1
    || below out.cache_reuse 0
    || below out.n_batch 1
    || below out.n_ubatch 1
    || below out.n_ctx 0
    || below out.max_queue 0
    || below out.tick_tokens 0
    || below out.queue_timeout 0
    || below out.n_cpu_moe 0

key_from : Args → KeyFile → Parsed
key_from out (no_key e) = rejected e
key_from out (key_is key) = parsed (record out { api_key = key })

env_key : Args → Option Bytes → Args
env_key out none = out
env_key out (some key) = record out { api_key = if is_blank key then out.api_key else key }

-- The key: --api-key, else --api-key-file, else the environment.
resolve_key : Machine → Args → Parsed
unfolding key_from env_key
resolve_key m out =
    if is_blank out.api_key_file
    then parsed (if is_blank out.api_key then env_key out m.api_key_env else out)
    else if is_blank out.api_key
    then key_from out (onyx_read_api_key_file (m.read_file out.api_key_file))
    else rejected keys_exclusive

poolings : List Bytes
poolings = bytes "" ∷ bytes "none" ∷ bytes "mean" ∷ bytes "cls" ∷ bytes "last" ∷ bytes "rank" ∷ []

-- `base.back() == '/' || base.back() == '\\'` and `base.pop_back()`, on the reversed string.
reverse_onto : Bytes → Bytes → Bytes
reverse_onto [] acc = acc
reverse_onto (c ∷ s) acc = reverse_onto s (c ∷ acc)

abbrev is_slash : ℕ → Bool
is_slash c = c == 47 || c == 92

drop_slashes : Bytes → Bytes
drop_slashes [] = []
drop_slashes (c ∷ s) = let rest = drop_slashes s in if is_slash c then rest else c ∷ s

-- On the reversed string: what stands behind the last slash.
until_slash : Bytes → Bytes
until_slash [] = []
until_slash (c ∷ s) = let rest = until_slash s in if is_slash c then [] else c ∷ rest

abbrev base_name : Bytes → Bytes
unfolding reverse_onto drop_slashes until_slash
base_name path = reverse_onto (until_slash (drop_slashes (reverse_onto path []))) []

-- A string without an ending; `none` if it does not end so. The last place where an ending can
-- stand is the end.
strip_ending : Bytes → Bytes → Option Bytes
strip_ending ext s =
    if starts (reverse_onto ext []) (reverse_onto s [])
    then some (take (length s - length ext) s)
    else none

strip_endings : List Bytes → Bytes → Bytes
unfolding strip_ending
strip_endings [] s = s
strip_endings (ext ∷ exts) s = elim (strip_ending ext s) [
  | none ↦ strip_endings exts s
  | some s' ↦ s'
]

default_alias : Bytes → Bytes
unfolding base_name strip_endings
default_alias path =
    let base = strip_endings (bytes ".gguf" ∷ bytes ".safetensors" ∷ []) (base_name path) in
    if is_blank base then bytes "model" else base

with_alias : Args → Args
unfolding default_alias
with_alias out =
    if is_blank out.alias then record out { alias = default_alias out.model_path } else out

-- The checks behind the key.
check_rest : Args → Parsed
unfolding with_alias poolings
check_rest out =
    if onyx_cache_type_is_quantized out.cache_type_v && is_off out.flash_attn
    then rejected needs_flash_attn
    else if not (onyx_host_is_loopback out.host)
        && is_blank out.api_key
        && not out.allow_unauthenticated
    then rejected needs_key
    else if not (one_of out.pooling poolings)
    then rejected invalid_pooling
    else if not out.embedding && not (is_blank out.pooling)
    then rejected needs_embedding
    else parsed (with_alias out)

and_check : Parsed → Parsed
unfolding check_rest
and_check (rejected e) = rejected e
and_check (parsed out) = check_rest out

check_args : Machine → Args → Parsed
unfolding out_of_range resolve_key and_check
check_args m out =
    if is_blank out.model_path
    then rejected model_required
    else if out_of_range out
    then rejected invalid_value
    else if below out.timeout 1
    then rejected invalid_timeout
    else if below out.max_request_bytes 1
    then rejected invalid_max_request_bytes
    else and_check (resolve_key m out)

after_loop : Machine → Read → Parsed
unfolding check_args
after_loop m (fails e) = rejected e
after_loop m (shows out) = parsed out
after_loop m (goes_on out) = check_args m out

-- `argv` is given without the program's name, and `out` as it is before the call.
unfoldable pub onyx_args_parse : Machine → List Bytes → Args → Parsed
unfolding after_loop
onyx_args_parse m argv out = after_loop m (read_args argv out)
