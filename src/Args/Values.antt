-- ===== src/Args/Values.antt =====
-- src/args.cpp: the values that have a form of their own: cache types, tensor overrides, the key
-- file and the host.
use onyx_engine.Prelude.{
  ℕ, suc, ◌+◌, Bool, false, not, ◌&&◌, ◌||◌, Option, none, some, List, [], ◌∷◌, ◌++◌, length, take,
  drop, ◌==◌, if◌then◌else◌,
}
use onyx_engine.Prelude.Bytes.{Bytes, bytes, eqb}
use onyx_engine.HttpUtil.Host.{onyx_is_ipv4_loopback}
use onyx_engine.Args.Types.{ArgsError, key_file_unreadable, key_file_empty}

unfoldable pub one_of : Bytes → List Bytes → Bool
one_of s [] = false
one_of s (t ∷ ts) = eqb s t || one_of s ts

abbrev cache_types : List Bytes
cache_types =
    bytes "f32"
    ∷ bytes "f16"
    ∷ bytes "bf16"
    ∷ bytes "q8_0"
    ∷ bytes "q4_0"
    ∷ bytes "q4_1"
    ∷ bytes "iq4_nl"
    ∷ bytes "q5_0"
    ∷ bytes "q5_1"
    ∷ []

unfoldable pub onyx_cache_type_is_valid : Bytes → Bool
onyx_cache_type_is_valid name = one_of name cache_types

unfoldable pub onyx_cache_type_is_quantized : Bytes → Bool
unfolding onyx_cache_type_is_valid
onyx_cache_type_is_quantized name =
    onyx_cache_type_is_valid name
    && not (eqb name (bytes "f32"))
    && not (eqb name (bytes "f16"))
    && not (eqb name (bytes "bf16"))

-- `item.rfind('=')`; 61 is '='.
rfind_eq : Bytes → Option ℕ
rfind_eq [] = none
rfind_eq (c ∷ s) = elim (rfind_eq s) [
  | some i ↦ some (suc i)
  | none ↦ if c == 61 then some 0 else none
]

-- One item: what stands before and behind its last '='.
override_item : Bytes → Option (Bytes × Bytes)
unfolding rfind_eq
override_item item = elim (rfind_eq item) [
  | none ↦ none
  | some eq ↦
      if eq == 0 || eq + 1 == length item then none else some (take eq item, drop (eq + 1) item)
]

add_item : Option (Bytes × Bytes) → Option (List (Bytes × Bytes)) → Option (List (Bytes × Bytes))
add_item none rest = none
add_item (some p) none = none
add_item (some p) (some rest) = some (p ∷ rest)

-- The loop over the text between commas; 44 is ','. `item` is what was read of the current item.
overrides_from : Bytes → Bytes → Option (List (Bytes × Bytes))
unfolding override_item add_item
overrides_from item [] = add_item (override_item item) (some [])
overrides_from item (c ∷ value) =
    let ended = add_item (override_item item) (overrides_from [] value) in
    let longer = overrides_from (item ++ (c ∷ [])) value in if c == 44 then ended else longer

unfoldable pub onyx_parse_tensor_overrides :
    Bytes → List (Bytes × Bytes) → Option (List (Bytes × Bytes))
unfolding overrides_from
onyx_parse_tensor_overrides value out = elim (overrides_from [] value) [
  | none ↦ none
  | some pairs ↦ some (out ++ pairs)
]

-- `s.back() == c`, and then `s.pop_back()`.
unfoldable pub pop_if : ℕ → Bytes → Option Bytes
pop_if b [] = none
pop_if b (c ∷ []) = if c == b then some [] else none
pop_if b (c ∷ d ∷ s) = elim (pop_if b (d ∷ s)) [ none ↦ none | some s' ↦ some (c ∷ s') ]

-- The end of the line: "\n", or "\r\n".
strip_newline : Bytes → Bytes
unfolding pop_if
strip_newline s = elim (pop_if 10 s) [
  | none ↦ s
  | some s' ↦ elim (pop_if 13 s') [ none ↦ s' | some s'' ↦ s'' ]
]

pub data KeyFile : Type 0 where
  key_is : Bytes → KeyFile
  no_key : ArgsError → KeyFile

nonempty_key : Bytes → KeyFile
nonempty_key [] = no_key key_file_empty
nonempty_key (c ∷ key) = key_is (c ∷ key)

-- The argument is the content of the file, `none` if it cannot be opened.
unfoldable pub onyx_read_api_key_file : Option Bytes → KeyFile
unfolding strip_newline nonempty_key
onyx_read_api_key_file none = no_key key_file_unreadable
onyx_read_api_key_file (some content) = nonempty_key (strip_newline content)

unfoldable pub onyx_host_is_loopback : Bytes → Bool
onyx_host_is_loopback host =
    eqb host (bytes "localhost")
    || eqb host (bytes "::1")
    || eqb host (bytes "[::1]")
    || onyx_is_ipv4_loopback host
