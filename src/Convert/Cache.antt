-- ===== src/Convert/Cache.antt =====
-- src/convert.cpp: the files that a conversion is made from, where it is cached, and whether the cached
-- file is fresh.
use Prim.Native.Nat.{bit_xor}
use onyx_engine.Prelude.{
  ℕ, zero, suc, ◌+◌, ◌*◌, ◌/◌, ◌%◌, ◌^◌, Bool, true, false, not, ◌&&◌, Option, none, some, List, [],
  ◌∷◌, ◌++◌, take, leb, ltb, if◌then◌else◌,
}
use onyx_engine.Prelude.Bytes.{Bytes, bytes, eqb}
use onyx_engine.Convert.Path.{filename, extension, join}

-- The machine that the converter works on: the calls of the operating system and of the shell. A call
-- that reports an error gives `none` or `false`; times are those of the file system's clock.
pub record Machine : Type 1 where
  pub World : Type 0
  pub exists_ : World → Bytes → Bool
  pub is_regular_file : World → Bytes → Bool
  pub is_directory : World → Bytes → Bool
  -- the content of a file that can be opened
  pub content : World → Bytes → Option Bytes
  pub files_in : World → Bytes → List Bytes
  pub last_write_time : World → Bytes → Option ℕ
  pub file_size : World → Bytes → Option ℕ
  pub create_directories : World → Bytes → World × Bool
  pub remove : World → Bytes → World
  pub rename : World → Bytes → Bytes → World × Bool
  -- popen and pclose: the output and the exit code, unless the command cannot be started or does not
  -- exit by itself
  pub run : World → Bytes → World × (Bytes × Option ℕ)
  -- the absolute path, and the end of a temporary name: process and clock
  pub absolute : Bytes → Bytes
  pub temp_suffix : World → Bytes
  -- ONYX_ENGINE_CONVERT_SCRIPT, the directory of the executable, path::lexically_normal, and
  -- ONYX_ENGINE_SOURCE_DIR of the build
  pub script_env : Option Bytes
  pub executable_dir : Bytes
  pub lexically_normal : Bytes → Bytes
  pub source_dir : Option Bytes

is_magic : Option Bytes → Bool
is_magic none = false
is_magic (some content) = eqb (take 4 content) (bytes "GGUF")

abbrev is_safetensors : Bytes → Bool
is_safetensors path = eqb (extension path) (bytes ".safetensors")

unfoldable pub safetensors_only : List Bytes → List Bytes
safetensors_only [] = []
safetensors_only (p ∷ ps) =
    let rest = safetensors_only ps in if is_safetensors p then p ∷ rest else rest

abbrev pub is_nil {ℓ} : {A : Type ℓ} → List A → Bool
is_nil [] = true
is_nil (x ∷ xs) = false

abbrev pub config_names : List Bytes
config_names =
    bytes "config.json"
    ∷ bytes "tokenizer.json"
    ∷ bytes "tokenizer_config.json"
    ∷ bytes "model.safetensors.index.json"
    ∷ bytes "generation_config.json"
    ∷ []

-- `h` of `onyx_resolve_model`, a uint64_t.
unfoldable pub fnv1a : ℕ → Bytes → ℕ
fnv1a h [] = h
fnv1a h (c ∷ s) = fnv1a (bit_xor h c * 1099511628211 % 2 ^ 64) s

-- The digit of a value below 16, in lower case.
abbrev hex_digit : ℕ → ℕ
hex_digit d = if ltb d 10 then 48 + d else 87 + d

-- The lowest `n` digits of a number, the highest of them first.
unfoldable pub hex : ℕ → ℕ → Bytes
hex zero v = []
hex (suc n) v = hex n (v / 16) ++ (hex_digit (v % 16) ∷ [])

or_model : Bytes → Bytes
or_model [] = bytes "model"
or_model (c ∷ s) = c ∷ s

-- The name of the cached file: of the sixteen digits of the hash the first eight.
unfoldable pub cache_name : Bytes → Bytes
unfolding fnv1a hex or_model
cache_name abs_dir =
    or_model (filename abs_dir)
    ++ (bytes "-"
        ++ (take 8 (hex 16 (fnv1a 1469598103934665603 abs_dir)) ++ bytes "-converter-v2-f16.gguf"))

-- `a > b` for times, where a call that failed gives the earliest time.
unfoldable pub later : Option ℕ → Option ℕ → Bool
later none b = false
later (some a) none = true
later (some a) (some b) = ltb b a

module _ (M : Machine) (world : M.World) where
  unfoldable pub has_gguf_magic : Bytes → Bool
  unfolding is_magic
  has_gguf_magic path = is_magic (M.content world path)

  unfoldable pub has_safetensors_file : Bytes → Bool
  has_safetensors_file dir = not (is_nil (safetensors_only (M.files_in world dir)))

  existing : Bytes → List Bytes → List Bytes
  existing dir [] = []
  existing dir (name ∷ names) =
      let rest = existing dir names in
      if M.exists_ world (join dir name) then join dir name ∷ rest else rest

  unfoldable pub safetensors_source_files : Bytes → List Bytes
  unfolding existing
  safetensors_source_files dir =
      safetensors_only (M.files_in world dir) ++ existing dir config_names

  -- No source is newer than the time, and the time of each can be read.
  unfoldable pub none_newer : Option ℕ → List Bytes → Bool
  none_newer time [] = true
  none_newer time (src ∷ srcs) =
      let rest = none_newer time srcs in
      elim (M.last_write_time world src) [
        | none ↦ false
        | some t ↦ if later (some t) time then false else rest
      ]

  -- `!ec && size >= 32 && !ec`
  big_enough : Option ℕ → Option ℕ → Bool
  big_enough none size = false
  big_enough (some t) none = false
  big_enough (some t) (some size) = leb 32 size

  -- A cached conversion that can be reused: a GGUF file, not older than the script or the sources.
  unfoldable pub is_fresh : Bytes → Bytes → Bytes → Bool
  unfolding big_enough
  is_fresh cache_path script model_dir =
      let cache_time = M.last_write_time world cache_path in
      M.exists_ world cache_path
      && big_enough cache_time (M.file_size world cache_path)
      && has_gguf_magic cache_path
      && not (later (M.last_write_time world script) cache_time)
      && none_newer cache_time (safetensors_source_files model_dir)

  -- The same test behind a rename that failed: the time of the script has to be readable, but that of
  -- the cached file is not looked at again.
  abbrev readable : Option ℕ → Bool
  readable none = false
  readable (some t) = true

  unfoldable pub other_fresh : Bytes → Bytes → Bytes → Bool
  unfolding big_enough
  other_fresh cache_path script model_dir =
      let cache_time = M.last_write_time world cache_path in
      let script_time = M.last_write_time world script in
      M.exists_ world cache_path
      && big_enough (some 0) (M.file_size world cache_path)
      && has_gguf_magic cache_path
      && readable script_time
      && not (later script_time cache_time)
      && none_newer cache_time (safetensors_source_files model_dir)
