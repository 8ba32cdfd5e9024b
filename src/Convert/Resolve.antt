-- ===== src/Convert/Resolve.antt =====
-- src/convert.cpp: `resolve_converter_script` and `onyx_resolve_model`.
pub mod Origin
use onyx_engine.Prelude.{
  ℕ, Bool, true, false, not, ◌&&◌, ◌||◌, Option, none, some, List, [], ◌∷◌, ◌++◌, if◌then◌else◌,
  ◌==◌,
}
use onyx_engine.Prelude.Bytes.{Bytes, bytes, eqb, find_from}
use onyx_engine.Convert.Path.{extension, parent_path, join}
use onyx_engine.Convert.Shell.{command, read_lines}
use onyx_engine.Convert.Cache.{
  Machine, cache_name, has_gguf_magic, has_safetensors_file, is_fresh, other_fresh, is_nil,
}

-- One constructor for each error message; a failed conversion keeps the exit code (`none` is -1), the
-- last lines of the output, and whether the hint is added.
pub data ConvertError : Type 0 where
  missing_model not_a_model not_a_model_dir missing_script cannot_create_cache cannot_move :
      ConvertError
  conversion_failed : Option ℕ → List Bytes → Bool → ConvertError

pub data Resolved : Type 0 where
  resolved : Bytes → Resolved
  unresolved : ConvertError → Resolved

abbrev script_name : Bytes
script_name = bytes "convert-safetensors.py"

abbrev or_here : Bytes → Bytes
or_here [] = bytes "."
or_here (c ∷ dir) = c ∷ dir

abbrev contains_text : Bytes → Bytes → Bool
contains_text p s = elim (find_from p s 0) [ none ↦ false | some i ↦ true ]

needs_hint : List Bytes → Bool
needs_hint [] = false
needs_hint (line ∷ tail) =
    contains_text (bytes "No module named 'numpy'") line
    || contains_text (bytes "python3: not found") line
    || needs_hint tail

module _ (M : Machine) where
  -- The first of two places beside the executable that has the script.
  script_beside : M.World → List Bytes → Option Bytes
  script_beside world [] = none
  script_beside world (rel ∷ rels) =
      let candidate = join (join M.executable_dir rel) script_name in
      let rest = script_beside world rels in
      if M.exists_ world candidate then some (M.lexically_normal candidate) else rest

  script_in_source : M.World → Option Bytes → Option Bytes
  script_in_source world none = none
  script_in_source world (some dir) =
      let candidate = join (join dir (bytes "scripts")) script_name in
      if M.exists_ world candidate then some candidate else none

  searched_script : M.World → Option Bytes
  unfolding script_beside script_in_source
  searched_script world =
      let beside =
        if is_nil M.executable_dir
        then none
        else script_beside world (bytes "../scripts/" ∷ bytes "../../scripts/" ∷ []) in
      elim beside [ some script ↦ some script | none ↦ script_in_source world M.source_dir ]

  unfoldable pub resolve_converter_script : M.World → Option Bytes
  unfolding searched_script
  resolve_converter_script world = elim M.script_env [
    | none ↦ searched_script world
    | some env ↦ if is_nil env then searched_script world else some env
  ]

  -- The directory of a safetensors model; `none` if the path names no model.
  model_dir : M.World → Bytes → Option Bytes
  model_dir world path =
      if M.is_directory world path
      then some path
      else if M.is_regular_file world path && eqb (extension path) (bytes ".safetensors")
      then some (or_here (parent_path path))
      else none

  -- The move of the converted file into place, and what is left if it fails.
  moved : M.World → Bytes → Bytes → Bytes → Bytes → M.World × Resolved
  moved world tmp_path cache_path script dir =
      let (world', renamed) = M.rename world tmp_path cache_path in
      if renamed
      then (world', resolved cache_path)
      else if other_fresh M world' cache_path script dir
      then (M.remove world' tmp_path, resolved cache_path)
      else (M.remove world' tmp_path, unresolved cannot_move)

  exited : M.World → Bytes → Bytes → Bytes → Bytes → Bytes → Option ℕ → M.World × Resolved
  unfolding moved needs_hint
  exited world tmp_path cache_path script dir output code =
      let tail = read_lines 20 [] [] output in
      let failed : M.World × Resolved =
        (M.remove world tmp_path, unresolved (conversion_failed code tail (needs_hint tail))) in
      elim code [
        | none ↦ failed
        | some rc ↦ if rc == 0 then moved world tmp_path cache_path script dir else failed
      ]

  -- The conversion into a temporary file beside the cached one.
  converted : M.World → Bytes → Bytes → Bytes → M.World × Resolved
  unfolding exited
  converted world cache_path script dir =
      let tmp_path = cache_path ++ (bytes "." ++ (M.temp_suffix world ++ bytes ".tmp")) in
      let (world', (output, code)) = M.run world (command script dir tmp_path) in
      exited world' tmp_path cache_path script dir output code

  -- The cached conversion of a directory, or a new one, once the script is found.
  with_script : M.World → Bytes → Bytes → Bytes → Option Bytes → M.World × Resolved
  unfolding converted
  with_script world cache_dir cache_path dir none = (world, unresolved missing_script)
  with_script world cache_dir cache_path dir (some script) =
      if is_fresh M world cache_path script dir
      then (world, resolved cache_path)
      else (let (world', created) = M.create_directories world cache_dir in
          if created
          then converted world' cache_path script dir
          else (world', unresolved cannot_create_cache))

  -- A directory that holds a safetensors model.
  from_dir : M.World → Bytes → Bytes → M.World × Resolved
  unfolding with_script
  from_dir world convert_dir dir =
      let cache_dir = if is_nil convert_dir then join dir (bytes "onyx-cache") else convert_dir in
      with_script world cache_dir (join cache_dir (cache_name (M.absolute dir))) dir
        (resolve_converter_script world)

  unfoldable pub onyx_resolve_model : M.World → Bytes → Bytes → M.World × Resolved
  unfolding model_dir from_dir
  onyx_resolve_model world model_path convert_dir =
      if not (M.exists_ world model_path)
      then (world, unresolved missing_model)
      else if M.is_regular_file world model_path
          && (eqb (extension model_path) (bytes ".gguf") || has_gguf_magic M world model_path)
      then (world, resolved model_path)
      else (elim (model_dir world model_path) [
        | none ↦ (world, unresolved not_a_model)
        | some dir ↦
            if not (M.exists_ world (join dir (bytes "config.json")))
              || not (has_safetensors_file M world dir)
            then (world, unresolved not_a_model_dir)
            else from_dir world convert_dir dir
      ])
