-- ===== src/Convert/Resolve/Origin.antt =====
-- Where the files come from that `onyx_resolve_model` (src/convert.cpp) hands out.
use onyx_engine.Prelude.{
  ℕ, ◌≡◌, refl, sym, ap, subst, ◌∙◌, inl, inr, Bool, true, not, ◌&&◌, ◌||◌, Option, none, some,
  ◌==◌, ==_iff, Bool-cases, Option-cases, &&_true,
}
use onyx_engine.Prelude.Bytes.{Bytes, bytes, eqb}
use onyx_engine.Convert.Path.{extension, join}
use onyx_engine.Convert.Shell.{command}
use onyx_engine.Convert.Cache.{Machine, has_gguf_magic, has_safetensors_file, is_fresh, other_fresh}
use onyx_engine.Convert.Resolve.{
  Resolved, resolved, unresolved, resolve_converter_script, model_dir, moved, exited, converted,
  with_script, from_dir, onyx_resolve_model,
}

-- What was established of a file: it is the one given and a GGUF file, a conversion that is fresh, one
-- that the converter has just finished, or one that another process finished first.
pub data Origin (M : Machine) (world : M.World) (model_path path : Bytes) : Type 0 where
  as_given :
      path ≡ model_path
      → M.is_regular_file world path ≡ true
      → (eqb (extension path) (bytes ".gguf") || has_gguf_magic M world path) ≡ true
      → Origin M world model_path path
  cached :
      (script dir : Bytes)
      → is_fresh M world path script dir ≡ true
      → Origin M world model_path path
  made :
      (script dir tmp_path : Bytes) (before : M.World)
      → (M.run before (command script dir tmp_path)).1.1 ≡ some 0
      → (M.rename (M.run before (command script dir tmp_path)).0 tmp_path path).1 ≡ true
      → Origin M world model_path path
  made_meanwhile :
      (script dir : Bytes) (after : M.World)
      → other_fresh M after path script dir ≡ true
      → Origin M world model_path path

path_of : Bytes → Resolved → Bytes
path_of d (resolved p) = p
path_of d (unresolved e) = d

resolved-injective : (p q : Bytes) → resolved p ≡ resolved q → p ≡ q
unfolding path_of
resolved-injective p q e = ap (λ (r : Resolved). path_of p r) e

module _ (M : Machine) (world : M.World) (model_path path : Bytes) where
  moved-Origin :
      (before : M.World) (tmp_path cache_path script dir : Bytes)
      → (M.run before (command script dir tmp_path)).1.1 ≡ some 0
      → (moved M (M.run before (command script dir tmp_path)).0 tmp_path cache_path script dir).1
        ≡ resolved path
      → Origin M world model_path path
  unfolding moved
  moved-Origin before tmp_path cache_path script dir ok h =
      elim (Bool-cases (M.rename ran tmp_path cache_path).1) [
        | inl e ↦
            let q : cache_path ≡ path = resolved-injective cache_path path (simp e at h) in
            made script dir tmp_path before ok
              (subst (λ (p : Bytes). (M.rename ran tmp_path p).1 ≡ true) q e)
        | inr e ↦
            elim (Bool-cases
              (other_fresh M (M.rename ran tmp_path cache_path).0 cache_path script dir)) [
                | inl f ↦
                    let q : cache_path ≡ path =
                      resolved-injective cache_path path (simp (e, f) at h) in
                    made_meanwhile script dir (M.rename ran tmp_path cache_path).0 (
                      subst
                        (λ (p : Bytes).
                          other_fresh M (M.rename ran tmp_path cache_path).0 p script dir ≡ true)
                        q f)
                | inr f ↦ let h' = simp (e, f) at h in absurd (cc)
              ]
      ]
    where
      ran : M.World
      ran = (M.run before (command script dir tmp_path)).0

  exited-Origin :
      (before : M.World) (tmp_path cache_path script dir : Bytes) (code : Option ℕ)
      → (M.run before (command script dir tmp_path)).1.1 ≡ code
      → (exited M
          (M.run before (command script dir tmp_path)).0
          tmp_path
          cache_path
          script
          dir
          (M.run before (command script dir tmp_path)).1.0
          code).1
        ≡ resolved path
      → Origin M world model_path path
  unfolding exited
  exited-Origin before tmp_path cache_path script dir none c h = absurd (cc)
  exited-Origin before tmp_path cache_path script dir (some rc) c h = elim (Bool-cases (rc == 0)) [
    | inl e ↦
        moved-Origin before tmp_path cache_path script dir
          (c ∙ ap (λ (n : ℕ). some n) ((==_iff rc 0).0 e)) (simp e at h)
    | inr e ↦ let h' = simp e at h in absurd (cc)
  ]

  converted-Origin :
      (before : M.World) (cache_path script dir : Bytes)
      → (converted M before cache_path script dir).1 ≡ resolved path
      → Origin M world model_path path
  unfolding converted
  converted-Origin before cache_path script dir h =
      exited-Origin before _ cache_path script dir _ refl h

  with_script-Origin :
      (cache_dir cache_path dir : Bytes) (script : Option Bytes)
      → (with_script M world cache_dir cache_path dir script).1 ≡ resolved path
      → Origin M world model_path path
  unfolding with_script
  with_script-Origin cache_dir cache_path dir none h = absurd (cc)
  with_script-Origin cache_dir cache_path dir (some script) h =
      elim (Bool-cases (is_fresh M world cache_path script dir)) [
        | inl f ↦
            let q : cache_path ≡ path = resolved-injective cache_path path (simp f at h) in
            cached script dir (subst (λ (p : Bytes). is_fresh M world p script dir ≡ true) q f)
        | inr f ↦ elim (Bool-cases (M.create_directories world cache_dir).1) [
          | inl g ↦
              converted-Origin (M.create_directories world cache_dir).0 cache_path script dir
                (simp (f, g) at h)
          | inr g ↦ let h' = simp (f, g) at h in absurd (cc)
        ]
      ]

  from_dir-Origin :
      (convert_dir dir : Bytes)
      → (from_dir M world convert_dir dir).1 ≡ resolved path
      → Origin M world model_path path
  unfolding from_dir
  from_dir-Origin convert_dir dir h =
      with_script-Origin _ _ dir (resolve_converter_script M world) h

  -- A path that `onyx_resolve_model` hands out is the model's own, a regular file that ends in ".gguf" or
  -- begins as a GGUF file does; or a cached conversion that passed the test of freshness; or a file that
  -- the converter finished with exit code 0 and that was moved into place; or one that passed the test
  -- behind a move that failed. It holds for every machine, whatever its calls answer.
  pub onyx_resolve_model-Origin :
      (convert_dir : Bytes)
      → (onyx_resolve_model M world model_path convert_dir).1 ≡ resolved path
      → Origin M world model_path path
  unfolding onyx_resolve_model
  onyx_resolve_model-Origin convert_dir h = elim (Bool-cases (M.exists_ world model_path)) [
    | inr e ↦ let h' = simp e at h in absurd (cc)
    | inl e ↦ elim (Bool-cases given) [
      | inl f ↦
          let q : model_path ≡ path = resolved-injective model_path path (simp (e, f) at h) in
          let (regular, gguf) = &&_true (M.is_regular_file world model_path) _ f in
          as_given (sym q) (subst (λ (p : Bytes). M.is_regular_file world p ≡ true) q regular) (
            subst
              (λ (p : Bytes).
                (eqb (extension p) (bytes ".gguf") || has_gguf_magic M world p) ≡ true)
              q gguf)
      | inr f ↦ elim (Option-cases (model_dir M world model_path)) [
        | inl g ↦ let h' = simp (e, f, g) at h in absurd (cc)
        | inr (dir, g) ↦
            elim (Bool-cases (
              not (M.exists_ world (join dir (bytes "config.json")))
              || not (has_safetensors_file M world dir))) [
                | inl k ↦ let h' = simp (e, f, g, k) at h in absurd (cc)
                | inr k ↦ from_dir-Origin convert_dir dir (simp (e, f, g, k) at h)
              ]
      ]
    ]
  ]
    where
      given : Bool
      given =
          M.is_regular_file world model_path
          && (eqb (extension model_path) (bytes ".gguf") || has_gguf_magic M world model_path)
