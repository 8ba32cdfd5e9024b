-- ===== src/Args/Check/Laws.antt =====
-- What the arguments of a successful `onyx_args_parse` satisfy.
use onyx_engine.Prelude.{
  ◌≡◌, ◌≢◌, refl, sym, ap, subst, ◌∙◌, ◌⊎◌, inl, inr, Bool, true, false, not, ◌&&◌, Option, none,
  some, List, [], ◌∷◌, arith, if◌then◌else◌, Bool-cases,
}
use onyx_engine.Prelude.Bytes.{Bytes, bytes}
use onyx_engine.Args.Types.{Args, FlashAttn, fa_off, ArgsError, Parsed, parsed, rejected}
use onyx_engine.Args.Values.{
  KeyFile, key_is, no_key, onyx_cache_type_is_quantized, onyx_host_is_loopback,
}
use onyx_engine.Args.Parse.{Read, goes_on, shows, fails, read_args}
use onyx_engine.Args.Parse.Shown.{Shown, Proper, read_args-Proper}
use onyx_engine.Args.Check.Ranges.{
  InRange, is_blank-ne, ne-is_blank, InRange-renamed, check-InRange,
}
use onyx_engine.Args.Check.{
  Machine, is_blank, is_off, key_from, env_key, resolve_key, strip_endings, base_name,
  default_alias, with_alias, check_rest, and_check, check_args, after_loop, onyx_args_parse,
}

-- What holds beyond the ranges: nobody is let in unasked, and the options agree.
pub record IsSafe (out : Args) : Type 0 where
  pub exposure :
      (onyx_host_is_loopback out.host ≡ true)
      ⊎ ((out.api_key ≢ []) ⊎ (out.allow_unauthenticated ≡ true))
  pub attention : onyx_cache_type_is_quantized out.cache_type_v ≡ true → out.flash_attn ≢ fa_off
  pub embeds : out.pooling ≢ [] → out.embedding ≡ true

guard-parsed :
    (b : Bool) (e : ArgsError) (k : Parsed) (out : Args)
    → (if b then rejected e else k) ≡ parsed out
    → (b ≡ false) × (k ≡ parsed out)
guard-parsed true e k out h = absurd (cc)
guard-parsed false e k out h = (refl, h)

is_off-fa_off : (f : FlashAttn) → is_off f ≡ false → f ≢ fa_off
is_off-fa_off f h q = absurd (cc)

unparse : Args → Parsed → Args
unparse d (parsed out) = out
unparse d (rejected e) = d

parsed-injective : (a b : Args) → parsed a ≡ parsed b → a ≡ b
unfolding unparse
parsed-injective a b e = ap (λ (p : Parsed). unparse a p) e

IsSafe-renamed : (out : Args) (name : Bytes) → IsSafe out → IsSafe (record out { alias = name })
IsSafe-renamed out name s = record {
  exposure = s.exposure;
  attention = s.attention;
  embeds = s.embeds;
}

key_from-parsed :
    (out out' : Args) (k : KeyFile)
    → key_from out k ≡ parsed out'
    → (key : Bytes) × (out' ≡ record out { api_key = key })
unfolding key_from
key_from-parsed out out' (no_key e) h = absurd (cc)
key_from-parsed out out' (key_is key) h = (key, sym (parsed-injective _ _ h))

env_key-key :
    (out : Args) (o : Option Bytes) → (key : Bytes) × (env_key out o ≡ record out { api_key = key })
unfolding env_key
env_key-key out none = (out.api_key, refl)
env_key-key out (some key) = (_, refl)

resolve_key-parsed :
    (m : Machine) (out out' : Args)
    → resolve_key m out ≡ parsed out'
    → (key : Bytes) × (out' ≡ record out { api_key = key })
unfolding resolve_key
resolve_key-parsed m out out' h = elim (Bool-cases (is_blank out.api_key_file)) [
  | inl e ↦ elim (Bool-cases (is_blank out.api_key)) [
    | inl b ↦
        let (key, q) = env_key-key out m.api_key_env in
        let h' = simp (e, b) at h in (key, sym (parsed-injective _ _ h') ∙ q)
    | inr b ↦ let h' = simp (e, b) at h in (out.api_key, sym (parsed-injective _ _ h'))
  ]
  | inr e ↦ elim (Bool-cases (is_blank out.api_key)) [
    | inl b ↦ let h' = simp (e, b) at h in key_from-parsed out out' _ h'
    | inr b ↦ let h' = simp (e, b) at h in absurd (cc)
  ]
]

-- A choice of three: what is not refused holds one of them.
unless : (a b c : Bool) → (not a && b && not c) ≡ false → (a ≡ true) ⊎ ((b ≡ false) ⊎ (c ≡ true))
unless true b c h = inl refl
unless false false c h = inr (inl refl)
unless false true true h = inr (inr refl)
unless false true false h = absurd (cc)

both-absurd : (a b : Bool) → (a && b) ≡ false → a ≡ true → b ≡ false
both-absurd a b h q = ground arith

check_rest-IsSafe :
    (out out' : Args) → check_rest out ≡ parsed out' → IsSafe out × (out' ≡ with_alias out)
unfolding check_rest
check_rest-IsSafe out out' h =
    let (a, h0) = guard-parsed _ _ _ out' h in
    let (b, h1) = guard-parsed _ _ _ out' h0 in
    let (c, h2) = guard-parsed _ _ _ out' h1 in
    let (d, h3) = guard-parsed _ _ _ out' h2 in
    (
      record {
        exposure =
            elim (unless (onyx_host_is_loopback out.host) (is_blank out.api_key)
              out.allow_unauthenticated b) [
                | inl e ↦ inl e
                | inr (inl e) ↦ inr (inl (is_blank-ne _ e))
                | inr (inr e) ↦ inr (inr e)
              ];
        attention = λ q. is_off-fa_off _ (both-absurd _ _ a q);
        embeds = λ q. embeds out.embedding (is_blank out.pooling) d (ne-is_blank _ q);
      },
      sym (parsed-injective _ _ h3),
    )
  where
    embeds : (e b : Bool) → (not e && not b) ≡ false → b ≡ false → e ≡ true
    embeds e b h q = ground arith

default_alias-ne : (path : Bytes) → default_alias path ≢ []
unfolding default_alias
default_alias-ne path q = elim (Bool-cases (is_blank base)) [
  | inl e ↦ (let q' : bytes "model" ≡ [] = (simp e at q) in absurd (cc))
  | inr e ↦ (let q' : base ≡ [] = (simp e at q) in is_blank-ne base e q')
]
  where
    base : Bytes
    base = strip_endings (bytes ".gguf" ∷ bytes ".safetensors" ∷ []) (base_name path)

with_alias-alias :
    (out : Args) → (name : Bytes) × ((name ≢ []) × (with_alias out ≡ record out { alias = name }))
unfolding with_alias default_alias
with_alias-alias out = elim (Bool-cases (is_blank out.alias)) [
  | inl e ↦
      (default_alias out.model_path, (default_alias-ne out.model_path, rw (e, with_alias) refl))
  | inr e ↦ (out.alias, (is_blank-ne _ e, rw (e, with_alias) refl))
]

-- What a check that does not refuse has established.
pub record IsChecked (out : Args) : Type 0 where
  pub ranges : InRange out
  pub safe : IsSafe out
  pub named : out.alias ≢ []

and_check-IsChecked :
    (p : Parsed) (raw out : Args)
    → InRange raw
    → ((o : Args) → p ≡ parsed o → (key : Bytes) × (o ≡ record raw { api_key = key }))
    → and_check p ≡ parsed out
    → IsChecked out
unfolding and_check
and_check-IsChecked (rejected e) raw out r k h = absurd (cc)
and_check-IsChecked (parsed o) raw out r k h =
    let (key, q) = k o refl in
    let (safe, w) = check_rest-IsSafe o out h in
    let (name, (ne, a)) = with_alias-alias o in
    subst (λ (x : Args). IsChecked x) (sym (w ∙ a))
      (record {
        ranges =
            subst (λ (x : Args). InRange (record x { alias = name })) (sym q)
              (InRange-renamed raw key name r);
        safe = IsSafe-renamed o name safe;
        named = ne;
      })

check_args-IsChecked :
    (m : Machine) (raw out : Args) → check_args m raw ≡ parsed out → IsChecked out
unfolding check_args
check_args-IsChecked m raw out h =
    let (a, h0) = guard-parsed _ _ _ out h in
    let (b, h1) = guard-parsed _ _ _ out h0 in
    let (c, h2) = guard-parsed _ _ _ out h1 in
    let (d, h3) = guard-parsed _ _ _ out h2 in
    and_check-IsChecked (resolve_key m raw) raw out (check-InRange raw a b c d)
      (λ o q. resolve_key-parsed m raw o q) h3

after_loop-IsChecked :
    (m : Machine) (r : Read) (out : Args)
    → Proper r
    → after_loop m r ≡ parsed out
    → Shown out ⊎ IsChecked out
unfolding after_loop Proper
after_loop-IsChecked m (fails e) out p h = absurd (cc)
after_loop-IsChecked m (shows o) out p h =
    inl (subst (λ (x : Args). Shown x) (parsed-injective o out h) p)
after_loop-IsChecked m (goes_on o) out p h = inr (check_args-IsChecked m o out h)

-- A command line that is accepted either asks for the help text or the version, or gives arguments
-- with all of this: a model, a port from 0 to 65535 and every count in its range; a host that only
-- this machine reaches, or a key, or the explicit leave to serve without one; flash attention not
-- switched off under a quantized V cache; pooling only with embeddings; and a model id that is not
-- empty. It holds for every command line, every start value, and whatever the key file and the
-- environment hold.
pub onyx_args_parse-IsChecked :
    (m : Machine) (argv : List Bytes) (start out : Args)
    → onyx_args_parse m argv start ≡ parsed out
    → Shown out ⊎ IsChecked out
unfolding onyx_args_parse
onyx_args_parse-IsChecked m argv start out h =
    after_loop-IsChecked m (read_args argv start) out (read_args-Proper argv start) h
