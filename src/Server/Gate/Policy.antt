-- ===== src/Server/Gate/Policy.antt =====
-- Whom the handler in front of all routes lets pass (src/server.cpp).
use onyx_engine.Prelude.{
  ◌≡◌, ◌↔◌, ◌⊎◌, refl, inl, inr, ◌∙◌, ap, Bool, true, false, not, ◌&&◌, ◌||◌, ◌++◌, Option, none,
  some, [], ◌∷◌, if◌then◌else◌, arith, subst, sym,
}
use onyx_engine.Prelude.Bytes.{Bytes, bytes, eqb, eqb→eq, eqb_refl}
use onyx_engine.HttpUtil.Compare.{constant_time_equals, constant_time_equals_iff}
use onyx_engine.Engine.Queue.{is_empty}
use onyx_engine.Engine.Emit.{is_none}
use onyx_engine.Server.Gate.{Request, ServerState, foreign_host, refusal_of}

-- The request is for everyone: the health check, or OPTIONS.
abbrev pub IsOpen : Request → Type 0
IsOpen req = (req.path ≡ bytes "/health") ⊎ (req.method ≡ bytes "OPTIONS")

-- The request shows the key, where there is one.
abbrev pub IsAuthorized : ServerState → Request → Type 0
IsAuthorized s req = (s.api_key ≡ []) ⊎ (req.authorization ≡ bytes "Bearer " ++ s.api_key)

abbrev open_test : Request → Bool
open_test req = eqb req.path (bytes "/health") || eqb req.method (bytes "OPTIONS")

abbrev key_test : ServerState → Request → Bool
key_test s req =
    not (is_empty s.api_key)
    && not (constant_time_equals req.authorization (bytes "Bearer " ++ s.api_key))

not-false : (b : Bool) → not b ≡ false → b ≡ true
not-false true e = refl
not-false false e = absurd (cc e)

none_iff : {A : Type 0} (o : Option A) → (o ≡ none) ↔ (is_none o ≡ true)
none_iff none = (λ e. refl, λ e. refl)
none_iff (some a) = (λ e. absurd (cc e), λ e. absurd (cc e))

or_iff : (a b : Bool) → ((a || b) ≡ true) ↔ ((a ≡ true) ⊎ (b ≡ true))
or_iff true b = (λ e. inl refl, λ h. refl)
or_iff false b = (λ e. inr e, λ h. elim h [ inl e ↦ absurd (cc e) | inr e ↦ e ])

eqb_iff : (xs ys : Bytes) → (eqb xs ys ≡ true) ↔ (xs ≡ ys)
eqb_iff xs ys = (eqb→eq xs ys, λ q. subst (λ (t : Bytes). eqb xs t ≡ true) q (eqb_refl xs))

open_test-IsOpen : (req : Request) → (open_test req ≡ true) ↔ IsOpen req
open_test-IsOpen req =
    let (to, from) = or_iff (eqb req.path (bytes "/health")) (eqb req.method (bytes "OPTIONS")) in
    (
      λ e. elim (to e) [ inl p ↦ inl ((eqb_iff _ _).0 p) | inr m ↦ inr ((eqb_iff _ _).0 m) ],
      λ h. elim h [
        | inl p ↦ from (inl ((eqb_iff _ _).1 p))
        | inr m ↦ from (inr ((eqb_iff _ _).1 m))
      ],
    )

key_test-IsAuthorized :
    (s : ServerState) (req : Request) → (key_test s req ≡ false) ↔ IsAuthorized s req
key_test-IsAuthorized s req = at s.api_key
  where
    at :
        (key : Bytes)
        → ((not (is_empty key)
              && not (constant_time_equals req.authorization (bytes "Bearer " ++ key)))
            ≡ false)
          ↔ ((key ≡ []) ⊎ (req.authorization ≡ bytes "Bearer " ++ key))
    at [] = (λ e. inl refl, λ h. refl)
    at (k ∷ key) =
        let (to, from) = constant_time_equals_iff req.authorization (bytes "Bearer " ++ k ∷ key) in
        (
          λ e. inr (to (not-false _ e)),
          λ h. elim h [ inl q ↦ absurd (cc q) | inr q ↦ ap not (from q) ],
        )

-- The tests of the handler, one after the other.
gate :
    {A : Type 0} (o h p k r : Bool) (a b c d : A)
    → is_none (
        if o
        then some a
        else if h
        then some b
        else if p
        then none
        else if k
        then some c
        else if not r
        then some d
        else none)
      ≡ (not o && (not h && (p || (not k && r))))
gate true h p k r a b c d = refl
gate false true p k r a b c d = refl
gate false false true k r a b c d = refl
gate false false false true r a b c d = refl
gate false false false false true a b c d = refl
gate false false false false false a b c d = refl

gate_iff :
    (o h p k r : Bool)
    → ((not o && (not h && (p || (not k && r)))) ≡ true)
      ↔ ((o ≡ false) × (h ≡ false) × ((p ≡ true) ⊎ ((k ≡ false) × (r ≡ true))))
gate_iff o h p k r = ground arith

-- A request goes on to its route exactly when it has no Origin header; on a loopback bind it has no
-- Host header or one that names a loopback address; and it is for /health or an OPTIONS request, or
-- else the model is loaded and either the server has no key or the Authorization header is "Bearer "
-- and the key, byte for byte.
pub refusal_of-none :
    (s : ServerState) (req : Request)
    → (refusal_of s req ≡ none) ↔ (
        (req.has_origin ≡ false)
        × ((s.loopback && foreign_host req.host) ≡ false)
        × (IsOpen req ⊎ (IsAuthorized s req × (s.ready ≡ true))))
unfolding refusal_of
refusal_of-none s req =
    let same : is_none (refusal_of s req) ≡ passes = gate o h p k s.ready _ _ _ _ in
    let (no_refusal, passed) = none_iff (refusal_of s req) in
    let (to, from) = gate_iff o h p k s.ready in
    let (opened, opens) = open_test-IsOpen req in
    let (keyed, keys) = key_test-IsAuthorized s req in
    (
      λ e.
          let (origin, host, rest) = to (sym same ∙ no_refusal e) in
          (
            origin,
            host,
            elim rest [ inl q ↦ inl (opened q) | inr (key, ready) ↦ inr (keyed key, ready) ],
          ),
      λ (origin, host, rest). passed (
          same
          ∙ from (
            origin,
            host,
            elim rest [ inl q ↦ inl (opens q) | inr (key, ready) ↦ inr (keys key, ready) ],
          )),
    )
  where
    o : Bool
    o = req.has_origin

    h : Bool
    h = s.loopback && foreign_host req.host

    p : Bool
    p = open_test req

    k : Bool
    k = key_test s req

    passes : Bool
    passes = not o && (not h && (p || (not k && s.ready)))
