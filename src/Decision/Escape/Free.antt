-- ===== src/Decision/Escape/Free.antt =====
-- What `onyx_decision_escape_special_tokens` (src/decision.cpp) leaves of special tokens.
use onyx_engine.Prelude.{
  ℕ, zero, suc, ◌+◌, ◌≡◌, ◌≢◌, refl, sym, ap, subst, ◌∙◌, inl, inr, Bool, true, false, ◌&&◌, none,
  some, [], ◌∷◌, ◌++◌, length, drop, ◌==◌, Bool-cases, Option-cases, arith,
}
use onyx_engine.Prelude.Bytes.{Bytes, starts}
use onyx_engine.Decision.Escape.{
  is_name, name_run, closed_name, special_at, escaped_token, escape_from,
  onyx_decision_escape_special_tokens,
}

pub data IsName : Bytes → Type 0 where
  one_byte : {c : ℕ} → is_name c ≡ true → IsName (c ∷ [])
  more_bytes : {c : ℕ} {name : Bytes} → is_name c ≡ true → IsName name → IsName (c ∷ name)

unfoldable AllName : Bytes → Type 0
AllName [] = Unit
AllName (c ∷ s) = (is_name c ≡ true) × AllName s

-- No place of the text begins a special token.
unfoldable Free : Bytes → Type 0
Free [] = Unit
Free (c ∷ s) = (special_at (c ∷ s) ≡ none) × Free s

not_lt : (c : ℕ) → is_name c ≡ true → (60 == c) ≡ false
not_lt c e = ground arith

special_at-other : (c : ℕ) (s : Bytes) → (60 == c) ≡ false → special_at (c ∷ s) ≡ none
unfolding special_at starts
special_at-other c s e = rw (e, special_at) refl

special_at-lt : (c : ℕ) (s name : Bytes) → special_at (c ∷ s) ≡ some name → (60 == c) ≡ true
special_at-lt c s name e = elim (Bool-cases (60 == c)) [
  | inl q ↦ q
  | inr q ↦ absurd (cc (special_at-other c s q))
]

escape-none :
    (c : ℕ) (s : Bytes) → special_at (c ∷ s) ≡ none → escape_from 0 (c ∷ s) ≡ c ∷ escape_from 0 s
unfolding escape_from
escape-none c s e = rw (e, escape_from) refl

-- Where a token is replaced, the output has a '<' as the text has.
escape-some :
    (c : ℕ) (s name : Bytes)
    → special_at (c ∷ s) ≡ some name
    → escape_from 0 (c ∷ s) ≡ escaped_token name (escape_from (length name + 3) s)
unfolding escape_from
escape-some c s name e = rw (e, escape_from) refl

AllName-c : (c : ℕ) (s : Bytes) → is_name c ≡ false → name_run (c ∷ s) ≡ ([], c ∷ s)
unfolding name_run
AllName-c c s e = rw (e, name_run) refl

name_run-more :
    (c : ℕ) (s : Bytes) → is_name c ≡ true → name_run (c ∷ s) ≡ (c ∷ (name_run s).0, (name_run s).1)
unfolding name_run
name_run-more c s e = rw (e, name_run) refl

lt_not_name : (c : ℕ) → (60 == c) ≡ true → is_name c ≡ false
lt_not_name c e = ground arith

lt_eq : (c : ℕ) → (60 == c) ≡ true → c ≡ 60
lt_eq c e = ground arith

-- The names of the text are those of the output.
name_run-escape :
    (s : Bytes) → name_run (escape_from 0 s) ≡ ((name_run s).0, escape_from 0 (name_run s).1)
unfolding escape_from name_run
name_run-escape [] = refl
name_run-escape (c ∷ s) = elim (Option-cases (special_at (c ∷ s))) [
  | inl e ↦ elim (Bool-cases (is_name c)) [
    | inl q ↦
        rw (escape-none c s e, name_run-more c s q, name_run-more c (escape_from 0 s) q)
          (ap (λ (p : Bytes × Bytes). (c ∷ p.0, p.1)) (name_run-escape s))
    | inr q ↦
        rw (escape-none c s e, AllName-c c s q, AllName-c c (escape_from 0 s) q, escape-none c s e)
          refl
  ]
  | inr (name, e) ↦
      rw (AllName-c c s (lt_not_name c (special_at-lt c s name e)), escape-some c s name e) refl
]

-- A search for bytes other than '<' finds in the output what it finds in the text.
starts-escape :
    (b : ℕ) (p : Bytes)
    → (b == 60) ≡ false
    → ((s : Bytes) → starts p (escape_from 0 s) ≡ starts p s)
    → (s : Bytes) → starts (b ∷ p) (escape_from 0 s) ≡ starts (b ∷ p) s
unfolding escape_from starts
starts-escape b p n h [] = refl
starts-escape b p n h (c ∷ s) = elim (Option-cases (special_at (c ∷ s))) [
  | inl e ↦ rw (escape-none c s e) (ap (λ (t : Bool). b == c && t) (h s))
  | inr (name, e) ↦ rw (escape-some c s name e, lt_eq c (special_at-lt c s name e), n) refl
]

closes-escape : (s : Bytes) → starts (124 ∷ 62 ∷ []) (escape_from 0 s) ≡ starts (124 ∷ 62 ∷ []) s
unfolding starts
closes-escape = starts-escape 124 (62 ∷ []) refl (starts-escape 62 [] refl (λ s. refl))

closed_name-escape : (name s : Bytes) → closed_name (name, escape_from 0 s) ≡ closed_name (name, s)
unfolding closed_name
closed_name-escape [] s = refl
closed_name-escape (c ∷ name) s = rw (closes-escape s) refl

special_at-cong :
    (c : ℕ) (s t : Bytes)
    → starts (124 ∷ []) s ≡ starts (124 ∷ []) t
    → (starts (124 ∷ []) t ≡ true
        → closed_name (name_run (drop 1 s)) ≡ closed_name (name_run (drop 1 t)))
    → special_at (c ∷ s) ≡ special_at (c ∷ t)
unfolding special_at starts
special_at-cong c s t e h = elim (Bool-cases (starts (124 ∷ []) t)) [
  | inl q ↦ rw (special_at, e, q, h q) refl
  | inr q ↦ elim (Bool-cases (60 == c)) [
    | inl r ↦ rw (special_at, e, q, r) refl
    | inr r ↦ rw (special_at, r) refl
  ]
]

-- A byte begins a token before the output where it begins one before the text.
special_at-escape : (c : ℕ) (s : Bytes) → special_at (c ∷ escape_from 0 s) ≡ special_at (c ∷ s)
unfolding escape_from starts
special_at-escape c [] = refl
special_at-escape c (d ∷ s) =
    special_at-cong c (escape_from 0 (d ∷ s)) (d ∷ s)
      (starts-escape 124 [] refl (λ t. refl) (d ∷ s))
      (λ h. elim (Option-cases (special_at (d ∷ s))) [
        | inl e ↦
            rw (escape-none d s e, name_run-escape s)
              (closed_name-escape (name_run s).0 (name_run s).1)
        | inr (name, e) ↦ absurd (ground (arith, lt_eq d (special_at-lt d s name e)))
      ])

AllName-name_run : (s : Bytes) → AllName (name_run s).0
unfolding name_run AllName
AllName-name_run [] = tt
AllName-name_run (c ∷ s) = elim (Bool-cases (is_name c)) [
  | inl q ↦ rw (name_run-more c s q) (q, AllName-name_run s)
  | inr q ↦ rw (AllName-c c s q) tt
]

closed_name-name : (p : Bytes × Bytes) (name : Bytes) → closed_name p ≡ some name → name ≡ p.0
unfolding closed_name
closed_name-name ([], r) name e = absurd (cc)
closed_name-name (c ∷ n, r) name e = elim (Bool-cases (starts (124 ∷ 62 ∷ []) r)) [
  | inl q ↦ cc
  | inr q ↦ absurd (cc)
]

special_at-name : (c : ℕ) (s name : Bytes) → special_at (c ∷ s) ≡ some name → AllName name
unfolding special_at starts
special_at-name c s name e = elim (Bool-cases (starts (124 ∷ []) s)) [
  | inl q ↦
      subst AllName
        (sym (
          closed_name-name (name_run (drop 1 s)) name
            (simp (q, special_at-lt c s name e, special_at) at e)))
        (AllName-name_run (drop 1 s))
  | inr q ↦ absurd (cc (simp (q, special_at-lt c s name e, special_at) at e))
]

Free-name : (name s : Bytes) → AllName name → Free s → Free (name ++ s)
unfolding AllName Free
Free-name [] s n f = f
Free-name (c ∷ name) s (e, n) f = (special_at-other c _ (not_lt c e), Free-name name s n f)

Free-escaped_token : (name s : Bytes) → AllName name → Free s → Free (escaped_token name s)
unfolding Free special_at starts
Free-escaped_token name s n f =
    (refl, (refl, (refl, Free-name name (194 ∷ 166 ∷ 62 ∷ s) n (refl, (refl, (refl, f))))))

Free-escape : (n : ℕ) (s : Bytes) → Free (escape_from n s)
unfolding escape_from Free
Free-escape n [] = tt
Free-escape (suc n) (c ∷ s) = Free-escape n s
Free-escape zero (c ∷ s) = elim (Option-cases (special_at (c ∷ s))) [
  | inl e ↦ rw (escape-none c s e) (special_at-escape c s ∙ e, Free-escape zero s)
  | inr (name, e) ↦
      rw (escape-some c s name e)
        (Free-escaped_token name _ (special_at-name c s name e) (Free-escape (length name + 3) s))
]

name_run-IsName :
    (name rest : Bytes) → IsName name → name_run (name ++ (124 ∷ rest)) ≡ (name, 124 ∷ rest)
unfolding name_run
name_run-IsName [] rest h = elim h [ ]
name_run-IsName (c ∷ []) rest (one_byte e) = rw (e, name_run) refl
name_run-IsName (c ∷ name) rest (more_bytes e h) =
    name_run-more c (name ++ 124 ∷ rest) e
    ∙ ap (λ (p : Bytes × Bytes). (c ∷ p.0, p.1)) (name_run-IsName name rest h)

IsName-special_at :
    (name rest : Bytes)
    → IsName name
    → special_at (60 ∷ 124 ∷ (name ++ (124 ∷ 62 ∷ rest))) ≡ some name
unfolding special_at starts closed_name
IsName-special_at [] rest h = elim h [ ]
IsName-special_at (c ∷ name) rest h = rw (special_at, name_run-IsName (c ∷ name) (62 ∷ rest) h) refl

Free-token : (u name v : Bytes) → IsName name → ¬ Free (u ++ (60 ∷ 124 ∷ (name ++ (124 ∷ 62 ∷ v))))
unfolding Free
Free-token [] name v h (e, f) = absurd (cc (IsName-special_at name v h))
Free-token (c ∷ u) name v h (e, f) = Free-token u name v h f

-- Whatever the text, its escaped form holds no special token: no part of it is "<|", then a name of
-- one or more letters, digits and underscores, then "|>". Nor does a new one come about where a
-- replaced token meets the text around it.
pub onyx_decision_escape_special_tokens-ne-token :
    (text u name v : Bytes)
    → IsName name
    → onyx_decision_escape_special_tokens text ≢ u ++ (60 ∷ 124 ∷ (name ++ (124 ∷ 62 ∷ v)))
unfolding onyx_decision_escape_special_tokens
onyx_decision_escape_special_tokens-ne-token text u name v h q =
    Free-token u name v h (subst Free q (Free-escape 0 text))

-- A text without special tokens stays as it is.
Free-escape_id : (s : Bytes) → Free s → escape_from 0 s ≡ s
unfolding escape_from Free
Free-escape_id [] f = refl
Free-escape_id (c ∷ s) (e, f) = escape-none c s e ∙ ap (λ (t : Bytes). c ∷ t) (Free-escape_id s f)

-- Escaping twice is escaping once, for every text.
pub onyx_decision_escape_special_tokens_idem :
    (text : Bytes)
    → onyx_decision_escape_special_tokens (onyx_decision_escape_special_tokens text)
      ≡ onyx_decision_escape_special_tokens text
unfolding onyx_decision_escape_special_tokens
onyx_decision_escape_special_tokens_idem text = Free-escape_id _ (Free-escape 0 text)
