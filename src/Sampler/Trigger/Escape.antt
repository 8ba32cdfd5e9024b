-- ===== src/Sampler/Trigger/Escape.antt =====
-- The texts that the pattern of a literal trigger matches (src/sampler.cpp).
use onyx_engine.Prelude.{
  ℕ, ◌≡◌, ◌↔◌, refl, sym, ap, ◌∙◌, subst, inl, inr, Bool, true, false, ◌||◌, List, [], ◌∷◌, ◌==◌,
  ==_iff, ◌&&◌, &&_true, arith, Bool-cases,
}
use onyx_engine.Prelude.Lists.{contains}
use onyx_engine.Prelude.Bytes.{Bytes}
use onyx_engine.Sampler.Trigger.{
  TriggerKind, trigger_word, Trigger, special, escaped, pattern_of, onyx_trigger_pattern,
}

-- The syntax characters of a regular expression (ECMAScript): ^ $ \ . * + ? ( ) [ ] { } |
abbrev pub syntax_characters : List ℕ
syntax_characters = 94 ∷ 36 ∷ 92 ∷ 46 ∷ 42 ∷ 43 ∷ 63 ∷ 40 ∷ 41 ∷ 91 ∷ 93 ∷ 123 ∷ 125 ∷ 124 ∷ []

all_in : List ℕ → List ℕ → Bool
all_in ys [] = true
all_in ys (x ∷ xs) = contains ys x && all_in ys xs

contains-step :
    (ys : List ℕ) (x c : ℕ) (rest : Bool)
    → contains ys x ≡ true
    → (rest ≡ true → contains ys c ≡ true)
    → (c == x || rest) ≡ true
    → contains ys c ≡ true
contains-step ys x c rest h k e = elim (Bool-cases (c == x)) [
  | inl q ↦ subst (λ (d : ℕ). contains ys d ≡ true) (sym ((==_iff c x).0 q)) h
  | inr q ↦ k (ground arith)
]

-- A list whose items stand in another holds nothing else.
contains-more :
    (xs ys : List ℕ) (c : ℕ) → all_in ys xs ≡ true → contains xs c ≡ true → contains ys c ≡ true
unfolding contains all_in
contains-more [] ys c h e = absurd (cc e)
contains-more (x ∷ xs) ys c h' e =
    let (h, hs) = &&_true (contains ys x) (all_in ys xs) h' in
    contains-step ys x c (contains xs c) h (contains-more xs ys c hs) e

-- A regular expression of plain and escaped characters, and the one text that it matches: a syntax
-- character stands for itself behind a backslash only, every other one alone.
pub data Literal : Bytes → Bytes → Type 0 where
  ends : Literal [] []
  plain :
      {p s : Bytes} (c : ℕ)
      → contains syntax_characters c ≡ false
      → Literal p s
      → Literal (c ∷ p) (c ∷ s)
  quoted :
      {p s : Bytes} (c : ℕ)
      → contains syntax_characters c ≡ true
      → Literal p s
      → Literal (92 ∷ c ∷ p) (c ∷ s)

-- The code's list holds exactly the syntax characters.
special-syntax_characters : (c : ℕ) → contains special c ≡ contains syntax_characters c
unfolding contains all_in
special-syntax_characters c =
    same_truth (contains special c) (contains syntax_characters c)
      (contains-more special syntax_characters c refl)
      (contains-more syntax_characters special c refl)
  where
    same_truth : (a b : Bool) → (a ≡ true → b ≡ true) → (b ≡ true → a ≡ true) → a ≡ b
    same_truth true b f g = sym (f refl)
    same_truth false true f g = g refl
    same_truth false false f g = refl

escaped-Literal : (s : Bytes) → Literal (escaped s) s
unfolding escaped
escaped-Literal [] = ends
escaped-Literal (c ∷ s) = elim (Bool-cases (contains special c)) [
  | inl e ↦ rw (e, escaped) (quoted c (sym (special-syntax_characters c) ∙ e) (escaped-Literal s))
  | inr e ↦ rw (e, escaped) (plain c (sym (special-syntax_characters c) ∙ e) (escaped-Literal s))
]

-- The backslash is special, so a pattern is read in one way.
Literal-unique : {p s t : Bytes} → Literal p s → Literal p t → s ≡ t
unfolding contains
Literal-unique ends ends = refl
Literal-unique (plain c e h) (plain c' e' k) = ap (λ (u : Bytes). c ∷ u) (Literal-unique h k)
Literal-unique (plain c e h) (quoted c' e' k) = absurd (cc)
Literal-unique (quoted c e h) (plain c' e' k) = absurd (cc)
Literal-unique (quoted c e h) (quoted c' e' k) = ap (λ (u : Bytes). c ∷ u) (Literal-unique h k)

-- The pattern of a literal trigger, read as a regular expression of plain and escaped characters,
-- matches the literal and nothing else, whatever special characters that holds.
pub onyx_trigger_pattern-Literal :
    (trigger : Trigger) (text : Bytes)
    → trigger.kind ≡ trigger_word
    → Literal (onyx_trigger_pattern trigger) text ↔ (text ≡ trigger.value)
unfolding onyx_trigger_pattern pattern_of
onyx_trigger_pattern-Literal trigger text e = (
  λ h. Literal-unique h own,
  λ q. subst (λ (t : Bytes). Literal (onyx_trigger_pattern trigger) t) (sym q) own,
)
  where
    own : Literal (pattern_of trigger.kind trigger.value) trigger.value
    own =
        subst (λ (k : TriggerKind). Literal (pattern_of k trigger.value) trigger.value) (sym e)
          (escaped-Literal trigger.value)
