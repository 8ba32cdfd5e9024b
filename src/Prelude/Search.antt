-- ===== src/Prelude/Search.antt =====
-- What the searches of `Bytes` find: soundness and completeness of `find_from`, and how an
-- occurrence in `s ++ t` lies over the boundary.
use onyx_engine.Prelude.{
  ℕ, zero, suc, ◌+◌, ◌-◌, ◌≤◌, ◌<◌, ◌≡◌, refl, sym, ap, inl, inr, Bool, true, false, ◌&&◌, none,
  some, [], ◌∷◌, ◌++◌, arith, tests, length, take, drop, length-drop, leb, ◌==◌, Bool-cases,
  drop-drop, ◌∙◌,
}
use onyx_engine.Prelude.Bytes.{Bytes, starts, search, find_from}

-- `p` stands in `s` at offset `k`.
abbrev pub occurs : Bytes → Bytes → ℕ → Bool
occurs p s k = starts p (drop k s)

-- `p` stands nowhere in `s`.
abbrev pub Absent : Bytes → Bytes → Type 0
Absent p s = (k : ℕ) → occurs p s k ≡ false

pub starts-length : (p s : Bytes) → starts p s ≡ true → length p ≤ length s
unfolding starts
starts-length [] s h = omega arith
starts-length (x ∷ p) [] h = ground arith
starts-length (x ∷ p) (c ∷ s) h = ground (arith, starts-length p s)

pub starts-take : (p s : Bytes) → starts p s ≡ true → take (length p) s ≡ p
unfolding starts
starts-take [] s h = refl
starts-take (x ∷ p) [] h = ground arith
starts-take (x ∷ p) (c ∷ s) h = ground (arith, starts-take p s)

-- A prefix that fits in `u` is a prefix of `u`.
pub starts-append_left : (p u t : Bytes) → length p ≤ length u → starts p (u ++ t) ≡ starts p u
unfolding starts
starts-append_left [] u t h = refl
starts-append_left (x ∷ p) [] t h = elim h [ ]
starts-append_left (x ∷ p) (c ∷ u) t h =
    ap (λ b. x == c && b) (starts-append_left p u t (omega arith))

-- A prefix that reaches past `u` has `u` for its own beginning.
pub starts-append_over :
    (p u t : Bytes) → length u ≤ length p → starts p (u ++ t) ≡ true → u ≡ take (length u) p
unfolding starts
starts-append_over p [] t h e = refl
starts-append_over [] (c ∷ u) t h e = elim h [ ]
starts-append_over (x ∷ p) (c ∷ u) t h e = ground (arith, starts-append_over p u t (omega arith))

-- The other way: what begins like the prefix of `p` in `u`.
pub starts-restrict :
    (p u t : Bytes) (n : ℕ) → n ≤ length p → take n p ≡ u ++ t → take (length u) p ≡ u
starts-restrict p [] t n h e = refl
starts-restrict p (c ∷ u) t zero h e = ground arith
starts-restrict [] (c ∷ u) t (suc n) h e = elim h [ ]
starts-restrict (x ∷ p) (c ∷ u) t (suc n) h e =
    ground (arith, starts-restrict p u t n (omega arith))

module _ (p : Bytes) where
  -- A search that began at offset `i` answers `r`: the first occurrence, at `k` from there.
  abbrev FoundAt : Bytes → ℕ → ℕ → Type 0
  FoundAt s i r =
      (k : ℕ) × (r ≡ i + k)
      × (k ≤ length s)
      × (occurs p s k ≡ true)
      × ((j : ℕ) → j < k → occurs p s j ≡ false)

  FoundAt-cons :
      (c : ℕ) (s : Bytes) (i r : ℕ)
      → starts p (c ∷ s) ≡ false
      → FoundAt s (i + 1) r
      → FoundAt (c ∷ s) i r
  FoundAt-cons c s i r e (k, a, b, h, first) = (suc k, omega arith, omega arith, h, none_before)
    where
      none_before : (j : ℕ) → j < suc k → occurs p (c ∷ s) j ≡ false
      none_before zero l = e
      none_before (suc j) l = first j (omega arith)

  search-FoundAt : (s : Bytes) (i r : ℕ) → search p s i ≡ some r → FoundAt s i r
  unfolding search
  search-FoundAt [] i r h = elim (Bool-cases (starts p [])) [
    | inl e ↦ (0, ground arith, omega arith, e, λ j l. absurd (omega arith))
    | inr e ↦ absurd (ground arith)
  ]
  search-FoundAt (c ∷ s) i r h = elim (Bool-cases (starts p (c ∷ s))) [
    | inl e ↦ (0, ground arith, omega arith, e, λ j l. absurd (omega arith))
    | inr e ↦ FoundAt-cons c s i r e (search-FoundAt s (i + 1) r (ground arith))
  ]

  search-none :
      (s : Bytes) (i : ℕ) → search p s i ≡ none → (k : ℕ) → k ≤ length s → occurs p s k ≡ false
  unfolding search
  search-none [] i h zero l = ground arith
  search-none [] i h (suc k) l = elim l [ ]
  search-none (c ∷ s) i h zero l = ground arith
  search-none (c ∷ s) i h (suc k) l = search-none s (i + 1) (ground arith) k (omega arith)

  -- The answer of `find_from` is the first occurrence at or after the offset.
  pub find_from-first :
      (s : Bytes) (from r : ℕ)
      → find_from p s from ≡ some r
      → (from ≤ r)
        × (r ≤ length s)
        × (occurs p s r ≡ true)
        × ((j : ℕ) → from ≤ j → j < r → occurs p s j ≡ false)
  unfolding find_from
  find_from-first s from r h = elim (Bool-cases (leb from (length s))) [
    | inl e ↦ shift (search-FoundAt (drop from s) from r (ground arith)) (omega (tests, e))
    | inr e ↦ absurd (ground arith)
  ]
    where
      at : (a b j : ℕ) → a + b ≡ j → occurs p (drop a s) b ≡ occurs p s j
      at a b j e = rw (drop-drop b a s, e)

      shift :
          FoundAt (drop from s) from r
          → from ≤ length s
          → (from ≤ r)
            × (r ≤ length s)
            × (occurs p s r ≡ true)
            × ((j : ℕ) → from ≤ j → j < r → occurs p s j ≡ false)
      shift (k, a, b, h', first) l = (
        omega arith,
        omega (arith, length-drop from s),
        sym (at from k r (omega arith)) ∙ h',
        λ j lo hi. sym (at from (j - from) j (omega arith)) ∙ first (j - from) (omega arith),
      )

  -- No answer: nothing at or after the offset.
  pub find_from-none :
      (s : Bytes) (from : ℕ)
      → find_from p s from ≡ none
      → (j : ℕ) → from ≤ j
      → j ≤ length s
      → occurs p s j ≡ false
  unfolding find_from
  find_from-none s from h j lo hi = elim (Bool-cases (leb from (length s))) [
    | inl e ↦
        let e' : from + (j - from) ≡ j = omega arith in
        sym (rw (drop-drop (j - from) from s, e'))
        ∙ search-none (drop from s) from (ground arith) (j - from)
            (omega (arith, length-drop from s))
    | inr e ↦ absurd (omega (tests, e))
  ]

  -- Past the end there is room for the empty string only.
  pub occurs_beyond : (s : Bytes) (j : ℕ) → 0 < length p → length s ≤ j → occurs p s j ≡ false
  occurs_beyond s j h m = elim (Bool-cases (occurs p s j)) [
    | inl e ↦ absurd (omega (arith, starts-length p (drop j s) e, length-drop j s))
    | inr e ↦ e
  ]
