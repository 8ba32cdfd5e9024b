-- ===== src/Engine/Holdback/Laws.antt =====
-- The suffix that `stop_holdback` keeps back (src/engine.cpp).
use onyx_engine.Prelude.{
  ℕ, zero, suc, ◌+◌, ◌-◌, ◌^◌, ◌≤◌, ◌<◌, ◌==◌, ==_iff, min, ◌≡◌, refl, sym, ◌∙◌, ◌⊎◌, inl, inr,
  true, List, [], ◌∷◌, length, take, drop, leb, arith, tests, Bool-cases, length-drop, All, ap,
  subst, drop-append, ◌++◌, length-append,
}
use mathlib.Core.List.{Memᴰ}
use mathlib.Core.List.Memᴰ
use onyx_engine.Prelude.Search.{starts-restrict}
use onyx_engine.Prelude.Bytes.{Bytes, eqb, eqb→eq, eqb_refl}
use onyx_engine.Engine.Holdback.{scan, max_k, holdback_from, stop_holdback}

-- The last `k` bytes of the text are the first `k` of the stop word, and not all of it.
abbrev pub Begins : Bytes → Bytes → ℕ → Type 0
Begins text stop k =
    (k ≤ length text) × (k < length stop) × (drop (length text - k) text ≡ take k stop)

module _ (text stop : Bytes) where
  scan-ge : (k hold : ℕ) → hold ≤ scan text stop k hold
  unfolding scan
  scan-ge zero hold = omega arith
  scan-ge (suc k) hold = ground (arith, scan-ge k hold)

  scan-Begins :
      (k hold : ℕ)
      → k ≤ length text
      → k < length stop
      → (scan text stop k hold ≡ hold) ⊎ Begins text stop (scan text stop k hold)
  unfolding scan
  scan-Begins zero hold p q = inl refl
  scan-Begins (suc k) hold p q = elim (Bool-cases (leb (suc k) hold)) [
    | inl e ↦ inl (rw e)
    | inr e ↦ elim (Bool-cases (eqb (drop (length text - suc k) text) (take (suc k) stop))) [
      | inl f ↦ rw (e, f) (inr (p, q, eqb→eq _ _ f))
      | inr f ↦ rw (e, f) (scan-Begins k hold (omega arith) (omega arith))
    ]
  ]

  eqb_at :
      (j k : ℕ)
      → (j == k) ≡ true
      → drop (length text - j) text ≡ take j stop
      → eqb (drop (length text - k) text) (take k stop) ≡ true
  eqb_at j k q e = let j≡k : j ≡ k = (==_iff j k).0 q in rw (← j≡k) (rw e (eqb_refl (take j stop)))

  -- No longer suffix that the loop visits is missed.
  scan_max :
      (k hold j : ℕ) → j ≤ k → drop (length text - j) text ≡ take j stop → j ≤ scan text stop k hold
  unfolding scan
  scan_max zero hold j p e = omega arith
  scan_max (suc k) hold j p e = elim (Bool-cases (leb (suc k) hold)) [
    | inl g ↦ rw g (omega (tests, g))
    | inr g ↦ elim (Bool-cases (eqb (drop (length text - suc k) text) (take (suc k) stop))) [
      | inl f ↦ rw (g, f) p
      | inr f ↦
          rw (g, f)
            (elim (Bool-cases (j == suc k)) [
              | inl q ↦ absurd (cc (f, eqb_at j (suc k) q e))
              | inr q ↦ scan_max k hold j (ground arith) e
            ])
    ]
  ]

-- The bound of the loop admits every proper prefix of a stop word that a `size_t` can measure.
max_k_lem :
    (text stop : Bytes)
    → 0 < length stop
    → length stop < 2 ^ 64
    → max_k text stop ≡ min (length text) (length stop - 1)
unfolding max_k
max_k_lem text stop p q = omega arith

-- Every stop word is non-empty and a `size_t` measures it.
abbrev pub IsStop : Bytes → Type 0
IsStop stop = (0 < length stop) × (length stop < 2 ^ 64)

module _ (text : Bytes) where
  holdback_from-ge : (stops : List Bytes) (hold : ℕ) → hold ≤ holdback_from text stops hold
  unfolding holdback_from
  holdback_from-ge [] hold = omega arith
  holdback_from-ge (stop ∷ stops) hold = omega (
    arith,
    scan-ge text stop (max_k text stop) hold,
    holdback_from-ge stops (scan text stop (max_k text stop) hold),
  )

  holdback_from_max :
      (stops : List Bytes) (hold : ℕ) (stop : Bytes) (k : ℕ)
      → All IsStop stops
      → Memᴰ stop stops
      → Begins text stop k
      → k ≤ holdback_from text stops hold
  unfolding holdback_from
  holdback_from_max [] hold stop k ok m b = absurd (Memᴰ.not-nil m)
  holdback_from_max (s ∷ stops) hold stop k (ok, oks) (Memᴰ.head e) b =
      let b' : Begins text s k = subst (λ t. Begins text t k) e b in
      let bound : k ≤ max_k text s = omega (arith, max_k_lem text s ok.0 ok.1, b'.0, b'.1) in
      let found : k ≤ scan text s (max_k text s) hold =
        scan_max text s (max_k text s) hold k bound b'.2 in
      omega (arith, found, holdback_from-ge stops (scan text s (max_k text s) hold))
  holdback_from_max (s ∷ stops) hold stop k (ok, oks) (Memᴰ.tail m) b =
      holdback_from_max stops (scan text s (max_k text s) hold) stop k oks m b

  holdback_from-Begins :
      (stops : List Bytes) (hold : ℕ)
      → All IsStop stops
      → (holdback_from text stops hold ≡ hold)
        ⊎ ((stop : Bytes) × Memᴰ stop stops × Begins text stop (holdback_from text stops hold))
  unfolding holdback_from
  holdback_from-Begins [] hold ok = inl refl
  holdback_from-Begins (s ∷ stops) hold (ok, oks) =
      elim (holdback_from-Begins stops (scan text s (max_k text s) hold) oks) [
        | inr (t, m, b) ↦ inr (t, Memᴰ.tail m, b)
        | inl e ↦
            elim (scan-Begins text s (max_k text s) hold (omega (arith, max_k_lem text s ok.0 ok.1))
              (omega (arith, max_k_lem text s ok.0 ok.1))) [
                | inl f ↦ inl (e ∙ f)
                | inr b ↦ inr (s, Memᴰ.head refl, rw e b)
              ]
      ]

  -- What is held back is nothing, or begins a stop word.
  pub stop_holdback-Begins :
      (stops : List Bytes)
      → All IsStop stops
      → (stop_holdback text stops ≡ 0)
        ⊎ ((stop : Bytes) × Memᴰ stop stops × Begins text stop (stop_holdback text stops))
  unfolding stop_holdback
  stop_holdback-Begins stops ok = holdback_from-Begins stops 0 ok

  -- A suffix of the text that begins a stop word of the list, and is shorter than it, is held back
  -- whole, for stop words that are not empty.
  pub stop_holdback_max :
      (stops : List Bytes) (stop : Bytes) (k : ℕ)
      → All IsStop stops
      → Memᴰ stop stops
      → Begins text stop k
      → k ≤ stop_holdback text stops
  unfolding stop_holdback
  stop_holdback_max stops stop k ok m b = holdback_from_max stops 0 stop k ok m b

  pub stop_holdback-le :
      (stops : List Bytes) → All IsStop stops → stop_holdback text stops ≤ length text
  stop_holdback-le stops ok = elim (stop_holdback-Begins stops ok) [
    | inl e ↦ omega (arith, e)
    | inr (s, m, b) ↦ b.0
  ]

Begins-restrict :
    (text piece stop : Bytes) (h : ℕ)
    → length piece < h
    → Begins (text ++ piece) stop h
    → Begins text stop (h - length piece)
Begins-restrict text piece stop h l (a, b, c) =
    (omega (arith, total), omega arith, at_k ∙ sym (rw (ap (λ k. take k stop) k_lem) restricted))
  where
    total : length (text ++ piece) ≡ length text + length piece
    total = length-append text piece

    j : ℕ
    j = length text - (h - length piece)

    k_lem : h - length piece ≡ length (drop j text)
    k_lem = omega (arith, total, length-drop j text)

    same_j : length (text ++ piece) - h ≡ j
    same_j = omega (arith, total)

    at_k : drop (length text - (h - length piece)) text ≡ drop j text
    at_k = refl

    split : take h stop ≡ drop j text ++ piece
    split = sym (sym (drop-append j text piece (omega (arith, total))) ∙ rw (← same_j) c)

    restricted : take (length (drop j text)) stop ≡ drop j text
    restricted = starts-restrict stop (drop j text) piece h (omega arith) split

-- When the text grows by any piece, the part of it that is not held back never shrinks, for stop
-- words that are not empty.
pub stop_holdback_mono :
    (text piece : Bytes) (stops : List Bytes)
    → All IsStop stops
    → length text - stop_holdback text stops
      ≤ length (text ++ piece) - stop_holdback (text ++ piece) stops
stop_holdback_mono text piece stops ok = elim (stop_holdback-Begins (text ++ piece) stops ok) [
  | inl e ↦ omega (arith, e, length-append text piece)
  | inr (s, m, b) ↦ elim (Bool-cases (leb (stop_holdback (text ++ piece) stops) (length piece))) [
    | inl e ↦ omega (tests, e, length-append text piece)
    | inr e ↦
        let before : stop_holdback (text ++ piece) stops - length piece ≤ stop_holdback text stops =
          stop_holdback_max text stops s _ ok m
            (Begins-restrict text piece s _ (omega (tests, e)) b) in
        omega (tests, e, before, length-append text piece, b.0)
  ]
]
