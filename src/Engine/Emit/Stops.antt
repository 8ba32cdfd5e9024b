-- ===== src/Engine/Emit/Stops.antt =====
-- The search for stop words of `onyx_engine::on_sampled` (src/engine.cpp).
use mathlib.Core.List.{Memᴰ}
use mathlib.Core.Option.{some-injective}
use mathlib.Core.List.Memᴰ
use onyx_engine.Prelude.{
  ℕ, ◌+◌, ◌-◌, ◌≤◌, ◌<◌, ◌≡◌, refl, sym, ap, ◌∙◌, subst, inl, inr, true, false, Option, none, some,
  List, [], ◌∷◌, ◌++◌, arith, tests, length, take, drop, length-drop, drop-append, All, leb, ltb,
  if◌then◌else◌, Bool-cases, Option-cases,
}
use onyx_engine.Prelude.Bytes.{Bytes, find_from}
use onyx_engine.Prelude.Search.{
  occurs, Absent, starts-append_left, starts-append_over, find_from-first, find_from-none,
  occurs_beyond,
}
use onyx_engine.Engine.Holdback.{stop_holdback}
use onyx_engine.Engine.Holdback.Laws.{Begins, IsStop, stop_holdback_max}
use onyx_engine.Engine.Emit.{first_stop}

-- No stop word stands in the text.
abbrev pub Clean : List Bytes → Bytes → Type 0
Clean stops text = (stop : Bytes) → Memᴰ stop stops → Absent stop text

module _ (text piece stop : Bytes) (absent : Absent stop text) where
  -- An occurrence that ends within the old text is an occurrence in the old text.
  occurs_old : (j : ℕ) → j + length stop ≤ length text → occurs stop (text ++ piece) j ≡ false
  occurs_old j h =
      rw (drop-append j text piece (omega arith))
        (starts-append_left stop (drop j text) piece (omega (arith, length-drop j text)) ∙ absent j)

  occurs_new : (j : ℕ) → occurs stop (text ++ piece) j ≡ true → length text < j + length stop
  occurs_new j h = elim (Bool-cases (leb (j + length stop) (length text))) [
    | inl e ↦ absurd (cc (h, occurs_old j (omega (tests, e))))
    | inr e ↦ omega (tests, e)
  ]

  -- An occurrence that begins in the old text was foreseen by the end of that text.
  occurs-Begins :
      (j : ℕ)
      → j ≤ length text
      → occurs stop (text ++ piece) j ≡ true
      → Begins text stop (length text - j)
  occurs-Begins j l h = (omega arith, omega (arith, occurs_new j h), rw (same, tail_length) over)
    where
      same : length text - (length text - j) ≡ j
      same = omega arith

      tail_length : length text - j ≡ length (drop j text)
      tail_length = sym (length-drop j text)

      over : drop j text ≡ take (length (drop j text)) stop
      over =
          starts-append_over stop (drop j text) piece
            (omega (arith, length-drop j text, occurs_new j h))
            (rw (← drop-append j text piece l) h)

-- A search from the offset of the code: `n_sent - stop.size()`, or 0.
abbrev pub search_from : ℕ → Bytes → ℕ
search_from n_sent stop = if ltb (length stop) n_sent then n_sent - length stop else 0

search_from_early :
    (n_sent : ℕ) (stop : Bytes) (j : ℕ) → j < search_from n_sent stop → j + length stop < n_sent
search_from_early n_sent stop j h = ground arith

module _ (text piece : Bytes) (n_sent : ℕ) where
  -- The restricted search finds what the full search finds.
  find_from-full :
      (stop : Bytes)
      → Absent stop text
      → 0 < length stop
      → n_sent ≤ length text
      → find_from stop (text ++ piece) (search_from n_sent stop) ≡ find_from stop (text ++ piece) 0
  find_from-full stop absent pos l =
      elim (Option-cases (find_from stop (text ++ piece) (search_from n_sent stop))) [
        | inl none_late ↦
            none_late
            ∙ sym (elim (Option-cases (find_from stop (text ++ piece) 0)) [
              | inl e ↦ e
              | inr (r, e) ↦
                  let (_, r_le, r_at, _) = find_from-first stop (text ++ piece) 0 r e in
                  absurd (cc (r_at, miss r none_late r_le))
            ])
        | inr (r, e) ↦
            e
            ∙ sym (elim (Option-cases (find_from stop (text ++ piece) 0)) [
              | inl none_early ↦
                  let (_, r_le, r_at, _) = find_from-first stop (text ++ piece) _ r e in
                  absurd (
                    cc
                      (r_at, find_from-none stop (text ++ piece) 0 none_early r (omega arith) r_le))
              | inr (q, f) ↦ f ∙ ap some (same q r e f)
            ])
      ]
    where
      miss :
          (r : ℕ)
          → find_from stop (text ++ piece) (search_from n_sent stop) ≡ none
          → r ≤ length (text ++ piece)
          → occurs stop (text ++ piece) r ≡ false
      miss r late r_le = elim (Bool-cases (leb (search_from n_sent stop) r)) [
        | inl e ↦ find_from-none stop (text ++ piece) _ late r (omega (tests, e)) r_le
        | inr e ↦
            occurs_old text piece stop absent r
              (omega (tests, search_from_early n_sent stop r (omega (tests, e))))
      ]

      same :
          (q r : ℕ)
          → find_from stop (text ++ piece) (search_from n_sent stop) ≡ some r
          → find_from stop (text ++ piece) 0 ≡ some q
          → q ≡ r
      same q r e f =
          let (lo, _, r_at, r_first) = find_from-first stop (text ++ piece) _ r e in
          let (_, _, q_at, q_first) = find_from-first stop (text ++ piece) 0 q f in
          elim (Bool-cases (ltb q r)) [
            | inl a ↦ elim (Bool-cases (leb (search_from n_sent stop) q)) [
              | inl b ↦ absurd (cc (q_at, r_first q (omega (tests, b)) (omega (tests, a))))
              | inr b ↦ absurd (
                  cc (
                    q_at,
                    occurs_old text piece stop absent q
                        (omega (tests, search_from_early n_sent stop q (omega (tests, b)))),
                  ))
            ]
            | inr a ↦ elim (Bool-cases (ltb r q)) [
              | inl b ↦ absurd (cc (r_at, q_first r (omega arith) (omega (tests, b))))
              | inr b ↦ omega (tests, a, b)
            ]
          ]

module _ (text : Bytes) (n_sent : ℕ) (stop : Bytes) (stops : List Bytes) where
  first_stop-hit :
      (pos : ℕ)
      → find_from stop text (search_from n_sent stop) ≡ some pos
      → first_stop text n_sent (stop ∷ stops) ≡ some (stop, pos)
  unfolding first_stop
  first_stop-hit pos e = rw (e, first_stop)

  first_stop-skip :
      find_from stop text (search_from n_sent stop) ≡ none
      → first_stop text n_sent (stop ∷ stops) ≡ first_stop text n_sent stops
  unfolding first_stop
  first_stop-skip e = rw (e, first_stop)

module _ (text piece : Bytes) (n_sent : ℕ) where
  first_stop-cons_eq :
      (stop : Bytes) (stops : List Bytes)
      → find_from stop (text ++ piece) (search_from n_sent stop) ≡ find_from stop (text ++ piece) 0
      → first_stop (text ++ piece) n_sent stops ≡ first_stop (text ++ piece) 0 stops
      → first_stop (text ++ piece) n_sent (stop ∷ stops)
        ≡ first_stop (text ++ piece) 0 (stop ∷ stops)
  first_stop-cons_eq stop stops e ih = elim (Option-cases (find_from stop (text ++ piece) 0)) [
    | inl f ↦
        first_stop-skip (text ++ piece) n_sent stop stops (e ∙ f)
        ∙ ih
        ∙ sym (first_stop-skip (text ++ piece) 0 stop stops (rw z f))
    | inr (r, f) ↦
        first_stop-hit (text ++ piece) n_sent stop stops r (e ∙ f)
        ∙ sym (first_stop-hit (text ++ piece) 0 stop stops r (rw z f))
  ]
    where
      z : search_from 0 stop ≡ 0
      z = ground arith

  -- If no stop word stands in the old text, and all are nonempty, then the search of the longer
  -- text, which starts only a stop word's length before the text sent, gives the same stop word
  -- and the same place as a search from the beginning, however much of the old text was sent.
  pub first_stop-full :
      (stops : List Bytes)
      → All IsStop stops
      → Clean stops text
      → n_sent ≤ length text
      → first_stop (text ++ piece) n_sent stops ≡ first_stop (text ++ piece) 0 stops
  unfolding first_stop
  first_stop-full [] ok clean l = refl
  first_stop-full (stop ∷ stops) ok clean l =
      first_stop-cons_eq stop stops
        (find_from-full text piece n_sent stop (clean stop (Memᴰ.head refl)) ok.0.0 l)
        (first_stop-full stops ok.1 (λ s m. clean s (Memᴰ.tail m)) l)

-- What the search of one stop word answers lies behind the text already sent.
find_from-unsent :
    (text piece : Bytes) (all : List Bytes) (n_sent : ℕ) (stop : Bytes) (pos : ℕ)
    → Memᴰ stop all
    → All IsStop all
    → Clean all text
    → n_sent ≤ length text - stop_holdback text all
    → occurs stop (text ++ piece) pos ≡ true
    → n_sent ≤ pos
find_from-unsent text piece all n_sent stop pos m ok clean l h =
    elim (Bool-cases (leb pos (length text))) [
      | inl e ↦
          let held : length text - pos ≤ stop_holdback text all =
            stop_holdback_max text all stop (length text - pos) ok m
              (occurs-Begins text piece stop (clean stop m) pos (omega (tests, e)) h) in
          omega (tests, e, held)
      | inr e ↦ omega (tests, e)
    ]

-- The search names a stop word of the list, and a place where it stands.
abbrev pub IsStopAt : Bytes → List Bytes → ℕ → Bytes × ℕ → Type 0
IsStopAt text stops n_sent (stop, pos) =
    Memᴰ stop stops × (n_sent ≤ pos) × (pos ≤ length text) × (occurs stop text pos ≡ true)

module _ (text piece : Bytes) (all : List Bytes) (n_sent : ℕ) (ok : All IsStop all)
    (clean : Clean all text) (unsent : n_sent ≤ length text - stop_holdback text all) where
  first_stop-IsStopAt_from :
      (stops : List Bytes) (hit : Bytes × ℕ)
      → ((s : Bytes) → Memᴰ s stops → Memᴰ s all)
      → first_stop (text ++ piece) n_sent stops ≡ some hit
      → IsStopAt (text ++ piece) all n_sent hit
  unfolding first_stop
  first_stop-IsStopAt_from [] hit sub h = absurd (cc)
  first_stop-IsStopAt_from (s ∷ stops) hit sub h =
      elim (Option-cases (find_from s (text ++ piece) (search_from n_sent s))) [
        | inl e ↦
            first_stop-IsStopAt_from stops hit (λ t m. sub t (Memᴰ.tail m))
              (sym (first_stop-skip (text ++ piece) n_sent s stops e) ∙ h)
        | inr (r, e) ↦
            let same : ◌≡◌ {A = Option (Bytes × ℕ)} (some (s, r)) (some hit) =
              sym (first_stop-hit (text ++ piece) n_sent s stops r e) ∙ h in
            let (_, r_le, r_at, _) = find_from-first s (text ++ piece) _ r e in
            let m : Memᴰ s all = sub s (Memᴰ.head refl) in
            subst (IsStopAt (text ++ piece) all n_sent) (some-injective _ _ same)
              (m, find_from-unsent text piece all n_sent s r m ok clean unsent r_at, r_le, r_at)
      ]

  -- If no stop word stands in the old text, all are nonempty, and what begins one was held back,
  -- then a stop that is found in the longer text is a stop word of the list that stands at the
  -- place named, and that place is behind all the text sent: no byte of a stop word reaches the
  -- client.
  pub first_stop-IsStopAt :
      (hit : Bytes × ℕ)
      → first_stop (text ++ piece) n_sent all ≡ some hit
      → IsStopAt (text ++ piece) all n_sent hit
  first_stop-IsStopAt hit h = first_stop-IsStopAt_from all hit (λ s m. m) h

-- Where it does not, the longer text has no stop word either.
pub first_stop-none :
    (text piece : Bytes) (stops : List Bytes) (n_sent : ℕ)
    → All IsStop stops
    → Clean stops text
    → n_sent ≤ length text
    → first_stop (text ++ piece) n_sent stops ≡ none
    → Clean stops (text ++ piece)
first_stop-none text piece [] n_sent ok clean l h s m = absurd (Memᴰ.not-nil m)
first_stop-none text piece (t ∷ stops) n_sent ok clean l h s m =
    elim (Option-cases (find_from t (text ++ piece) (search_from n_sent t))) [
      | inr (r, e) ↦ absurd (cc (first_stop-hit (text ++ piece) n_sent t stops r e))
      | inl e ↦
          let rest : Clean stops (text ++ piece) =
            first_stop-none text piece stops n_sent ok.1 (λ u k. clean u (Memᴰ.tail k)) l
              (sym (first_stop-skip (text ++ piece) n_sent t stops e) ∙ h) in
          at m e rest
    ]
  where
    gone : find_from t (text ++ piece) (search_from n_sent t) ≡ none → Absent t (text ++ piece)
    gone e j = elim (Bool-cases (leb j (length (text ++ piece)))) [
      | inl a ↦
          find_from-none t (text ++ piece) 0
            (sym (find_from-full text piece n_sent t (clean t (Memᴰ.head refl)) ok.0.0 l) ∙ e) j
            (omega arith) (omega (tests, a))
      | inr a ↦ occurs_beyond t (text ++ piece) j ok.0.0 (omega (tests, a))
    ]

    at :
        Memᴰ s (t ∷ stops)
        → find_from t (text ++ piece) (search_from n_sent t) ≡ none
        → Clean stops (text ++ piece)
        → Absent s (text ++ piece)
    at (Memᴰ.head q) e rest = subst (λ u. Absent u (text ++ piece)) (sym q) (gone e)
    at (Memᴰ.tail k) e rest = rest s k
