-- ===== src/Convert/Shell/Tail.antt =====
-- The lines that `run_converter` (src/convert.cpp) keeps of the converter's output.
use onyx_engine.Prelude.{
  ℕ, ◌+◌, ◌-◌, ◌≡◌, sym, ap, ◌∙◌, inl, inr, true, false, List, [], ◌∷◌, ◌++◌, append_assoc,
  append-nil, length, drop, arith, tests, ltb, ◌==◌, if◌then◌else◌, Bool-cases, length-append,
  length-drop, drop-append, drop-drop, drop_all,
}
use onyx_engine.Prelude.Bytes.{Bytes}
use onyx_engine.Convert.Shell.{push_line, read_lines}

-- All the lines of a text, the last one only if it is not empty.
unfoldable pub split_lines : Bytes → Bytes → List Bytes
split_lines [] [] = []
split_lines (l ∷ line) [] = (l ∷ line) ∷ []
split_lines line (c ∷ output) =
    let ended = line ∷ split_lines [] output in
    let longer = split_lines (line ++ (c ∷ [])) output in if c == 10 then ended else longer

-- The last `keep` items of a list.
abbrev pub last {ℓ} : {A : Type ℓ} → ℕ → List A → List A
last keep xs = drop (length xs - keep) xs

push_line-last :
    (keep : ℕ) (xs : List Bytes) (x : Bytes)
    → push_line keep (last keep xs) x ≡ last keep (xs ++ (x ∷ []))
unfolding push_line
push_line-last keep xs x = elim (Bool-cases (ltb keep (length (drop d xs ++ (x ∷ []))))) [
  | inl e ↦
      rw (e, push_line)
        (ap (λ (l : List Bytes). drop 1 l) (sym (drop-append d xs (x ∷ []) (omega arith)))
          ∙ (drop-drop 1 d (xs ++ (x ∷ [])) ∙ ap (λ (n : ℕ). drop n (xs ++ (x ∷ []))) (one_more e)))
  | inr e ↦
      rw (e, push_line)
        (sym (drop-append d xs (x ∷ []) (omega arith))
          ∙ ap (λ (n : ℕ). drop n (xs ++ (x ∷ []))) (no_more e))
]
  where
    d : ℕ
    d = length xs - keep

    measured : length (drop d xs ++ (x ∷ [])) ≡ (length xs - d) + 1
    measured = omega (arith, length-append (drop d xs) (x ∷ []), length-drop d xs)

    one_more :
        ltb keep (length (drop d xs ++ (x ∷ []))) ≡ true → d + 1 ≡ length (xs ++ (x ∷ [])) - keep
    one_more e = omega (tests, e, measured, length-append xs (x ∷ []))

    no_more : ltb keep (length (drop d xs ++ (x ∷ []))) ≡ false → d ≡ length (xs ++ (x ∷ [])) - keep
    no_more e = omega (tests, e, measured, length-append xs (x ∷ []))

read_lines-last_from :
    (keep : ℕ) (done : List Bytes) (line output : Bytes)
    → read_lines keep (last keep done) line output ≡ last keep (done ++ split_lines line output)
unfolding read_lines split_lines
read_lines-last_from keep done [] [] = ap (λ (l : List Bytes). last keep l) (sym (append-nil done))
read_lines-last_from keep done (l ∷ line) [] = push_line-last keep done (l ∷ line)
read_lines-last_from keep done line (c ∷ output) = elim (Bool-cases (c == 10)) [
  | inl e ↦
      rw (e, read_lines)
        (ap (λ (t : List Bytes). read_lines keep t [] output) (push_line-last keep done line)
          ∙ (read_lines-last_from keep (done ++ (line ∷ [])) [] output
              ∙ ap (λ (l : List Bytes). last keep l)
                  (append_assoc done (line ∷ []) (split_lines [] output))))
  | inr e ↦ rw (e, read_lines) (read_lines-last_from keep done (line ++ (c ∷ [])) output)
]

-- Of the converter's output, whatever it is, the last `keep` lines are kept, in their order, or all of
-- them if there are fewer.
pub read_lines-last :
    (keep : ℕ) (output : Bytes) → read_lines keep [] [] output ≡ last keep (split_lines [] output)
read_lines-last keep output =
    ap (λ (t : List Bytes). read_lines keep t [] output)
      (sym (drop_all (0 - keep) [] (omega arith)))
    ∙ read_lines-last_from keep [] [] output
