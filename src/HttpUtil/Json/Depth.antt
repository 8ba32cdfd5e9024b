-- ===== src/HttpUtil/Json/Depth.antt =====
-- `json_nesting_depth` against a grammar of bracketed text.
use onyx_engine.Prelude.{
  ℕ, ◌+◌, max, ◌≤◌, ◌≡◌, ◌≢◌, refl, sym, ap, ◌∙◌, true, false, [], ◌∷◌, ◌++◌, append_assoc,
  append-nil, arith,
}
use onyx_engine.Prelude.Bytes.{Bytes}
use onyx_engine.HttpUtil.Json.{
  Scan, in_string_byte, opener, structure_byte, scan_byte, scan_text, json_nesting_depth,
}

-- The inside of a string up to and with its closing quote: 34 is the quote, 92 the backslash.
pub data StringRest : Bytes → Type 0 where
  closes : StringRest (34 ∷ [])
  escape : {s : Bytes} (c : ℕ) → StringRest s → StringRest (92 ∷ c ∷ s)
  letter : {s : Bytes} (c : ℕ) → c ≢ 34 → c ≢ 92 → StringRest s → StringRest (c ∷ s)

pub data IsOpen : ℕ → Type 0 where
  open_array : IsOpen 91
  open_object : IsOpen 123

pub data IsClose : ℕ → Type 0 where
  close_array : IsClose 93
  close_object : IsClose 125

-- Bracketed text and how deep its brackets nest; those inside strings do not count.
pub data Nested : ℕ → Bytes → Type 0 where
  nothing : Nested 0 []
  plain :
      {d : ℕ} {s : Bytes} (c : ℕ)
      → c ≢ 34
      → c ≢ 91
      → c ≢ 123
      → c ≢ 93
      → c ≢ 125
      → Nested d s
      → Nested d (c ∷ s)
  quoted : {d : ℕ} {s t : Bytes} → StringRest s → Nested d t → Nested d (34 ∷ (s ++ t))
  group :
      {d e : ℕ} {s t : Bytes} {o c : ℕ}
      → IsOpen o
      → Nested d s
      → IsClose c
      → Nested e t
      → Nested (max (d + 1) e) (o ∷ (s ++ (c ∷ t)))

abbrev at : ℕ → ℕ → Scan
at depth deepest = record { depth = depth; deepest = deepest; in_string = false; escaped = false }

scan-StringRest :
    {s : Bytes} (k m : ℕ) (rest : Bytes)
    → StringRest s
    → scan_text (record { depth = k; deepest = m; in_string = true; escaped = false }) (s ++ rest)
      ≡ scan_text (at k m) rest
unfolding scan_text scan_byte in_string_byte
scan-StringRest k m rest closes = refl
scan-StringRest k m rest (escape c h) = scan-StringRest k m rest h
scan-StringRest k m rest (letter c p q h) = ground (arith, scan-StringRest k m rest h)

scan-IsOpen :
    {o : ℕ} (k m : ℕ) → IsOpen o → k ≤ m → scan_byte (at k m) o ≡ at (k + 1) (max m (k + 1))
unfolding scan_byte structure_byte opener
scan-IsOpen k m open_array h = ground arith
scan-IsOpen k m open_object h = ground arith

scan-IsClose : {c : ℕ} (k m : ℕ) → IsClose c → scan_byte (at (k + 1) m) c ≡ at k m
unfolding scan_byte structure_byte
scan-IsClose k m close_array = ground arith
scan-IsClose k m close_object = ground arith

-- Depth `d` below the current one.
abbrev reached : ℕ → ℕ → ℕ → ℕ
reached k m d = max m (k + d)

scan-plain :
    (k m c : ℕ) → c ≢ 34 → c ≢ 91 → c ≢ 123 → c ≢ 93 → c ≢ 125 → scan_byte (at k m) c ≡ at k m
unfolding scan_byte structure_byte
scan-plain k m c q a b x y = ground arith

scan-Nested :
    {d : ℕ} {s : Bytes} (k m : ℕ) (rest : Bytes)
    → k ≤ m
    → Nested d s
    → scan_text (at k m) (s ++ rest) ≡ scan_text (at k (reached k m d)) rest
unfolding scan_text scan_byte structure_byte
scan-Nested k m rest p nothing = ap (λ (n : ℕ). scan_text (at k n) rest) (omega arith)
scan-Nested k m rest p (plain {s = s} c q a b x y h) =
    ap (λ (t : Scan). scan_text t (s ++ rest)) (scan-plain k m c q a b x y)
    ∙ scan-Nested k m rest p h
scan-Nested k m rest p (quoted {s = s} {t = t} q h) =
    ap (λ (u : Bytes). scan_text (scan_byte (at k m) 34) u) (append_assoc s t rest)
    ∙ (after_quote (t ++ rest) ∙ scan-Nested k m rest p h)
  where
    after_quote : (u : Bytes) → scan_text (scan_byte (at k m) 34) (s ++ u) ≡ scan_text (at k m) u
    after_quote u = scan-StringRest k m u q
scan-Nested k m rest p (group {d = d} {e = e} {s = s} {t = t} {o = o} {c = c} i g j h) =
    ap (λ (z : Scan). scan_text z ((s ++ (c ∷ t)) ++ rest)) (scan-IsOpen k m i p)
    ∙ (ap (λ (u : Bytes). scan_text (at (k + 1) (max m (k + 1))) u) (append_assoc s (c ∷ t) rest)
        ∙ (scan-Nested (k + 1) (max m (k + 1)) (c ∷ (t ++ rest)) (omega arith) g
            ∙ (ap (λ (z : Scan). scan_text z (t ++ rest)) (scan-IsClose k _ j)
                ∙ (scan-Nested k _ rest (omega arith) h
                    ∙ ap (λ (n : ℕ). scan_text (at k n) rest) (omega arith)))))

-- On bracketed text whose brackets nest `d` deep, strings left aside, the depth counted is `d`.
pub json_nesting_depth-Nested : {d : ℕ} {text : Bytes} → Nested d text → json_nesting_depth text ≡ d
unfolding json_nesting_depth scan_text
json_nesting_depth-Nested {d = d} {text = text} h =
    ap (λ (u : Bytes). json_nesting_depth u) (sym (append-nil text))
    ∙ (ap (λ (z : Scan). z.deepest) (scan-Nested 0 0 [] (omega arith) h) ∙ from_zero)
  where
    from_zero : max 0 (0 + d) ≡ d
    from_zero = omega arith
