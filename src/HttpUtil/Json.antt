-- ===== src/HttpUtil/Json.antt =====
-- src/http_util.cpp: `json_nesting_depth`.
pub mod Depth
use onyx_engine.Prelude.{
  ℕ, ◌+◌, ◌-◌, max, ◌≡◌, refl, Bool, true, false, ◌||◌, List, [], ◌∷◌, ltb, ◌==◌, if◌then◌else◌,
}
use onyx_engine.Prelude.Bytes.{Bytes, bytes}

-- The local variables of the loop.
pub record Scan : Type 0 where
  pub depth : ℕ
  pub deepest : ℕ
  pub in_string : Bool
  pub escaped : Bool

in_string_byte : Scan → ℕ → Scan
in_string_byte s c =
    if s.escaped
    then record s { escaped = false }
    else if c == 92
    then record s { escaped = true }
    else if c == 34
    then record s { in_string = false }
    else s

opener : Scan → Scan
opener s =
    let depth = s.depth + 1 in
    record s { depth = depth; deepest = if ltb s.deepest depth then depth else s.deepest }

-- The `switch` outside a string; 91, 123, 93 and 125 are the brackets and the braces.
structure_byte : Scan → ℕ → Scan
unfolding opener
structure_byte s c =
    if c == 34
    then record s { in_string = true }
    else if c == 91 || c == 123
    then opener s
    else if c == 93 || c == 125
    then (if ltb 0 s.depth then record s { depth = s.depth - 1 } else s)
    else s

-- One round of the loop.
scan_byte : Scan → ℕ → Scan
unfolding in_string_byte structure_byte
scan_byte s c = if s.in_string then in_string_byte s c else structure_byte s c

scan_text : Scan → Bytes → Scan
unfolding scan_byte
scan_text s [] = s
scan_text s (c ∷ text) = scan_text (scan_byte s c) text

abbrev scan_start : Scan
scan_start = record { depth = 0; deepest = 0; in_string = false; escaped = false }

unfoldable pub json_nesting_depth : Bytes → ℕ
unfolding scan_text
json_nesting_depth text = (scan_text scan_start text).deepest
