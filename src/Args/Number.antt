-- ===== src/Args/Number.antt =====
-- src/args.cpp: `parse_int64` and `parse_int` over `strtoll` and `strtol` in base 10.
use onyx_engine.Prelude.{
  ℕ, ◌+◌, ◌-◌, ◌*◌, ◌^◌, Bool, true, false, ◌&&◌, ◌||◌, Option, none, some, [], ◌∷◌, ltb, leb, ◌==◌,
  if◌then◌else◌,
}
use onyx_engine.Prelude.Bytes.{Bytes}
use onyx_engine.HttpUtil.Host.{is_digit}
use onyx_engine.Args.Types.{ℤ, pos, negsuc}

-- std::isspace: the blank and the controls from tab to carriage return.
abbrev is_space : ℕ → Bool
is_space c = c == 32 || leb 9 c && leb c 13

skip_spaces : Bytes → Bytes
skip_spaces [] = []
skip_spaces (c ∷ s) = let rest = skip_spaces s in if is_space c then rest else c ∷ s

-- An optional sign: whether it is a minus, and the rest. 43 is '+' and 45 is '-'.
split_sign : Bytes → Bool × Bytes
split_sign [] = (false, [])
split_sign (c ∷ s) = if c == 45 then (true, s) else if c == 43 then (false, s) else (false, c ∷ s)

-- The value of digits up to the end of the string; `none` if another byte comes.
digits_to_end : ℕ → Bytes → Option ℕ
unfolding is_digit
digits_to_end v [] = some v
digits_to_end v (c ∷ s) =
    let rest = digits_to_end (v * 10 + (c - 48)) s in if is_digit c then rest else none

-- At least one digit.
magnitude : Bytes → Option ℕ
unfolding digits_to_end
magnitude [] = none
magnitude (c ∷ s) = digits_to_end 0 (c ∷ s)

-- A signed value of `w + 1` bits.
in_range : ℕ → Bool → ℕ → Option ℤ
in_range w false v = if ltb v (2 ^ w) then some (pos v) else none
in_range w true v =
    if v == 0 then some (pos 0) else if leb v (2 ^ w) then some (negsuc (v - 1)) else none

parse_signed : ℕ → Bytes → Option ℤ
unfolding skip_spaces split_sign magnitude in_range
parse_signed w s =
    let (negative, rest) = split_sign (skip_spaces s) in
    elim (magnitude rest) [ none ↦ none | some v ↦ in_range w negative v ]

unfoldable pub parse_int64 : Bytes → Option ℤ
unfolding parse_signed
parse_int64 s = parse_signed 63 s

unfoldable pub parse_int : Bytes → Option ℤ
unfolding parse_signed
parse_int s = parse_signed 31 s
