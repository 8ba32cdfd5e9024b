-- ===== src/Prelude/Bytes.antt =====
-- Byte strings: `std::string` and `std::vector<unsigned char>` as lists of numbers, with the
-- comparisons and searches of `std::string` that the program calls.
use Prim.Native.Char.{code}
use Prim.Native.Nat.{ℕ, suc, ◌+◌}
use Prim.Native.String.{String}
use mathlib.Core.Path.{◌≡◌, refl}
use mathlib.Core.Bool.{Bool, true, false, ◌&&◌}
use mathlib.Core.List.{List, [], ◌∷◌}
use mathlib.Core.Option.{Option, none, some}
use native.Mathlib.Omega.{arith}
use onyx_engine.Prelude.Tests.{leb, ◌==◌, if◌then◌else◌}
use onyx_engine.Prelude.Lists.{length, drop}

abbrev pub Bytes : Type 0
Bytes = List ℕ

-- The bytes of an ASCII literal.
abbrev pub bytes : String → Bytes
bytes String.[] = []
bytes (String.◌∷◌ c s) = code c ∷ bytes s

-- `a == b` on strings and on token vectors.
unfoldable pub eqb : Bytes → Bytes → Bool
eqb [] [] = true
eqb [] (y ∷ ys) = false
eqb (x ∷ xs) [] = false
eqb (x ∷ xs) (y ∷ ys) = x == y && eqb xs ys

pub eqb→eq : (xs ys : Bytes) → eqb xs ys ≡ true → xs ≡ ys
unfolding eqb
eqb→eq [] [] h = refl
eqb→eq [] (y ∷ ys) h = ground arith
eqb→eq (x ∷ xs) [] h = ground arith
eqb→eq (x ∷ xs) (y ∷ ys) h = ground (arith, eqb→eq xs ys)

pub eqb_refl : (xs : Bytes) → eqb xs xs ≡ true
unfolding eqb
eqb_refl [] = refl
eqb_refl (x ∷ xs) = ground (arith, eqb_refl xs)

-- `s.compare(0, p.size(), p) == 0`, `s.rfind(p, 0) == 0`: `p` is a prefix of `s`.
unfoldable pub starts : Bytes → Bytes → Bool
starts [] s = true
starts (p ∷ ps) [] = false
starts (p ∷ ps) (c ∷ s) = p == c && starts ps s

unfoldable pub search : Bytes → Bytes → ℕ → Option ℕ
search p [] i = if starts p [] then some i else none
search p (c ∷ s) i = if starts p (c ∷ s) then some i else search p s (i + 1)

-- `s.find(p, from)`; `none` is `npos`.
unfoldable pub find_from : Bytes → Bytes → ℕ → Option ℕ
unfolding search
find_from p s from = if leb from (length s) then search p (drop from s) from else none

-- `s.find(c)` for one byte.
unfoldable pub find_byte : ℕ → Bytes → Option ℕ
find_byte b [] = none
find_byte b (c ∷ s) =
    if c == b then some 0 else (elim (find_byte b s) [ none ↦ none | some i ↦ some (suc i) ])
