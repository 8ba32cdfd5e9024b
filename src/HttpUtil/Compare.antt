-- ===== src/HttpUtil/Compare.antt =====
-- src/http_util.cpp: `constant_time_equals`.
use Prim.Native.Nat.{bit_or, bit_xor, bit_or-bitwise, bit_xor-bitwise, digits, differ}
use onyx_engine.Prelude.{
  ℕ, zero, suc, ◌/◌, ◌%◌, ◌≤◌, max, ◌≡◌, refl, sym, ap, ap₂, subst, ◌∙◌, ◌↔◌, Bool, true, [], ◌∷◌,
  length, arith, ◌==◌, ==_iff, if◌then◌else◌,
}
use onyx_engine.Prelude.Bytes.{Bytes}

-- The loop: `diff` gathers the bits in which the two strings differ, zeros behind the shorter one.
gather : Bytes → Bytes → ℕ → ℕ
gather [] [] diff = diff
gather [] (y ∷ ys) diff = gather [] ys (bit_or diff (bit_xor 0 y))
gather (x ∷ xs) [] diff = gather xs [] (bit_or diff (bit_xor x 0))
gather (x ∷ xs) (y ∷ ys) diff = gather xs ys (bit_or diff (bit_xor x y))

unfoldable pub constant_time_equals : Bytes → Bytes → Bool
unfolding gather
constant_time_equals a b = gather a b (if length a == length b then 0 else 1) == 0

differ_zero : (x y : ℕ) → differ x y ≡ 0 → x ≡ y
differ_zero zero y h = sym h
differ_zero (suc x) zero h = absurd (omega arith)
differ_zero (suc x) (suc y) h = omega (arith, differ_zero x y h)

differ_same : (x : ℕ) → differ x x ≡ 0
differ_same zero = refl
differ_same (suc x) = differ_same x

xor_digits-zero : (n a b : ℕ) → a ≤ n → digits (λ b. b) differ n a b ≡ 0 → a ≡ b
xor_digits-zero zero zero b p h = sym h
xor_digits-zero zero (suc a) b p h = absurd (omega arith)
xor_digits-zero (suc n) zero b p h = sym h
xor_digits-zero (suc n) (suc a) b p h = omega (
  arith,
  xor_digits-zero n (suc a / 2) (b / 2) (omega arith) (omega arith),
  differ_zero (suc a % 2) (b % 2) (omega arith),
)

xor_digits-same : (n a : ℕ) → a ≤ n → digits (λ b. b) differ n a a ≡ 0
xor_digits-same zero zero p = refl
xor_digits-same zero (suc a) p = absurd (omega arith)
xor_digits-same (suc n) zero p = refl
xor_digits-same (suc n) (suc a) p =
    omega (arith, xor_digits-same n (suc a / 2) (omega arith), differ_same (suc a % 2))

or_digits-zero : (n a b : ℕ) → a ≤ n → digits (λ b. b) max n a b ≡ 0 → (a ≡ 0) × (b ≡ 0)
or_digits-zero zero zero b p h = (refl, h)
or_digits-zero zero (suc a) b p h = absurd (omega arith)
or_digits-zero (suc n) zero b p h = (refl, h)
or_digits-zero (suc n) (suc a) b p h =
    let (l, r) = or_digits-zero n (suc a / 2) (b / 2) (omega arith) (omega arith) in
    absurd (omega arith)

bit_xor-zero : (a b : ℕ) → bit_xor a b ≡ 0 → a ≡ b
bit_xor-zero a b h = xor_digits-zero a a b (omega arith) (sym (bit_xor-bitwise a b) ∙ h)

bit_xor_same : (a : ℕ) → bit_xor a a ≡ 0
bit_xor_same a = bit_xor-bitwise a a ∙ xor_digits-same a a (omega arith)

bit_or-zero : (a b : ℕ) → bit_or a b ≡ 0 → (a ≡ 0) × (b ≡ 0)
bit_or-zero a b h = or_digits-zero a a b (omega arith) (sym (bit_or-bitwise a b) ∙ h)

gather-zero :
    (xs ys : Bytes) (d : ℕ) → length xs ≡ length ys → gather xs ys d ≡ 0 → (d ≡ 0) × (xs ≡ ys)
unfolding gather
gather-zero [] [] d l h = (h, refl)
gather-zero [] (y ∷ ys) d l h = absurd (omega arith)
gather-zero (x ∷ xs) [] d l h = absurd (omega arith)
gather-zero (x ∷ xs) (y ∷ ys) d l h =
    let (o, e) = gather-zero xs ys _ (omega arith) h in
    let (z, q) = bit_or-zero d (bit_xor x y) o in
    (z, ap₂ (λ (c : ℕ) (s : Bytes). c ∷ s) (bit_xor-zero x y q) e)

gather-start : (xs ys : Bytes) (d : ℕ) → gather xs ys d ≡ 0 → d ≡ 0
unfolding gather
gather-start [] [] d h = h
gather-start [] (y ∷ ys) d h = (bit_or-zero d (bit_xor 0 y) (gather-start [] ys _ h)).0
gather-start (x ∷ xs) [] d h = (bit_or-zero d (bit_xor x 0) (gather-start xs [] _ h)).0
gather-start (x ∷ xs) (y ∷ ys) d h = (bit_or-zero d (bit_xor x y) (gather-start xs ys _ h)).0

gather-same : (xs : Bytes) → gather xs xs 0 ≡ 0
unfolding gather
gather-same [] = refl
gather-same (x ∷ xs) =
    ap (λ (d : ℕ). gather xs xs d) (ap (λ (e : ℕ). bit_or 0 e) (bit_xor_same x)) ∙ gather-same xs

abbrev start_value : Bytes → Bytes → ℕ
start_value a b = if length a == length b then 0 else 1

start_value-zero : (a b : Bytes) → start_value a b ≡ 0 → length a ≡ length b
start_value-zero a b h = ground arith

start_value_same : (a : Bytes) → start_value a a ≡ 0
start_value_same a = ground arith

-- The comparison of keys, which reads every byte of the longer string, is equality: it accepts
-- exactly when the two strings are the same.
pub constant_time_equals_iff : (a b : Bytes) → (constant_time_equals a b ≡ true) ↔ (a ≡ b)
unfolding constant_time_equals
constant_time_equals_iff a b = (sound, complete)
  where
    sound : constant_time_equals a b ≡ true → a ≡ b
    sound h =
        let zero_ = (==_iff (gather a b (start_value a b)) 0).0 h in
        (gather-zero a b _ (start_value-zero a b (gather-start a b _ zero_)) zero_).1

    complete : a ≡ b → constant_time_equals a b ≡ true
    complete e =
        subst (λ (c : Bytes). constant_time_equals a c ≡ true) e
          ((==_iff (gather a a (start_value a a)) 0).1
            (ap (λ (d : ℕ). gather a a d) (start_value_same a) ∙ gather-same a))
