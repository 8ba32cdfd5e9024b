-- ===== src/HttpUtil/Base64/RoundTrip.antt =====
-- `base64_decode` after `base64_encode` (src/http_util.cpp).
use onyx_engine.Prelude.{
  inl, inr, sym, subst, &&_true, Bool-cases, ==_iff, ℕ, zero, suc, ◌/◌, ◌%◌, ◌^◌, ◌<◌, ◌≡◌, refl,
  ap, ap₂, ◌∙◌, Bool, true, false, ◌&&◌, Option, none, some, List, [], ◌∷◌, ◌++◌, All, arith, ◌==◌,
}
use onyx_engine.Prelude.Bytes.{Bytes, find_byte}
use onyx_engine.HttpUtil.Base64.{
  chars, symbol, group, first_byte, second_byte, third_byte, decode_rest, push_value, decode_from,
  base64_decode, base64_encode,
}

-- Whether a search gives this place.
abbrev gives : Option ℕ → ℕ → Bool
gives none n = false
gives (some m) n = m == n

gives-some : (o : Option ℕ) (n : ℕ) → gives o n ≡ true → o ≡ some n
gives-some none n h = ground arith
gives-some (some m) n h = ground arith

abbrev is_found : ℕ → Bool
is_found n = gives (find_byte (symbol n) chars) n

-- Whether each of the first `k` symbols is found at its own place.
first_found : ℕ → Bool
first_found zero = true
first_found (suc k) = is_found k && first_found k

first_found-at : (k n : ℕ) → n < k → first_found k ≡ true → is_found n ≡ true
unfolding first_found
first_found-at zero n p h = absurd (omega arith)
first_found-at (suc k) n p h =
    let (here, below) = &&_true (is_found k) (first_found k) h in
    elim (Bool-cases (n == k)) [
      | inl e ↦ subst (λ (i : ℕ). is_found i ≡ true) (sym ((==_iff n k).0 e)) here
      | inr e ↦ first_found-at k n (ground arith) below
    ]

symbols_found : first_found 64 ≡ true
unfolding first_found find_byte
symbols_found = refl

find_byte-symbol : (n : ℕ) → n < 64 → find_byte (symbol n) chars ≡ some n
find_byte-symbol n h = gives-some _ n (first_found-at 64 n h symbols_found)

decode_from-symbol :
    (quad : List ℕ) (n : ℕ) (s : Bytes)
    → n < 64
    → decode_from quad (symbol n ∷ s) ≡ (push_value quad n).0 ++ decode_from (push_value quad n).1 s
unfolding decode_from
decode_from-symbol quad n s h = rw (find_byte-symbol n h, decode_from) refl

decode_four :
    (a b c d : ℕ) (s : Bytes)
    → a < 64
    → b < 64
    → c < 64
    → d < 64
    → decode_from [] (symbol a ∷ symbol b ∷ symbol c ∷ symbol d ∷ s)
      ≡ first_byte a b ∷ second_byte b c ∷ third_byte c d ∷ decode_from [] s
unfolding push_value
decode_four a b c d s p q r t =
    decode_from-symbol [] a _ p
    ∙ decode_from-symbol (a ∷ []) b _ q
    ∙ decode_from-symbol (a ∷ b ∷ []) c _ r
    ∙ decode_from-symbol (a ∷ b ∷ c ∷ []) d s t

-- Padding ends the text.
decode_from-pad : (quad : List ℕ) (s : Bytes) → decode_from quad (61 ∷ s) ≡ decode_rest quad
unfolding decode_from find_byte
decode_from-pad quad s = refl

decode_two :
    (a b : ℕ) (s : Bytes)
    → a < 64
    → b < 64
    → decode_from [] (symbol a ∷ symbol b ∷ 61 ∷ s) ≡ first_byte a b ∷ []
unfolding push_value decode_rest
decode_two a b s p q =
    decode_from-symbol [] a (symbol b ∷ 61 ∷ s) p
    ∙ decode_from-symbol (a ∷ []) b (61 ∷ s) q
    ∙ decode_from-pad (a ∷ b ∷ []) s

decode_three :
    (a b c : ℕ) (s : Bytes)
    → a < 64
    → b < 64
    → c < 64
    → decode_from [] (symbol a ∷ symbol b ∷ symbol c ∷ 61 ∷ s)
      ≡ first_byte a b ∷ second_byte b c ∷ []
unfolding push_value decode_rest
decode_three a b c s p q r =
    decode_from-symbol [] a (symbol b ∷ symbol c ∷ 61 ∷ s) p
    ∙ decode_from-symbol (a ∷ []) b (symbol c ∷ 61 ∷ s) q
    ∙ decode_from-symbol (a ∷ b ∷ []) c (61 ∷ s) r
    ∙ decode_from-pad (a ∷ b ∷ c ∷ []) s

sextet-lt : (n : ℕ) → n % 64 < 64
sextet-lt n = omega arith

-- The value of a group at `>> k & 63`.
abbrev sextet : ℕ → ℕ → ℕ
sextet b d = (b / d) % 64

first-group :
    (x y z : ℕ)
    → x < 256
    → y < 256
    → z < 256
    → first_byte (sextet (group x y z) (2 ^ 18)) (sextet (group x y z) (2 ^ 12)) ≡ x
first-group x y z p q r = omega arith

second-group :
    (x y z : ℕ)
    → x < 256
    → y < 256
    → z < 256
    → second_byte (sextet (group x y z) (2 ^ 12)) (sextet (group x y z) (2 ^ 6)) ≡ y
second-group x y z p q r = omega arith

third-group :
    (x y z : ℕ)
    → x < 256
    → y < 256
    → z < 256
    → third_byte (sextet (group x y z) (2 ^ 6)) (sextet (group x y z) 1) ≡ z
third-group x y z p q r = omega arith

-- Whatever bytes are encoded, decoding the text gives exactly these bytes back, with no byte lost
-- or added by the padding.
pub base64_decode-encode :
    (data_ : Bytes) → All (λ n. n < 256) data_ → base64_decode (base64_encode data_) ≡ data_
unfolding base64_encode base64_decode decode_from decode_rest
base64_decode-encode [] h = refl
base64_decode-encode (x ∷ []) (p, _) =
    decode_two (sextet b (2 ^ 18)) (sextet b (2 ^ 12)) (61 ∷ []) (sextet-lt _) (sextet-lt _)
    ∙ ap (λ (n : ℕ). n ∷ []) (first-group x 0 0 p (omega arith) (omega arith))
  where
    b : ℕ
    b = group x 0 0
base64_decode-encode (x ∷ y ∷ []) (p, (q, _)) =
    decode_three (sextet b (2 ^ 18)) (sextet b (2 ^ 12)) (sextet b (2 ^ 6)) [] (sextet-lt _)
      (sextet-lt _) (sextet-lt _)
    ∙ ap₂ (λ (m n : ℕ). m ∷ n ∷ []) (first-group x y 0 p q (omega arith))
        (second-group x y 0 p q (omega arith))
  where
    b : ℕ
    b = group x y 0
base64_decode-encode (x ∷ y ∷ z ∷ data_) (p, (q, (r, h))) =
    decode_four (sextet b (2 ^ 18)) (sextet b (2 ^ 12)) (sextet b (2 ^ 6)) (sextet b 1)
      (base64_encode data_) (sextet-lt _) (sextet-lt _) (sextet-lt _) (sextet-lt _)
    ∙ ap₂
        (λ (m n : ℕ).
          m ∷ n ∷ third_byte (sextet b (2 ^ 6)) (sextet b 1) ∷ decode_from [] (base64_encode data_))
        (first-group x y z p q r) (second-group x y z p q r)
    ∙ ap₂ (λ (k : ℕ) (s : Bytes). x ∷ y ∷ k ∷ s) (third-group x y z p q r)
        (base64_decode-encode data_ h)
  where
    b : ℕ
    b = group x y z
