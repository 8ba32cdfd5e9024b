-- ===== src/HttpUtil/Base64.antt =====
-- src/http_util.cpp: `base64_decode`, `base64_encode` and `embedding_base64`. Bits that do not
-- overlap are joined by `+`, `>> k` is a division and a mask of low bits a remainder.
pub mod RoundTrip
use onyx_engine.Prelude.{
  ℕ, zero, suc, ◌+◌, ◌*◌, ◌/◌, ◌%◌, ◌^◌, Option, none, some, List, [], ◌∷◌, ◌++◌, get_or,
}
use onyx_engine.Prelude.Bytes.{Bytes, bytes, find_byte}

abbrev pub chars : Bytes
chars = bytes "ABCDEFGHIJKLMNOPQRSTUVWXYZabcdefghijklmnopqrstuvwxyz0123456789+/"

-- `chars[i]`
abbrev pub symbol : ℕ → ℕ
symbol i = get_or chars i 0

-- `(unsigned char)`
abbrev pub byte : ℕ → ℕ
byte n = n % 256

-- The three bytes of four six-bit values.
abbrev pub first_byte : ℕ → ℕ → ℕ
first_byte a b = byte (a * 4 + b / 16)

abbrev pub second_byte : ℕ → ℕ → ℕ
second_byte b c = byte ((b % 16) * 16 + c / 4)

abbrev pub third_byte : ℕ → ℕ → ℕ
third_byte c d = byte ((c % 4) * 64 + d)

-- The code behind the loop: `quad` holds the values read since the last full group.
decode_rest : List ℕ → Bytes
decode_rest (a ∷ b ∷ []) = first_byte a b ∷ []
decode_rest (a ∷ b ∷ c ∷ []) = first_byte a b ∷ second_byte b c ∷ []
decode_rest _ = []

-- One more value: the bytes it completes, and `quad` afterwards.
push_value : List ℕ → ℕ → Bytes × List ℕ
push_value (a ∷ b ∷ c ∷ _) d = (first_byte a b ∷ second_byte b c ∷ third_byte c d ∷ [], [])
push_value quad d = ([], quad ++ (d ∷ []))

decode_from : List ℕ → Bytes → Bytes
unfolding decode_rest push_value
decode_from quad [] = decode_rest quad
decode_from quad (c ∷ encoded) = elim (find_byte c chars) [
  | none ↦ decode_rest quad
  | some idx ↦ (let (out, quad') = push_value quad idx in out ++ decode_from quad' encoded)
]

unfoldable pub base64_decode : Bytes → Bytes
unfolding decode_from
base64_decode encoded = decode_from [] encoded

-- `b` in `base64_encode`, a `uint32_t`
abbrev pub group : ℕ → ℕ → ℕ → ℕ
group x y z = x * 2 ^ 16 + y * 2 ^ 8 + z

-- `chars[(b >> k) & 63]`, where `d` is `2 ^ k`
abbrev pub symbol_of : ℕ → ℕ → ℕ
symbol_of b d = symbol ((b / d) % 64)

-- 61 is the padding, '='.
unfoldable pub base64_encode : Bytes → Bytes
base64_encode [] = []
base64_encode (x ∷ []) =
    let b = group x 0 0 in symbol_of b (2 ^ 18) ∷ symbol_of b (2 ^ 12) ∷ 61 ∷ 61 ∷ []
base64_encode (x ∷ y ∷ []) =
    let b = group x y 0 in
    symbol_of b (2 ^ 18) ∷ symbol_of b (2 ^ 12) ∷ symbol_of b (2 ^ 6) ∷ 61 ∷ []
base64_encode (x ∷ y ∷ z ∷ data_) =
    let b = group x y z in
    symbol_of b (2 ^ 18)
    ∷ symbol_of b (2 ^ 12)
    ∷ symbol_of b (2 ^ 6)
    ∷ symbol_of b 1
    ∷ base64_encode data_

-- The bytes of a `float`, given as its bit pattern, the lowest first.
abbrev float_bytes : ℕ → Bytes
float_bytes u = byte u ∷ byte (u / 2 ^ 8) ∷ byte (u / 2 ^ 16) ∷ byte (u / 2 ^ 24) ∷ []

little_endian : List ℕ → Bytes
little_endian [] = []
little_endian (u ∷ v) = float_bytes u ++ little_endian v

unfoldable pub embedding_base64 : List ℕ → Bytes
unfolding little_endian
embedding_base64 v = base64_encode (little_endian v)
