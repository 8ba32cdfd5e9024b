-- ===== src/HttpUtil/Media/DataUri.antt =====
-- The media payloads that `decode_media_payload` takes.
use onyx_engine.Prelude.{
  ℕ, suc, ◌+◌, ◌-◌, ◌<◌, ◌≡◌, ◌≢◌, refl, ap, ◌∙◌, Bool, true, false, Option, some, [], ◌∷◌, ◌++◌,
  All, length, take, drop, arith, ltb, if◌then◌else◌, All-append, length-append,
}
use onyx_engine.Prelude.Bytes.{Bytes, bytes, eqb_refl, starts, find_byte}
use onyx_engine.HttpUtil.Base64.{base64_encode}
use onyx_engine.HttpUtil.Base64.RoundTrip.{base64_decode-encode}
use onyx_engine.HttpUtil.Media.{
  Payload, payload, refused, not_base64, is_base64_header, uri_payload, media_payload,
  decode_payload, decode_media_payload,
}

-- A URI of bytes without a comma, a comma and more.
find_byte-append :
    (u v : Bytes) → All (λ c. c ≢ 44) u → find_byte 44 (u ++ (44 ∷ v)) ≡ some (length u)
unfolding find_byte
find_byte-append [] v h = refl
find_byte-append (c ∷ u) v (p, h) = ground (arith, find_byte-append u v h)

take-length : (u v : Bytes) → take (length u) (u ++ v) ≡ u
take-length [] v = refl
take-length (c ∷ u) v = ap (λ (t : Bytes). c ∷ t) (take-length u v)

drop-length : (u v : Bytes) (c : ℕ) → drop (length u + 1) (u ++ (c ∷ v)) ≡ v
drop-length [] v c = refl
drop-length (d ∷ u) v c =
    ap (λ (n : ℕ). drop n (d ∷ (u ++ (c ∷ v)))) (one_more (length u)) ∙ drop-length u v c
  where
    one_more : (n : ℕ) → suc n + 1 ≡ suc (n + 1)
    one_more n = omega arith

drop-length_exact : (u v : Bytes) → drop (length u) (u ++ v) ≡ v
drop-length_exact [] v = refl
drop-length_exact (c ∷ u) v = drop-length_exact u v

is_base64_header-append : (u : Bytes) → is_base64_header (u ++ bytes "base64") ≡ true
unfolding is_base64_header
is_base64_header-append u = rw (long, at_end, is_base64_header) (eqb_refl (bytes "base64"))
  where
    long : ltb (length (u ++ bytes "base64")) 6 ≡ false
    long = ground (arith, length-append u (bytes "base64"))

    at_end : drop (length (u ++ bytes "base64") - 6) (u ++ bytes "base64") ≡ bytes "base64"
    at_end =
        ap (λ (n : ℕ). drop n (u ++ bytes "base64"))
          (omega (arith, length-append u (bytes "base64")))
        ∙ drop-length_exact u (bytes "base64")

abbrev IsPlain : ℕ → Type 0
IsPlain c = c ≢ 44

-- The header of a data: URI with base64 content.
abbrev pub header : Bytes → Bytes
header mime = bytes "data:" ++ (mime ++ bytes "base64")

header-IsPlain : (mime : Bytes) → All IsPlain mime → All IsPlain (header mime)
header-IsPlain mime h = (
  ground arith,
  (
    ground arith,
    (
      ground arith,
      (
        ground arith,
        (
          ground arith,
          All-append IsPlain mime (bytes "base64") h (
            ground arith,
            (ground arith, (ground arith, (ground arith, (ground arith, (ground arith, tt))))),
          ),
        ),
      ),
    ),
  ),
)

media_payload-data_uri :
    (mime s : Bytes) → All IsPlain mime → media_payload (header mime ++ (44 ∷ s)) ≡ payload s
unfolding media_payload starts uri_payload
media_payload-data_uri mime s h =
    ap (λ (o : Option ℕ). uri_payload (header mime ++ (44 ∷ s)) o)
      (find_byte-append (header mime) s (header-IsPlain mime h))
    ∙ (ap
          (λ (b : Bool).
            if b
            then payload (drop (length (header mime) + 1) (header mime ++ (44 ∷ s)))
            else refused not_base64)
          is_header
        ∙ ap (λ (p : Bytes). payload p) (drop-length (header mime) s 44))
  where
    is_header : is_base64_header (take (length (header mime)) (header mime ++ (44 ∷ s))) ≡ true
    is_header =
        ap (λ (p : Bytes). is_base64_header p) (take-length (header mime) (44 ∷ s))
        ∙ is_base64_header-append (bytes "data:" ++ mime)

decode_payload-encode :
    (data_ : Bytes)
    → All (λ n. n < 256) data_
    → data_ ≢ []
    → decode_payload (payload (base64_encode data_)) ≡ payload data_
unfolding decode_payload
decode_payload-encode [] h n = absurd (n refl)
decode_payload-encode (c ∷ data_) h n = rw (base64_decode-encode (c ∷ data_) h, decode_payload) refl

-- Media sent inline arrives unchanged: the payload of a data: URI that carries the base64 text of
-- some bytes, at least one, is decoded to exactly these bytes, whatever its media type, as long as
-- that holds no comma.
pub decode_media_payload-data_uri :
    (mime data_ : Bytes)
    → All (λ c. c ≢ 44) mime
    → All (λ n. n < 256) data_
    → data_ ≢ []
    → decode_media_payload (header mime ++ (44 ∷ base64_encode data_)) ≡ payload data_
unfolding decode_media_payload
decode_media_payload-data_uri mime data_ h k n =
    ap (λ (p : Payload). decode_payload p) (media_payload-data_uri mime (base64_encode data_) h)
    ∙ decode_payload-encode data_ k n
