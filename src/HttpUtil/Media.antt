-- ===== src/HttpUtil/Media.antt =====
-- src/http_util.cpp: `reject_media_url` and `decode_media_payload`. An exception is a value.
pub mod DataUri
use onyx_engine.Prelude.{
  ℕ, ◌+◌, ◌-◌, Bool, true, false, not, ◌||◌, Option, none, some, List, [], ◌∷◌, length, take, drop,
  ltb, if◌then◌else◌,
}
use onyx_engine.Prelude.Bytes.{Bytes, bytes, eqb, starts, find_byte}
use onyx_engine.HttpUtil.Base64.{base64_decode}

pub data MediaError : Type 0 where
  url_not_supported : Bytes → MediaError
  no_comma not_base64 not_decodable : MediaError

first_scheme : Bytes → List Bytes → Option MediaError
first_scheme url [] = none
first_scheme url (scheme ∷ schemes) =
    if starts scheme url then some (url_not_supported scheme) else first_scheme url schemes

abbrev pub schemes : List Bytes
schemes = bytes "http://" ∷ bytes "https://" ∷ bytes "file://" ∷ []

-- The exception that it throws, if any.
unfoldable pub reject_media_url : Bytes → Option MediaError
unfolding first_scheme
reject_media_url url = first_scheme url schemes

pub data Payload : Type 0 where
  refused : MediaError → Payload
  payload : Bytes → Payload

-- The header of a data: URI ends in "base64".
is_base64_header : Bytes → Bool
is_base64_header header =
    if ltb (length header) 6 then false else eqb (drop (length header - 6) header) (bytes "base64")

-- The payload of a data: URI with a comma at this place.
uri_payload : Bytes → Option ℕ → Payload
unfolding is_base64_header
uri_payload url none = refused no_comma
uri_payload url (some comma) =
    if is_base64_header (take comma url) then payload (drop (comma + 1) url) else refused not_base64

-- The payload of a URL: of a data: URI what follows the comma, else all of it.
media_payload : Bytes → Payload
unfolding uri_payload
media_payload url =
    if starts (bytes "data:") url then uri_payload url (find_byte 44 url) else payload url

decode_payload : Payload → Payload
decode_payload (refused e) = refused e
decode_payload (payload p) = elim (base64_decode p) [
  | [] ↦ refused not_decodable
  | c ∷ data_ ↦ payload (c ∷ data_)
]

unfoldable pub decode_media_payload : Bytes → Payload
unfolding media_payload decode_payload
decode_media_payload url = decode_payload (media_payload url)
