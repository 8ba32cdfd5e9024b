-- ===== src/HttpUtil/Host.antt =====
-- src/http_util.cpp: `onyx_is_ipv4_loopback`, `valid_request_id`, `host_header_name` and
-- `host_header_is_loopback`, the checks on names that come with a request.
pub mod Address
use onyx_engine.Prelude.{
  ℕ, zero, suc, ◌+◌, ◌-◌, ◌*◌, Bool, true, false, not, ◌&&◌, ◌||◌, Option, none, some, List, [],
  ◌∷◌, map, length, take, drop, ltb, leb, ◌==◌, if◌then◌else◌,
}
use onyx_engine.Prelude.Bytes.{Bytes, bytes, eqb, find_byte}

-- std::isdigit
unfoldable pub is_digit : ℕ → Bool
is_digit c = leb 48 c && leb c 57

-- std::tolower in the C locale
abbrev lower : ℕ → ℕ
lower c = if leb 65 c && leb c 90 then c + 32 else c

-- The inner loop: at most `k` digits more; how many were read, their value, and the rest.
read_octet : ℕ → ℕ → Bytes → ℕ × (ℕ × Bytes)
unfolding is_digit
read_octet zero v s = (0, (v, s))
read_octet (suc k) v [] = (0, (v, []))
read_octet (suc k) v (c ∷ s) =
    let rest = read_octet k (v * 10 + (c - 48)) s in
    if is_digit c then (suc rest.0, rest.1) else (0, (v, c ∷ s))

-- What follows an octet: the end, or a dot and the next octet.
after_octet : ℕ → Bytes → Bool → Bool
after_octet octets [] next = octets == 4
after_octet octets (c ∷ rest) next = if not (c == 46) || octets == 4 then false else next

-- The outer loop, on fuel: `octets` were read. The fourth octet ends it.
octets_from : ℕ → ℕ → Bytes → Bool
unfolding read_octet after_octet
octets_from zero octets s = false
octets_from (suc fuel) octets s =
    let (n, (v, rest)) = read_octet 3 0 s in
    let next = octets_from fuel (octets + 1) (drop 1 rest) in
    if n == 0 || ltb 255 v || (octets == 0 && not (v == 127))
    then false
    else after_octet (octets + 1) rest next

unfoldable pub onyx_is_ipv4_loopback : Bytes → Bool
unfolding octets_from
onyx_is_ipv4_loopback s = octets_from 4 0 s

all_printable : Bytes → Bool
all_printable [] = true
all_printable (c ∷ s) = if ltb c 0x21 || ltb 0x7e c then false else all_printable s

unfoldable pub valid_request_id : Bytes → Bool
unfolding all_printable
valid_request_id id = if length id == 0 || ltb 128 (length id) then false else all_printable id

-- 91 and 93 are the square brackets, 58 is the colon.
abbrev opens_bracket : Bytes → Bool
opens_bracket [] = false
opens_bracket (c ∷ s) = c == 91

unfoldable pub host_header_name : Bytes → Bytes
host_header_name host =
    if opens_bracket host
    then (elim (find_byte 93 host) [ none ↦ host | some close ↦ take (close + 1) host ])
    else (elim (find_byte 58 host) [ none ↦ host | some colon ↦ take colon host ])

abbrev suffix : Bytes
suffix = bytes ".localhost"

unfoldable pub host_header_is_loopback : Bytes → Bool
host_header_is_loopback host =
    let name = map lower (host_header_name host) in
    if eqb name (bytes "localhost") || eqb name (bytes "[::1]") || onyx_is_ipv4_loopback name
    then true
    else ltb (length suffix) (length name) && eqb (drop (length name - length suffix) name) suffix
