-- ===== src/Examples/Server.antt =====
-- Examples on the request helpers and the command line.
use onyx_engine.Prelude.{◌≡◌, ◌↔◌, ◌⊎◌, refl, true, none, List, [], ◌∷◌, ◌++◌, arith}
use onyx_engine.Prelude.Bytes.{Bytes, bytes, starts, eqb}
use onyx_engine.HttpUtil.Base64.{base64_encode, base64_decode}
use onyx_engine.HttpUtil.Base64.RoundTrip.{base64_decode-encode}
use onyx_engine.HttpUtil.Media.{payload, decode_media_payload}
use onyx_engine.HttpUtil.Media.DataUri.{header, decode_media_payload-data_uri}
use onyx_engine.HttpUtil.Compare.{constant_time_equals, constant_time_equals_iff}
use onyx_engine.HttpUtil.Host.{onyx_is_ipv4_loopback}
use onyx_engine.HttpUtil.Host.Address.{Dotted, IsOctet, decimal, onyx_is_ipv4_loopback-Dotted}
use onyx_engine.HttpUtil.Json.{json_nesting_depth}
use onyx_engine.HttpUtil.Json.Depth.{
  Nested, nothing, quoted, group, letter, closes, open_array, close_array, open_object,
  close_object, json_nesting_depth-Nested,
}
use onyx_engine.Sampler.Trigger.{Trigger, trigger_word, onyx_trigger_pattern}
use onyx_engine.Sampler.Trigger.Escape.{Literal, onyx_trigger_pattern-Literal}
use onyx_engine.Args.Types.{Args, pos, defaults}
use onyx_engine.Args.Number.{parse_int}
use onyx_engine.Args.Values.{onyx_cache_type_is_quantized, onyx_host_is_loopback}
use onyx_engine.Args.Parse.{read_args}
use onyx_engine.Args.Parse.Shown.{Shown}
use onyx_engine.Args.Check.{Machine, onyx_args_parse}
use onyx_engine.Args.Check.Laws.{IsChecked, onyx_args_parse-IsChecked}

base64_decode-encode_example :
    base64_decode (base64_encode (1 ∷ 255 ∷ 0 ∷ 128 ∷ [])) ≡ 1 ∷ 255 ∷ 0 ∷ 128 ∷ []
base64_decode-encode_example =
    base64_decode-encode (1 ∷ 255 ∷ 0 ∷ 128 ∷ [])
      (omega arith, (omega arith, (omega arith, (omega arith, tt))))

decode_media_payload-data_uri_example :
    decode_media_payload (header (bytes "x;") ++ (44 ∷ base64_encode (137 ∷ 80 ∷ [])))
    ≡ payload (137 ∷ 80 ∷ [])
decode_media_payload-data_uri_example =
    decode_media_payload-data_uri (bytes "x;") (137 ∷ 80 ∷ []) (omega arith, (omega arith, tt))
      (omega arith, (omega arith, tt)) (λ q. cc)

constant_time_equals_iff_example :
    (constant_time_equals (bytes "key") (bytes "kex") ≡ true) ↔ (bytes "key" ≡ bytes "kex")
constant_time_equals_iff_example = constant_time_equals_iff (bytes "key") (bytes "kex")

abbrev local : Bytes
local = bytes "127.0.0.1"

onyx_is_ipv4_loopback-Dotted_example :
    Dotted 4 local
    × ((o : Bytes) × ((rest : Bytes) × ((local ≡ o ++ rest) × (IsOctet o × (decimal 0 o ≡ 127)))))
unfolding onyx_is_ipv4_loopback
onyx_is_ipv4_loopback-Dotted_example = onyx_is_ipv4_loopback-Dotted local refl

-- {["]"]}
abbrev text : Bytes
text = 123 ∷ 91 ∷ 34 ∷ 93 ∷ 34 ∷ 93 ∷ 125 ∷ []

text-Nested : Nested 2 text
text-Nested =
    group open_object
      (group open_array (quoted (letter 93 (omega arith) (omega arith) closes) nothing) close_array
        nothing)
      close_object nothing

json_nesting_depth-Nested_example : json_nesting_depth text ≡ 2
json_nesting_depth-Nested_example = json_nesting_depth-Nested text-Nested

abbrev machine : Machine
machine = record { read_file = λ path. none; api_key_env = none }

abbrev argv : List Bytes
argv = bytes "-m" ∷ bytes "a.gguf" ∷ bytes "--port" ∷ bytes "80" ∷ []

abbrev from_argv : Args
from_argv = record defaults { model_path = bytes "a.gguf"; port = pos 80; alias = bytes "a" }

onyx_args_parse-IsChecked_example : Shown from_argv ⊎ IsChecked from_argv
unfolding onyx_args_parse read_args eqb parse_int onyx_cache_type_is_quantized onyx_host_is_loopback
    onyx_is_ipv4_loopback starts
onyx_args_parse-IsChecked_example = onyx_args_parse-IsChecked machine argv defaults from_argv refl

abbrev trigger : Trigger
trigger = record { kind = trigger_word; value = bytes "<f(x)>"; token = 0 }

onyx_trigger_pattern-Literal_example :
    Literal (onyx_trigger_pattern trigger) (bytes "<f(y)>") ↔ (bytes "<f(y)>" ≡ bytes "<f(x)>")
onyx_trigger_pattern-Literal_example = onyx_trigger_pattern-Literal trigger (bytes "<f(y)>") refl
