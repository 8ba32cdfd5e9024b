-- ===== src/Server/Gate.antt =====
-- src/server.cpp: `parse_body`, and the handler that every request passes first, in
-- `onyx_server_run`.
pub mod Policy
use onyx_engine.Prelude.{
  ℕ, Bool, true, false, not, ◌&&◌, ◌||◌, ◌++◌, Option, none, some, ltb, if◌then◌else◌,
}
use onyx_engine.Prelude.Bytes.{Bytes, bytes, eqb}
use onyx_engine.HttpUtil.Compare.{constant_time_equals}
use onyx_engine.HttpUtil.Host.{valid_request_id, host_header_is_loopback}
use onyx_engine.HttpUtil.Json.{json_nesting_depth}
use onyx_engine.Engine.Queue.{is_empty}
use onyx_engine.Server.Errors.{
  ErrorResponse, send_error, invalid_request_error, authentication_error, unavailable_error,
  Exception, invalid_argument, json_error,
}

-- What the handler reads of a request; an absent header has the empty value.
pub record Request : Type 0 where
  pub method : Bytes
  pub path : Bytes
  pub request_id : Bytes
  pub has_origin : Bool
  pub host : Option Bytes
  pub authorization : Bytes

-- What it reads of the server: `loopback` and `ready` of `onyx_server_run`, and the key.
pub record ServerState : Type 0 where
  pub api_key : Bytes
  pub loopback : Bool
  pub ready : Bool

-- The X-Request-Id to echo, and the refusal, unless the request goes on to its route.
pub record Routed : Type 0 where
  pub echoed : Option Bytes
  pub refusal : Option ErrorResponse

abbrev pub foreign_host : Option Bytes → Bool
foreign_host none = false
foreign_host (some host) = not (host_header_is_loopback host)

unfoldable pub refusal_of : ServerState → Request → Option ErrorResponse
unfolding send_error
refusal_of s req =
    if req.has_origin
    then some (send_error 403 (bytes "browser-origin requests are disabled") invalid_request_error)
    else if s.loopback && foreign_host req.host
    then some (
        send_error 403
          (bytes "Host header is not a loopback name; this server is bound to loopback")
          invalid_request_error)
    else if eqb req.path (bytes "/health") || eqb req.method (bytes "OPTIONS")
    then none
    else if not (is_empty s.api_key)
        && not (constant_time_equals req.authorization (bytes "Bearer " ++ s.api_key))
    then some (send_error 401 (bytes "invalid or missing API key") authentication_error)
    else if not s.ready
    then some (send_error 503 (bytes "Loading model") unavailable_error)
    else none

unfoldable pub pre_routing_handler : ServerState → Request → Routed
unfolding refusal_of
pre_routing_handler s req = record {
  echoed = if valid_request_id req.request_id then some req.request_id else none;
  refusal = refusal_of s req;
}

-- GET /health: the refusal while the model loads.
unfoldable pub health : ServerState → Option ErrorResponse
unfolding send_error
health s =
    if not s.ready then some (send_error 503 (bytes "Loading model") unavailable_error) else none

abbrev pub max_json_depth : ℕ
max_json_depth = 64

-- `parse` is the JSON library's parser; a body it does not read is an exception.
pub data Parse (J : Type 0) : Type 0 where
  thrown : Exception → Parse J
  body : J → Parse J

unfoldable pub parse_body : {J : Type 0} → (Bytes → Parse J) → Bytes → Parse J
parse_body parse text =
    if ltb max_json_depth (json_nesting_depth text)
    then thrown
        (invalid_argument (bytes "request body nests arrays and objects deeper than 64 levels"))
    else parse text
