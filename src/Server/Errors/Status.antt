-- ===== src/Server/Errors/Status.antt =====
-- Which status the errors of the engine get (src/server.cpp).
use onyx_engine.Prelude.{◌≡◌, Bool, true, false}
use onyx_engine.Prelude.Bytes.{Bytes}
use onyx_engine.Engine.Types.{
  GenError, GenResult, invalid_token, bad_sampler, prompt_too_long, busy, queue_wait,
  media_too_long,
}
use onyx_engine.Server.Errors.{
  ErrorResponse, send_error, send_busy, invalid_request_error, server_error,
}

-- Whose fault an error is.
pub data Cause : Type 0 where
  turned_away of_client of_server : Cause

abbrev pub cause : GenError → Cause
cause busy = turned_away
cause queue_wait = turned_away
cause invalid_token = of_client
cause bad_sampler = of_client
cause prompt_too_long = of_client
cause media_too_long = of_client
cause _ = of_server

abbrev pub answer : Cause → Bytes → ErrorResponse
answer turned_away message = send_busy message
answer of_client message = send_error 400 message invalid_request_error
answer of_server message = send_error 500 message server_error

abbrev pub is_busy : GenError → Bool
is_busy busy = true
is_busy _ = false

abbrev pub is_wait : GenError → Bool
is_wait queue_wait = true
is_wait _ = false

-- The flags of a result say which of the two refusals it is.
pub record Flagged (r : GenResult) (e : GenError) : Type 0 where
  pub full : r.queue_full ≡ is_busy e
  pub waited : r.queue_timeout ≡ is_wait e
