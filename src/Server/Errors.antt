-- ===== src/Server/Errors.antt =====
-- src/server.cpp: `send_error`, `send_busy`, `send_generation_error`, `stream_error_json`, the
-- exception handler, and the texts that src/engine.cpp gives its errors.
pub mod Status
use onyx_engine.Prelude.{ℕ, Bool, true, false, ◌||◌, ◌++◌, Option, none, some, if◌then◌else◌}
use onyx_engine.Prelude.Bytes.{Bytes, bytes, starts}
use onyx_engine.Engine.Types.{
  GenError, GenResult, in_embedding_mode, no_projector, invalid_token, bad_sampler, prompt_too_long,
  busy, queue_wait, shutting_down, tick_failed, sampling_failed, generation_failed,
  context_exceeded, invalid_batch, compute_error, media_decode, media_markers, media_preprocess,
  media_too_long, media_eval,
}

pub data ErrorType : Type 0 where
  invalid_request_error authentication_error not_supported_error : ErrorType
  unavailable_error server_error : ErrorType

-- The object below "error" of an error body.
pub record ErrorBody : Type 0 where
  pub message : Bytes
  pub type : ErrorType
  pub code : ℕ

-- What an error leaves in the response. `retry_after` is the header of that name.
pub record ErrorResponse : Type 0 where
  pub status : ℕ
  pub retry_after : Option ℕ
  pub body : ErrorBody

unfoldable pub send_error : ℕ → Bytes → ErrorType → ErrorResponse
send_error status message type = record {
  status = status;
  retry_after = none;
  body = record { message = message; type = type; code = status };
}

abbrev pub retry_after_seconds : ℕ
retry_after_seconds = 1

unfoldable pub send_busy : Bytes → ErrorResponse
unfolding send_error
send_busy message = record (send_error 503 message unavailable_error) {
  retry_after = some retry_after_seconds;
}

-- The texts of the errors behind the queue, up to what varies.
abbrev queue_wait_text : Bytes
queue_wait_text = bytes "server is busy: no slot became free within "

abbrev shutting_down_text : Bytes
shutting_down_text = bytes "engine is shutting down"

abbrev tick_failed_text : Bytes
tick_failed_text = bytes "engine tick failed: "

abbrev sampling_failed_text : Bytes
sampling_failed_text = bytes "sampling failed: "

abbrev generation_failed_text : Bytes
generation_failed_text = bytes "generation failed: "

abbrev context_exceeded_text : Bytes
context_exceeded_text = bytes "context size has been exceeded (llama_decode)"

abbrev invalid_batch_text : Bytes
invalid_batch_text = bytes "invalid input batch (llama_decode)"

abbrev compute_error_text : Bytes
compute_error_text = bytes "compute error (llama_decode)"

abbrev media_decode_text : Bytes
media_decode_text = bytes "failed to decode media input (unsupported or corrupt image/audio data)"

abbrev media_markers_text : Bytes
media_markers_text =
    bytes "number of media inputs does not match the number of media markers in the prompt"

abbrev media_preprocess_text : Bytes
media_preprocess_text = bytes "failed to preprocess media input"

abbrev media_too_long_text : Bytes
media_too_long_text = bytes "prompt ("

abbrev media_eval_text : Bytes
media_eval_text = bytes "failed to evaluate media prompt"

-- The text of an error; `detail` is what the code appends to its first words: numbers, or the text
-- of an exception.
unfoldable pub error_text : GenError → Bytes → Bytes
error_text in_embedding_mode detail =
    bytes "this instance is running in embedding mode; text generation is disabled"
error_text no_projector detail =
    bytes "this instance has no multimodal projector loaded (start with --mmproj)"
error_text invalid_token detail = bytes "prompt contains an invalid token id"
error_text bad_sampler detail = bytes "failed to initialize sampler: " ++ detail
error_text prompt_too_long detail = bytes "prompt (" ++ detail
error_text busy detail = bytes "server is busy: " ++ detail
error_text queue_wait detail = queue_wait_text ++ detail
error_text shutting_down detail = shutting_down_text
error_text tick_failed detail = tick_failed_text ++ detail
error_text sampling_failed detail = sampling_failed_text ++ detail
error_text generation_failed detail = generation_failed_text ++ detail
error_text context_exceeded detail = context_exceeded_text
error_text invalid_batch detail = invalid_batch_text
error_text compute_error detail = compute_error_text
error_text media_decode detail = media_decode_text
error_text media_markers detail = media_markers_text
error_text media_preprocess detail = media_preprocess_text
error_text media_too_long detail = media_too_long_text ++ detail
error_text media_eval detail = media_eval_text

-- The result of the engine as the server reads it: whether it was turned away, and the error's text.
unfoldable pub send_generation_error : GenResult → Bytes → ErrorResponse
unfolding send_busy send_error
send_generation_error r message =
    let client_error =
      starts (bytes "prompt (") message
      || starts (bytes "prompt contains") message
      || starts (bytes "failed to initialize sampler") message in
    if r.queue_full || r.queue_timeout
    then send_busy message
    else if client_error
    then send_error 400 message invalid_request_error
    else send_error 500 message server_error

-- The error frame of a stream that has begun.
unfoldable pub stream_error_json : GenResult → Bytes → ErrorBody
stream_error_json r message =
    if r.queue_full || r.queue_timeout
    then record { message = message; type = unavailable_error; code = 503 }
    else record { message = message; type = server_error; code = 500 }

unfoldable pub truncated_json_frame : Bytes → ErrorBody
truncated_json_frame message = record {
  message = message;
  type = invalid_request_error;
  code = 400;
}

-- The exceptions that the handler tells apart.
pub data Exception : Type 0 where
  json_error invalid_argument std_exception : Bytes → Exception
  other_exception : Exception

unfoldable pub exception_handler : Exception → ErrorResponse
unfolding send_error
exception_handler (json_error what) = send_error 400 what invalid_request_error
exception_handler (invalid_argument what) = send_error 400 what invalid_request_error
exception_handler (std_exception what) = send_error 500 what server_error
exception_handler other_exception = send_error 500 (bytes "internal error") server_error
