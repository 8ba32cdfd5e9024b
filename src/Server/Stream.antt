-- ===== src/Server/Stream.antt =====
-- src/server.cpp: the content providers of the two streaming routes, with `finish_reason_str`,
-- `usage_json` and the callbacks that they give to `generate`. What `generate` does in between is
-- its argument here: the pieces that it hands to the callback, in order, and its result. A poll is
-- a piece without text and entries.
pub mod Text
pub mod Whole
pub mod Closing
pub mod Chat
use onyx_engine.Prelude.{
  ℕ, ◌+◌, Bool, true, false, not, ◌&&◌, Option, none, some, List, [], ◌∷◌, ◌++◌, length,
  if◌then◌else◌,
}
use onyx_engine.Prelude.Bytes.{Bytes, bytes}
use onyx_engine.Engine.Types.{
  GenResult, GenPiece, FinishReason, stop_reason, length_reason, cancel_reason, TokenProbs,
}
use onyx_engine.Engine.Queue.{is_empty}
use onyx_engine.Server.Errors.{ErrorBody, stream_error_json, truncated_json_frame}
use onyx_engine.Server.Logprobs.{LegacyLogprobs, legacy_logprobs}

abbrev pub is_length : FinishReason → Bool
is_length length_reason = true
is_length _ = false

unfoldable pub finish_reason_str : GenResult → Bool → Bytes
finish_reason_str r has_tool_calls =
    if is_length r.finish
    then bytes "length"
    else if has_tool_calls
    then bytes "tool_calls"
    else bytes "stop"

pub record Usage : Type 0 where
  pub prompt_tokens : ℕ
  pub completion_tokens : ℕ
  pub total_tokens : ℕ

unfoldable pub usage_json : GenResult → Usage
usage_json r = record {
  prompt_tokens = r.n_prompt;
  completion_tokens = r.n_predicted;
  total_tokens = r.n_prompt + r.n_predicted;
}

-- A connection: the frames handed to it, and whether it takes the next one behind so many.
pub record Sink (F : Type 0) : Type 0 where
  pub written : List F
  pub takes : ℕ → Bool

abbrev pub is_writable : {F : Type 0} → Sink F → Bool
is_writable sink = sink.takes (length sink.written)

abbrev pub sse_write : {F : Type 0} → Sink F → F → Sink F × Bool
sse_write sink frame = (record sink { written = sink.written ++ frame ∷ [] }, is_writable sink)

-- The frames of /v1/completions. A last frame carries the result, of which its timings are made.
pub data TextFrame : Type 0 where
  text_frame : Bytes → Option LegacyLogprobs → TextFrame
  last_frame : Bytes → Option Usage → GenResult → TextFrame
  error_frame : ErrorBody → TextFrame
  done_frame : TextFrame

pub record TextStream : Type 0 where
  pub sink : Sink TextFrame
  pub lp_offset : ℕ

-- The logprobs of a frame, and the offset behind them.
unfoldable pub frame_logprobs : Bool → List TokenProbs → ℕ → Option LegacyLogprobs × ℕ
frame_logprobs want_logprobs probs offset =
    let (logprobs, end) = legacy_logprobs probs offset in
    if want_logprobs && not (is_empty probs) then (some logprobs, end) else (none, offset)

-- The callback.
unfoldable pub emit_text : Bool → TextStream → GenPiece → TextStream × Bool
unfolding frame_logprobs
emit_text want_logprobs st piece =
    let (logprobs, end) = frame_logprobs want_logprobs piece.probs st.lp_offset in
    let (sink, ok) = sse_write st.sink (text_frame piece.text logprobs) in
    if is_empty piece.text && is_empty piece.probs
    then (st, is_writable st.sink)
    else (record { sink = sink; lp_offset = end }, ok)

unfoldable pub emit_texts : Bool → TextStream → List GenPiece → TextStream
emit_texts want_logprobs st [] = st
emit_texts want_logprobs st (piece ∷ pieces) =
    emit_texts want_logprobs (emit_text want_logprobs st piece).0 pieces

-- How a generation ended, as both providers tell it apart. `message` is the text of the error, and
-- `truncated` the one of `truncated_json_message`.
pub data Ending : Type 0 where
  failed : ErrorBody → Ending
  given_up : Ending
  complete : Ending

unfoldable pub ending : Bool → GenResult → Bytes → Bytes → Ending
ending json_output r message truncated = elim r.error [
  | some e ↦ failed (stream_error_json r message)
  | none ↦ elim r.finish [
    | cancel_reason ↦ given_up
    | length_reason ↦ if json_output then failed (truncated_json_frame truncated) else complete
    | stop_reason ↦ complete
  ]
]

-- The frames behind the last piece, and whether the provider asks to go on.
unfoldable pub end_text : Bool → GenResult → Ending → Sink TextFrame → Sink TextFrame × Bool
end_text include_usage r (failed error) sink = ((sse_write sink (error_frame error)).0, true)
end_text include_usage r given_up sink = (sink, false)
end_text include_usage r complete sink =
    let usage = if include_usage then some (usage_json r) else none in
    let (sink', ok) = sse_write sink (last_frame (finish_reason_str r false) usage r) in
    ((sse_write sink' done_frame).0, true)

-- The provider of /v1/completions on its first call.
unfoldable pub stream_text :
    Bool
    → Bool
    → Bool
    → Bytes
    → Bytes
    → List GenPiece
    → GenResult
    → (ℕ → Bool)
    → Sink TextFrame × Bool
unfolding emit_texts end_text ending
stream_text want_logprobs include_usage json_output message truncated pieces r takes =
    let st =
      emit_texts want_logprobs
        (record { sink = record { written = []; takes = takes }; lp_offset = 0 }) pieces in
    end_text include_usage r (ending json_output r message truncated) st.sink
