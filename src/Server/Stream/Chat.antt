-- ===== src/Server/Stream/Chat.antt =====
-- src/server.cpp: the content provider of /v1/chat/completions. The parser is `onyx_chat_parser`,
-- which hands the text to the template library.
pub mod Order
use onyx_engine.Prelude.{
  ℕ, min, Bool, true, false, not, ◌&&◌, Option, none, some, List, [], ◌∷◌, ◌++◌, length, drop,
  if◌then◌else◌,
}
use onyx_engine.Prelude.Bytes.{Bytes, bytes}
use onyx_engine.Engine.Types.{GenResult, GenPiece, TokenProbs}
use onyx_engine.Engine.Queue.{is_empty}
use onyx_engine.Server.Errors.{ErrorBody}
use onyx_engine.Server.Logprobs.{ChatEntry, chat_logprobs_content}
use onyx_engine.Server.Stream.{
  Usage, usage_json, finish_reason_str, Sink, sse_write, is_writable, Ending, failed, given_up,
  complete, ending,
}

-- `update` gives the deltas, or `none` where the text is not yet parseable.
pub record Parser : Type 1 where
  pub State : Type 0
  pub Delta : Type 0
  pub make : State
  pub update : State → Bytes → Bool → State × Option (List Delta)
  pub has_tool_calls : State → Bool

pub data ChatFrame (D : Type 0) : Type 0 where
  role_frame : ChatFrame D
  delta_frame : D → ChatFrame D
  tail_frame : Bytes → ChatFrame D
  logprobs_frame : List (ChatEntry × List ChatEntry) → ChatFrame D
  finish_frame : Bytes → ChatFrame D
  usage_frame : Usage → GenResult → ChatFrame D
  chat_error : ErrorBody → ChatFrame D
  chat_done : ChatFrame D

module _ (P : Parser) where
  pub record ChatStream : Type 0 where
    pub sink : Sink (ChatFrame P.Delta)
    pub parser : P.State
    pub accumulated : Bytes

  abbrev pub send : ChatStream → ChatFrame P.Delta → ChatStream × Bool
  send st frame = let (sink, ok) = sse_write st.sink frame in (record st { sink = sink }, ok)

  -- The loop over the deltas, which a failed write ends.
  unfoldable pub send_deltas : ChatStream → List P.Delta → ChatStream × Bool
  send_deltas st [] = (st, true)
  send_deltas st (delta ∷ deltas) =
      let (st', ok) = send st (delta_frame delta) in
      let rest = send_deltas st' deltas in if ok then rest else (st', false)

  -- The parser sees all the text so far.
  parse_piece : ChatStream → Bytes → ChatStream × Bool
  unfolding send_deltas
  parse_piece st text =
      let accumulated = st.accumulated ++ text in
      let (parser, deltas) = P.update st.parser accumulated true in
      let st' = record st { parser = parser; accumulated = accumulated } in
      elim deltas [ none ↦ (st', is_writable st'.sink) | some ds ↦ send_deltas st' ds ]

  -- The callback.
  unfoldable pub emit_chat : Bool → ChatStream → GenPiece → ChatStream × Bool
  unfolding parse_piece
  emit_chat want_logprobs st piece =
      let (st', ok) = send st (logprobs_frame (chat_logprobs_content piece.probs)) in
      if want_logprobs && not (is_empty piece.probs)
      then (if ok then parse_piece st' piece.text else (st', false))
      else parse_piece st piece.text

  unfoldable pub emit_chats : Bool → ChatStream → List GenPiece → ChatStream
  emit_chats want_logprobs st [] = st
  emit_chats want_logprobs st (piece ∷ pieces) =
      emit_chats want_logprobs (emit_chat want_logprobs st piece).0 pieces

  -- The loop behind the end, which goes on where a write fails.
  unfoldable pub flush_deltas : ChatStream → List P.Delta → ChatStream
  flush_deltas st [] = st
  flush_deltas st (delta ∷ deltas) = flush_deltas (send st (delta_frame delta)).0 deltas

  -- The rest of the text that was not yet handed to the parser.
  unfoldable pub tail_of : Bytes → Bytes → Bytes
  tail_of accumulated text = drop (min (length accumulated) (length text)) text

  -- What the partial parser withheld.
  flush_chat : ChatStream → Bytes → ChatStream
  unfolding flush_deltas tail_of
  flush_chat st text =
      let (parser, deltas) = P.update st.parser text false in
      let st' = record st { parser = parser } in
      let tail = tail_of st.accumulated text in
      elim deltas [
        | some ds ↦ flush_deltas st' ds
        | none ↦ if is_empty tail then st' else (send st' (tail_frame tail)).0
      ]

  close_chat : Bool → ChatStream → GenResult → ChatStream
  close_chat include_usage st r =
      let finished =
        (send st (finish_frame (finish_reason_str r (P.has_tool_calls st.parser)))).0 in
      let counted =
        if include_usage then (send finished (usage_frame (usage_json r) r)).0 else finished in
      (send counted chat_done).0

  unfoldable pub end_chat : Bool → GenResult → Ending → ChatStream → ChatStream × Bool
  unfolding flush_chat close_chat
  end_chat include_usage r (failed error) st = ((send st (chat_error error)).0, true)
  end_chat include_usage r given_up st = (st, false)
  end_chat include_usage r complete st = (close_chat include_usage (flush_chat st r.text) r, true)

  -- The provider on its first call; `pieces` and `r` are what `generate` gives, which is not called
  -- where the first frame fails.
  unfoldable pub stream_chat :
      Bool
      → Bool
      → Bool
      → Bytes
      → Bytes
      → List GenPiece
      → GenResult
      → (ℕ → Bool)
      → ChatStream × Bool
  unfolding emit_chats end_chat
  stream_chat want_logprobs include_usage json_output message truncated pieces r takes =
      let (st, ok) =
        send
          (record {
            sink = record { written = []; takes = takes };
            parser = P.make;
            accumulated = [];
          })
          role_frame in
      if ok
      then end_chat include_usage r (ending json_output r message truncated)
          (emit_chats want_logprobs st pieces)
      else (st, false)
