-- ===== src/Server/Stream/Chat/Order.antt =====
-- What a client of /v1/chat/completions reads from a stream (src/server.cpp).
use onyx_engine.Prelude.{
  ℕ, ◌+◌, ◌≡◌, refl, sym, ap, ◌∙◌, Bool, true, false, not, List, [], ◌∷◌, ◌++◌, append_assoc,
  append-nil, if◌then◌else◌, if_both, if_cases, option_both, subst, arith,
}
use onyx_engine.Prelude.Bytes.{Bytes}
use onyx_engine.Engine.Types.{GenResult, GenPiece, TokenProbs}
use onyx_engine.Engine.Queue.{is_empty}
use onyx_engine.Server.Logprobs.{ChatEntry, chat_logprob_entry, chat_logprobs_content}
use onyx_engine.Server.Stream.{
  Ending, failed, given_up, complete, ending, is_writable, usage_json, finish_reason_str,
}
use onyx_engine.Server.Stream.Text.{pieces_probs}
use onyx_engine.Server.Stream.Closing.{is_complete, ClosesWhole, ending-ClosesWhole}
use onyx_engine.Server.Stream.Chat.{
  Parser, ChatFrame, role_frame, delta_frame, tail_frame, logprobs_frame, finish_frame, usage_frame,
  chat_error, chat_done, ChatStream, send, send_deltas, parse_piece, emit_chat, emit_chats,
  flush_deltas, tail_of, flush_chat, close_chat, end_chat, stream_chat,
}

abbrev Entries : Type 0
Entries = List (ChatEntry × List ChatEntry)

entries_of : {D : Type 0} → ChatFrame D → Entries
entries_of (logprobs_frame entries) = entries
entries_of _ = []

done_of : {D : Type 0} → ChatFrame D → ℕ
done_of chat_done = 1
done_of _ = 0

-- The entries of the logprobs frames, one after the other.
unfoldable pub read_entries : {D : Type 0} → List (ChatFrame D) → Entries
unfolding entries_of
read_entries [] = []
read_entries (f ∷ fs) = entries_of f ++ read_entries fs

-- How often the stream is closed by its terminator.
unfoldable pub count_chat_done : {D : Type 0} → List (ChatFrame D) → ℕ
unfolding done_of
count_chat_done [] = 0
count_chat_done (f ∷ fs) = done_of f + count_chat_done fs

read_entries-append :
    {D : Type 0} (xs ys : List (ChatFrame D))
    → read_entries (xs ++ ys) ≡ read_entries xs ++ read_entries ys
unfolding read_entries
read_entries-append [] ys = refl
read_entries-append (f ∷ fs) ys =
    ap (λ (t : Entries). entries_of f ++ t) (read_entries-append fs ys)
    ∙ sym (append_assoc (entries_of f) (read_entries fs) (read_entries ys))

count_chat_done-append :
    {D : Type 0} (xs ys : List (ChatFrame D))
    → count_chat_done (xs ++ ys) ≡ count_chat_done xs + count_chat_done ys
unfolding count_chat_done
count_chat_done-append [] ys = omega arith
count_chat_done-append (f ∷ fs) ys = omega (arith, count_chat_done-append fs ys)

chat_logprobs_content-append :
    (ps qs : List TokenProbs)
    → chat_logprobs_content (ps ++ qs) ≡ chat_logprobs_content ps ++ chat_logprobs_content qs
unfolding chat_logprobs_content
chat_logprobs_content-append [] qs = refl
chat_logprobs_content-append (p ∷ ps) qs =
    ap (λ (t : Entries). chat_logprob_entry p ∷ t) (chat_logprobs_content-append ps qs)

no_entries : (ps : List TokenProbs) → not (is_empty ps) ≡ false → chat_logprobs_content ps ≡ []
unfolding chat_logprobs_content
no_entries [] e = refl
no_entries (p ∷ ps) e = absurd (cc e)

module _ (P : Parser) where
  abbrev Frames : Type 0
  Frames = List (ChatFrame P.Delta)

  -- From these frames to those, these entries were sent, and the terminator this often.
  abbrev Sent : Frames → Entries → ℕ → Frames → Type 0
  Sent xs entries n ys =
      (read_entries ys ≡ read_entries xs ++ entries) × (count_chat_done ys ≡ count_chat_done xs + n)

  Sent-nothing : (xs : Frames) → Sent xs [] 0 xs
  Sent-nothing xs = (sym (append-nil _), omega arith)

  Sent-after :
      (xs ys zs : Frames) (es fs : Entries) (m n : ℕ)
      → Sent xs es m ys
      → Sent ys fs n zs
      → Sent xs (es ++ fs) (m + n) zs
  Sent-after xs ys zs es fs m n (a, b) (c, d) = (
    c ∙ ap (λ (t : Entries). t ++ fs) a ∙ append_assoc (read_entries xs) es fs,
    omega (arith, b, d),
  )

  send-Sent :
      (xs : Frames) (f : ChatFrame P.Delta) → Sent xs (entries_of f) (done_of f) (xs ++ f ∷ [])
  unfolding read_entries count_chat_done
  send-Sent xs f = (
    read_entries-append xs _
        ∙ ap (λ (t : Entries). read_entries xs ++ t) (append-nil (entries_of f)),
    omega (arith, count_chat_done-append xs (f ∷ [])),
  )

  abbrev written : ChatStream P → Frames
  written st = st.sink.written

  abbrev SentBy : ChatStream P → Entries → ℕ → ChatStream P × Bool → Type 0
  SentBy st entries n p = Sent (written st) entries n (written p.0)

  send_deltas-Sent : (st : ChatStream P) (ds : List P.Delta) → SentBy st [] 0 (send_deltas P st ds)
  unfolding send_deltas entries_of done_of
  send_deltas-Sent st [] = Sent-nothing (written st)
  send_deltas-Sent st (d ∷ ds) =
      if_both (SentBy st [] 0) (is_writable st.sink)
        (Sent-after (written st) (written (send P st (delta_frame d)).0) _ [] [] 0 0
          (send-Sent (written st) (delta_frame d))
          (send_deltas-Sent (send P st (delta_frame d)).0 ds))
        (send-Sent (written st) (delta_frame d))

  flush_deltas-Sent :
      (st : ChatStream P) (ds : List P.Delta)
      → Sent (written st) [] 0 (written (flush_deltas P st ds))
  unfolding flush_deltas entries_of done_of
  flush_deltas-Sent st [] = Sent-nothing (written st)
  flush_deltas-Sent st (d ∷ ds) =
      Sent-after (written st) (written (send P st (delta_frame d)).0) _ [] [] 0 0
        (send-Sent (written st) (delta_frame d))
        (flush_deltas-Sent (send P st (delta_frame d)).0 ds)

  parse_piece-Sent : (st : ChatStream P) (text : Bytes) → SentBy st [] 0 (parse_piece P st text)
  unfolding parse_piece
  parse_piece-Sent st text =
      option_both (SentBy st [] 0) (P.update st.parser (st.accumulated ++ text) true).1
        (Sent-nothing (written st)) (λ ds e. send_deltas-Sent _ ds)

  emit_chat-Sent :
      (st : ChatStream P) (piece : GenPiece)
      → SentBy st (chat_logprobs_content piece.probs) 0 (emit_chat P true st piece)
  unfolding emit_chat chat_logprobs_content entries_of done_of
  emit_chat-Sent st piece =
      if_cases (SentBy st (chat_logprobs_content piece.probs) 0) (not (is_empty piece.probs))
        (λ e.
          if_both (SentBy st (chat_logprobs_content piece.probs) 0) (is_writable st.sink)
            (subst
              (λ (t : Entries). Sent (written st) t 0 (written (parse_piece P logged piece.text).0))
              (append-nil _)
              (Sent-after (written st) (written logged) _ (chat_logprobs_content piece.probs) [] 0 0
                logs (parse_piece-Sent logged piece.text)))
            logs)
        (λ e.
          subst (λ (t : Entries). SentBy st t 0 (parse_piece P st piece.text))
            (sym (no_entries piece.probs e)) (parse_piece-Sent st piece.text))
    where
      logged : ChatStream P
      logged = (send P st (logprobs_frame (chat_logprobs_content piece.probs))).0

      logs : Sent (written st) (chat_logprobs_content piece.probs) 0 (written logged)
      logs = send-Sent (written st) (logprobs_frame (chat_logprobs_content piece.probs))

  emit_chats-Sent :
      (st : ChatStream P) (pieces : List GenPiece)
      → Sent
          (written st)
          (chat_logprobs_content (pieces_probs pieces))
          0
          (written (emit_chats P true st pieces))
  unfolding emit_chats pieces_probs chat_logprobs_content
  emit_chats-Sent st [] = Sent-nothing (written st)
  emit_chats-Sent st (piece ∷ pieces) =
      subst
        (λ (t : Entries). Sent (written st) t 0 (written (emit_chats P true st (piece ∷ pieces))))
        (sym (chat_logprobs_content-append piece.probs (pieces_probs pieces)))
        (Sent-after (written st) (written (emit_chat P true st piece).0) _ _ _ 0 0
          (emit_chat-Sent st piece) (emit_chats-Sent (emit_chat P true st piece).0 pieces))

  flush_chat-Sent :
      (st : ChatStream P) (text : Bytes) → Sent (written st) [] 0 (written (flush_chat P st text))
  unfolding flush_chat entries_of done_of
  flush_chat-Sent st text =
      option_both (λ (st' : ChatStream P). Sent (written st) [] 0 (written st'))
        (P.update st.parser text false).1
        (if_both (λ (st' : ChatStream P). Sent (written st) [] 0 (written st'))
          (is_empty (tail_of P st.accumulated text)) (Sent-nothing (written st))
          (send-Sent (written st) (tail_frame (tail_of P st.accumulated text))))
        (λ ds e. flush_deltas-Sent _ ds)

  close_chat-Sent :
      (usage : Bool) (st : ChatStream P) (r : GenResult)
      → Sent (written st) [] 1 (written (close_chat P usage st r))
  unfolding close_chat entries_of done_of
  close_chat-Sent usage st r =
      Sent-after (written st) (written counted) _ [] [] 0 1
        (Sent-after (written st) (written finished) (written counted) [] [] 0 0
          (send-Sent (written st) (finish_frame (finish_reason_str r (P.has_tool_calls st.parser))))
          (if_both (λ (st' : ChatStream P). Sent (written finished) [] 0 (written st')) usage
            (send-Sent (written finished) (usage_frame (usage_json r) r))
            (Sent-nothing (written finished))))
        (send-Sent (written counted) chat_done)
    where
      finished : ChatStream P
      finished = (send P st (finish_frame (finish_reason_str r (P.has_tool_calls st.parser)))).0

      counted : ChatStream P
      counted = if usage then (send P finished (usage_frame (usage_json r) r)).0 else finished

  end_chat-Sent :
      (usage : Bool) (r : GenResult) (e : Ending) (st : ChatStream P)
      → SentBy st [] (is_complete e) (end_chat P usage r e st)
  unfolding end_chat entries_of done_of
  end_chat-Sent usage r (failed error) st = send-Sent (written st) (chat_error error)
  end_chat-Sent usage r given_up st = Sent-nothing (written st)
  end_chat-Sent usage r complete st =
      Sent-after (written st) (written (flush_chat P st r.text)) _ [] [] 0 1
        (flush_chat-Sent st r.text) (close_chat-Sent usage (flush_chat P st r.text) r)

  -- With logprobs wanted and a connection that takes the first frame, whatever it takes then and
  -- whatever the parser makes of the text, the logprobs frames carry the entries of all pieces in
  -- order, as one answer would; and the terminating frame is sent at most once, and exactly if the
  -- result has no error, was not cancelled, and was not cut at its limit where it was to be JSON.
  pub stream_chat-reads :
      (usage json : Bool) (message truncated : Bytes) (pieces : List GenPiece) (r : GenResult)
      (takes : ℕ → Bool)
      → takes 0 ≡ true
      → (read_entries
            (stream_chat P true usage json message truncated pieces r takes).0.sink.written
          ≡ chat_logprobs_content (pieces_probs pieces))
        × ClosesWhole json r (
            count_chat_done
              (stream_chat P true usage json message truncated pieces r takes).0.sink.written)
  unfolding stream_chat read_entries count_chat_done entries_of done_of
  stream_chat-reads usage json message truncated pieces r takes h =
      let (entries, dones) =
        Sent-after [] (role_frame ∷ []) (written last) []
          (chat_logprobs_content (pieces_probs pieces) ++ []) 0
          (0 + is_complete (ending json r message truncated)) (send-Sent [] role_frame)
          (Sent-after (role_frame ∷ []) (written after) (written last)
            (chat_logprobs_content (pieces_probs pieces)) [] 0
            (is_complete (ending json r message truncated)) (emit_chats-Sent begun pieces)
            (end_chat-Sent usage r (ending json r message truncated) after)) in
      rw (h, stream_chat)
        (
          entries ∙ append-nil _,
          subst (ClosesWhole json r) (sym (once dones))
              (ending-ClosesWhole json r message truncated),
        )
    where
      once :
          {n : ℕ}
          → n ≡ 0 + (0 + (0 + is_complete (ending json r message truncated)))
          → n ≡ is_complete (ending json r message truncated)
      once e = omega (arith, e)

      begun : ChatStream P
      begun = record {
        sink = record { written = role_frame ∷ []; takes = takes };
        parser = P.make;
        accumulated = [];
      }

      after : ChatStream P
      after = emit_chats P true begun pieces

      last : ChatStream P
      last = (end_chat P usage r (ending json r message truncated) after).0
