-- ===== src/Server/Stream/Text.antt =====
-- What a client of /v1/completions reads from a stream (src/server.cpp).
use onyx_engine.Prelude.{
  ℕ, ◌+◌, ◌≡◌, refl, ap, ap₂, sym, ◌∙◌, inl, inr, Bool, true, ◌&&◌, Option, none, some, List, [],
  ◌∷◌, ◌++◌, append_assoc, append-nil, if◌then◌else◌, Bool-cases, arith, &&_true,
}
use onyx_engine.Prelude.Bytes.{Bytes}
use onyx_engine.Engine.Types.{GenResult, GenPiece, TokenProbs}
use onyx_engine.Engine.Queue.{is_empty}
use onyx_engine.Server.Logprobs.{LegacyLogprobs, legacy_logprobs}
use onyx_engine.Server.Logprobs.Offsets.{legacy_logprobs-append}
use onyx_engine.Server.Stream.Closing.{is_complete}
use onyx_engine.Server.Stream.{
  Sink, TextFrame, text_frame, last_frame, error_frame, done_frame, TextStream, frame_logprobs,
  emit_text, emit_texts, Ending, complete, failed, given_up, end_text, stream_text, ending,
}

-- The text of the frames, one after the other.
unfoldable pub read_text : List TextFrame → Bytes
read_text [] = []
read_text (text_frame text logprobs ∷ fs) = text ++ read_text fs
read_text (_ ∷ fs) = read_text fs

abbrev offsets_of : Option LegacyLogprobs → List ℕ
offsets_of none = []
offsets_of (some l) = l.text_offset

-- The offsets that the frames report.
unfoldable pub read_offsets : List TextFrame → List ℕ
read_offsets [] = []
read_offsets (text_frame text logprobs ∷ fs) = offsets_of logprobs ++ read_offsets fs
read_offsets (_ ∷ fs) = read_offsets fs

-- How often the stream is closed by its terminator.
unfoldable pub count_done : List TextFrame → ℕ
count_done [] = 0
count_done (done_frame ∷ fs) = 1 + count_done fs
count_done (_ ∷ fs) = count_done fs

read_text-append : (as' bs : List TextFrame) → read_text (as' ++ bs) ≡ read_text as' ++ read_text bs
unfolding read_text
read_text-append [] bs = refl
read_text-append (text_frame text logprobs ∷ fs) bs =
    ap (λ (t : Bytes). text ++ t) (read_text-append fs bs)
    ∙ sym (append_assoc text (read_text fs) (read_text bs))
read_text-append (last_frame f u r ∷ fs) bs = read_text-append fs bs
read_text-append (error_frame e ∷ fs) bs = read_text-append fs bs
read_text-append (done_frame ∷ fs) bs = read_text-append fs bs

read_offsets-append :
    (as' bs : List TextFrame) → read_offsets (as' ++ bs) ≡ read_offsets as' ++ read_offsets bs
unfolding read_offsets
read_offsets-append [] bs = refl
read_offsets-append (text_frame text logprobs ∷ fs) bs =
    ap (λ (t : List ℕ). offsets_of logprobs ++ t) (read_offsets-append fs bs)
    ∙ sym (append_assoc (offsets_of logprobs) (read_offsets fs) (read_offsets bs))
read_offsets-append (last_frame f u r ∷ fs) bs = read_offsets-append fs bs
read_offsets-append (error_frame e ∷ fs) bs = read_offsets-append fs bs
read_offsets-append (done_frame ∷ fs) bs = read_offsets-append fs bs

count_done-append :
    (as' bs : List TextFrame) → count_done (as' ++ bs) ≡ count_done as' + count_done bs
unfolding count_done
count_done-append [] bs = omega arith
count_done-append (text_frame text logprobs ∷ fs) bs = count_done-append fs bs
count_done-append (last_frame f u r ∷ fs) bs = count_done-append fs bs
count_done-append (error_frame e ∷ fs) bs = count_done-append fs bs
count_done-append (done_frame ∷ fs) bs = omega (arith, count_done-append fs bs)

-- The entries that the pieces carry in all.
unfoldable pub pieces_probs : List GenPiece → List TokenProbs
pieces_probs [] = []
pieces_probs (piece ∷ pieces) = piece.probs ++ pieces_probs pieces

-- The frames of the pieces, from an offset on.
piece_frames : Bool → GenPiece → ℕ → List TextFrame
piece_frames want piece offset =
    if is_empty piece.text && is_empty piece.probs
    then []
    else text_frame piece.text (frame_logprobs want piece.probs offset).0 ∷ []

next_offset : Bool → GenPiece → ℕ → ℕ
next_offset want piece offset =
    if is_empty piece.text && is_empty piece.probs
    then offset
    else (frame_logprobs want piece.probs offset).1

frames_from : Bool → List GenPiece → ℕ → List TextFrame
frames_from want [] offset = []
frames_from want (piece ∷ pieces) offset =
    piece_frames want piece offset ++ frames_from want pieces (next_offset want piece offset)

emit_text-frames :
    (want : Bool) (st : TextStream) (piece : GenPiece)
    → ((emit_text want st piece).0.sink.written
        ≡ st.sink.written ++ piece_frames want piece st.lp_offset)
      × ((emit_text want st piece).0.lp_offset ≡ next_offset want piece st.lp_offset)
unfolding emit_text piece_frames next_offset
emit_text-frames want st piece = elim (Bool-cases (is_empty piece.text && is_empty piece.probs)) [
  | inl e ↦ rw (e, emit_text, piece_frames, next_offset) (sym (append-nil st.sink.written), refl)
  | inr e ↦ rw (e, emit_text, piece_frames, next_offset) (refl, refl)
]

emit_texts-frames :
    (want : Bool) (st : TextStream) (pieces : List GenPiece)
    → (emit_texts want st pieces).sink.written
      ≡ st.sink.written ++ frames_from want pieces st.lp_offset
unfolding emit_texts frames_from
emit_texts-frames want st [] = sym (append-nil st.sink.written)
emit_texts-frames want st (piece ∷ pieces) =
    let (w, o) = emit_text-frames want st piece in
    emit_texts-frames want (emit_text want st piece).0 pieces
    ∙ ap₂ (λ (ws : List TextFrame) (k : ℕ). ws ++ frames_from want pieces k) w o
    ∙ append_assoc st.sink.written _ _

empty_both :
    (piece : GenPiece)
    → (is_empty piece.text && is_empty piece.probs) ≡ true
    → (piece.text ≡ []) × (piece.probs ≡ [])
empty_both piece e =
    let (a, b) = &&_true (is_empty piece.text) (is_empty piece.probs) e in
    (is_empty_eq piece.text a, is_empty_eq piece.probs b)
  where
    is_empty_eq : {A : Type 0} (xs : List A) → is_empty xs ≡ true → xs ≡ []
    is_empty_eq [] q = refl
    is_empty_eq (x ∷ xs) q = absurd (cc q)

frame_logprobs-offsets :
    (probs : List TokenProbs) (offset : ℕ)
    → (offsets_of (frame_logprobs true probs offset).0
        ≡ (legacy_logprobs probs offset).0.text_offset)
      × ((frame_logprobs true probs offset).1 ≡ (legacy_logprobs probs offset).1)
unfolding frame_logprobs legacy_logprobs
frame_logprobs-offsets [] offset = (refl, refl)
frame_logprobs-offsets (p ∷ ps) offset = (refl, refl)

piece_frames-offsets :
    (piece : GenPiece) (offset : ℕ)
    → (read_offsets (piece_frames true piece offset)
        ≡ (legacy_logprobs piece.probs offset).0.text_offset)
      × (next_offset true piece offset ≡ (legacy_logprobs piece.probs offset).1)
unfolding read_offsets piece_frames next_offset legacy_logprobs
piece_frames-offsets piece offset =
    elim (Bool-cases (is_empty piece.text && is_empty piece.probs)) [
      | inl e ↦ rw (e, piece_frames, next_offset, (empty_both piece e).1) (refl, refl)
      | inr e ↦
          let (a, b) = frame_logprobs-offsets piece.probs offset in
          rw (e, piece_frames, next_offset) (append-nil _ ∙ a, b)
    ]

read_offsets-frames :
    (pieces : List GenPiece) (offset : ℕ)
    → read_offsets (frames_from true pieces offset)
      ≡ (legacy_logprobs (pieces_probs pieces) offset).0.text_offset
unfolding read_offsets pieces_probs frames_from legacy_logprobs
read_offsets-frames [] offset = refl
read_offsets-frames (piece ∷ pieces) offset =
    let (a, b) = piece_frames-offsets piece offset in
    read_offsets-append (piece_frames true piece offset) _
    ∙ ap₂ (λ (x y : List ℕ). x ++ y) a
        (ap (λ (k : ℕ). read_offsets (frames_from true pieces k)) b
          ∙ read_offsets-frames pieces (legacy_logprobs piece.probs offset).1)
    ∙ ap (λ (l : LegacyLogprobs × ℕ). l.0.text_offset)
        (sym (legacy_logprobs-append piece.probs (pieces_probs pieces) offset))

end_text-reads :
    (usage : Bool) (r : GenResult) (e : Ending) (sink : Sink TextFrame)
    → (read_text (end_text usage r e sink).0.written ≡ read_text sink.written)
      × (read_offsets (end_text usage r e sink).0.written ≡ read_offsets sink.written)
      × (count_done (end_text usage r e sink).0.written ≡ count_done sink.written + is_complete e)
unfolding end_text read_text read_offsets count_done
end_text-reads usage r (failed error) sink = (
  read_text-append sink.written _ ∙ append-nil (read_text sink.written),
  read_offsets-append sink.written _ ∙ append-nil (read_offsets sink.written),
  count_done-append sink.written (error_frame error ∷ []),
)
end_text-reads usage r given_up sink = (refl, refl, omega arith)
end_text-reads usage r complete sink = rw (append_assoc sink.written) (
  read_text-append sink.written _ ∙ append-nil (read_text sink.written),
  read_offsets-append sink.written _ ∙ append-nil (read_offsets sink.written),
  count_done-append sink.written (last_frame _ _ r ∷ done_frame ∷ []),
)

abbrev fresh : (ℕ → Bool) → TextStream
fresh takes = record { sink = record { written = []; takes = takes }; lp_offset = 0 }

emitted : Bool → List GenPiece → (ℕ → Bool) → TextStream
emitted want pieces takes = emit_texts want (fresh takes) pieces

-- With logprobs wanted, the offsets that the frames report, one frame after the other, are those
-- that one answer with all the entries would report.
pub stream_text-offsets :
    (usage json : Bool) (message truncated : Bytes) (pieces : List GenPiece) (r : GenResult)
    (takes : ℕ → Bool)
    → read_offsets (stream_text true usage json message truncated pieces r takes).0.written
      ≡ (legacy_logprobs (pieces_probs pieces) 0).0.text_offset
unfolding stream_text emitted read_offsets
stream_text-offsets usage json message truncated pieces r takes =
    let (a, b, c) =
      end_text-reads usage r (ending json r message truncated) (emitted true pieces takes).sink in
    b ∙ ap read_offsets (emit_texts-frames true (fresh takes) pieces) ∙ read_offsets-frames pieces 0
