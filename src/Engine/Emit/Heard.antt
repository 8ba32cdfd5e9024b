-- ===== src/Engine/Emit/Heard.antt =====
-- What a client hears of a request: the pieces of the callback, and what the last one adds.
use onyx_engine.Prelude.{
  ℕ, ◌≡◌, ◌≢◌, refl, sym, ap, ◌∙◌, inl, inr, true, false, none, List, [], ◌∷◌, ◌++◌, arith, tests,
  length, take, drop, append_assoc, append-nil, ltb, Bool-cases, take_all, take-append-drop,
}
use onyx_engine.Prelude.Bytes.{Bytes}
use onyx_engine.Engine.Types.{
  GenRequest, GenResult, GenPiece, FinishReason, cancel_reason, TokenProbs, Slot,
}
use onyx_engine.Engine.Emit.{emit, stamp, flush, owes}

unfoldable pub spoken : List GenPiece → Bytes
spoken [] = []
spoken (p ∷ ps) = p.text ++ spoken ps

spoken-append : (ps qs : List GenPiece) → spoken (ps ++ qs) ≡ spoken ps ++ spoken qs
unfolding spoken
spoken-append [] qs = refl
spoken-append (p ∷ ps) qs =
    rw (spoken-append ps qs) (sym (append_assoc p.text (spoken ps) (spoken qs)))

-- What the callback was called with, and what still waits in the queue for it.
abbrev pub heard : GenRequest → Bytes
heard req = spoken (req.delivered ++ req.pieces)

pub heard-emit :
    (req : GenRequest) (piece : Bytes) (probs : List TokenProbs)
    → heard (emit req piece probs) ≡ heard req ++ piece
unfolding emit spoken
heard-emit req piece probs =
    ap spoken
      (sym (append_assoc req.delivered req.pieces (record { text = piece; probs = probs } ∷ [])))
    ∙ spoken-append (req.delivered ++ req.pieces) (record { text = piece; probs = probs } ∷ [])
    ∙ ap (◌++◌ (heard req)) (append-nil piece)

module _ (slot : Slot) (req : GenRequest) (reason : FinishReason) where
  flush-owed :
      owes slot req reason ≡ true
      → heard (flush slot req reason) ≡ heard req ++ drop slot.n_sent req.result.text
  unfolding flush
  flush-owed e = rw (e, flush) (heard-emit req _ _)

  flush-even : owes slot req reason ≡ false → flush slot req reason ≡ req
  unfolding flush
  flush-even e = rw (e, flush)

  -- With the last piece the client has heard everything.
  pub flush-heard :
      reason ≢ cancel_reason
      → req.result.error ≡ none
      → heard req ≡ take slot.n_sent req.result.text
      → req.wants_pieces ≡ true
      → heard (flush slot req reason) ≡ req.result.text
  unfolding owes
  flush-heard live ok said wants = elim (Bool-cases (ltb slot.n_sent (length req.result.text))) [
    | inl e ↦
        flush-owed (ground arith)
        ∙ ap (λ t. t ++ drop slot.n_sent req.result.text) said
        ∙ take-append-drop slot.n_sent req.result.text
    | inr e ↦
        ap heard (flush-even (ground arith))
        ∙ said
        ∙ take_all slot.n_sent req.result.text (omega (tests, e))
  ]

  -- Nothing but the queue of pieces is changed.
  pub flush_keeps :
      ((flush slot req reason).result ≡ req.result)
      × ((flush slot req reason).wants_pieces ≡ req.wants_pieces)
      × ((flush slot req reason).id ≡ req.id)
  unfolding flush emit
  flush_keeps = ground arith

pub stamp_keeps :
    (slot : Slot) (res : GenResult) (reason : FinishReason) (now : ℕ)
    → ((stamp slot res reason none now).1.text ≡ res.text)
      × ((stamp slot res reason none now).1.error ≡ res.error)
      × ((stamp slot res reason none now).0.n_sent ≡ slot.n_sent)
unfolding stamp
stamp_keeps slot res reason now = ground arith
