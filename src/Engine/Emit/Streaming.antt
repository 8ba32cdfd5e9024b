-- ===== src/Engine/Emit/Streaming.antt =====
-- What a streaming client hears over `on_sampled` and `finish` (src/engine.cpp).
use onyx_engine.Prelude.{
  ℕ, ◌-◌, ◌≤◌, ◌<◌, ◌≡◌, ◌≢◌, refl, sym, ap, ◌∙◌, subst, ◌⊎◌, inl, inr, ◌&&◌, true, false, Option,
  none, some, List, [], ◌∷◌, ◌++◌, arith, tests, length, take, drop, All, contains, ltb,
  if◌then◌else◌, Bool-cases, Option-cases, take-append, take-take, take-append-slice,
}
use onyx_engine.Prelude.Bytes.{Bytes}
use onyx_engine.Engine.Types.{
  GenRequest, GenResult, FinishReason, stop_reason, cancel_reason, TokenProbs, Slot,
}
use onyx_engine.Engine.Llama.{Llama}
use onyx_engine.Engine.Holdback.{stop_holdback}
use onyx_engine.Engine.Holdback.Laws.{IsStop, stop_holdback_mono}
use onyx_engine.Engine.Emit.{
  Core, emit, stamp, flush, first_stop, cut, release_text, append_piece, finish, on_stop,
  on_sampled,
}
use onyx_engine.Engine.Emit.Stops.{Clean, first_stop-IsStopAt, first_stop-none}
use onyx_engine.Engine.Emit.Heard.{heard, heard-emit, flush-heard, flush_keeps, stamp_keeps}

-- A request in a slot between two tokens: no stop word stands in the text, the text sent is all
-- that is not held back, and the client heard just that.
pub record Streams (slot : Slot) (req : GenRequest) : Type 0 where
  pub stops : All IsStop req.params.stop
  pub clean : Clean req.params.stop req.result.text
  pub no_error : req.result.error ≡ none
  pub sent : slot.n_sent ≡ (
      if req.wants_pieces
      then length req.result.text - stop_holdback req.result.text req.params.stop
      else 0)
  pub said : heard req ≡ take slot.n_sent req.result.text

-- A finished request: a streaming client heard the whole text of the result.
pub record IsComplete (req : GenRequest) : Type 0 where
  pub complete : req.wants_pieces ≡ true → heard req ≡ req.result.text
  pub finished : req.finished ≡ true
  pub released : req.smpl ≡ false

-- Either the slot goes on with a request for which `P` holds, or the request was handed over.
abbrev pub GoesOn :
    {L : Llama}
    → (Slot → GenRequest → Type 0)
    → (GenRequest → Type 0)
    → Core L
    → Core L × Slot
    → Type 0
GoesOn P Q core (core', slot') =
    ((req' : GenRequest) × (slot'.req ≡ some req') × P slot' req')
    ⊎ ((req' : GenRequest) × (core'.finished ≡ req' ∷ core.finished) × (slot'.req ≡ none) × Q req')

-- The text sent never passes the text that is not held back.
Streams-unsent :
    (slot : Slot) (req : GenRequest)
    → Streams slot req
    → slot.n_sent ≤ length req.result.text - stop_holdback req.result.text req.params.stop
Streams-unsent slot req s = ground (arith, s.sent)

-- The streaming block keeps the invariant when the text has grown and is still clean.
module _ (slot : Slot) (req : GenRequest) (stops : All IsStop req.params.stop)
    (clean : Clean req.params.stop req.result.text) (no_error : req.result.error ≡ none)
    (said : heard req ≡ take slot.n_sent req.result.text) where
  abbrev end : ℕ
  end = length req.result.text - stop_holdback req.result.text req.params.stop

  release_text-sends :
      req.wants_pieces ≡ true
      → slot.n_sent < end
      → Streams (release_text slot req).0 (release_text slot req).1
  unfolding release_text emit
  release_text-sends w l =
      rw (t, release_text)
        (record {
          stops = stops;
          clean = clean;
          no_error = no_error;
          sent = rw w;
          said =
              heard-emit req _ _
              ∙ ap (λ u. u ++ take (end - slot.n_sent) (drop slot.n_sent req.result.text)) said
              ∙ take-append-slice slot.n_sent end req.result.text (omega arith);
        })
    where
      t : (req.wants_pieces && ltb slot.n_sent end) ≡ true
      t = ground arith

  release_text-waits :
      (req.wants_pieces && ltb slot.n_sent end) ≡ false
      → slot.n_sent ≡ (if req.wants_pieces then end else 0)
      → Streams (release_text slot req).0 (release_text slot req).1
  unfolding release_text
  release_text-waits t same =
      rw (t, release_text)
        (record { stops = stops; clean = clean; no_error = no_error; sent = same; said = said })

  release_text-Streams :
      (req.wants_pieces ≡ true → slot.n_sent ≤ end)
      → (req.wants_pieces ≡ false → slot.n_sent ≡ 0)
      → Streams (release_text slot req).0 (release_text slot req).1
  release_text-Streams le zero_sent = elim (Bool-cases req.wants_pieces) [
    | inl w ↦ elim (Bool-cases (ltb slot.n_sent end)) [
      | inl e ↦ release_text-sends w (omega (tests, e))
      | inr e ↦ release_text-waits (rw (w, e) refl) (rw w (omega (tests, e, le w)))
    ]
    | inr w ↦ release_text-waits (rw w refl) (rw w (zero_sent w))
  ]

module _ {L : Llama} where
  -- A request without an error whose client was sent the first `n_sent` bytes of the text, and
  -- that ends by a stop or at a limit, is handed over as finished; its slot holds no request any
  -- more, and a client that wants pieces was sent the whole text.
  pub finish-IsComplete :
      (core : Core L) (slot : Slot) (req : GenRequest) (reason : FinishReason)
      → reason ≢ cancel_reason
      → req.result.error ≡ none
      → heard req ≡ take slot.n_sent req.result.text
      → (req' : GenRequest) × ((finish L core slot req reason none).0.finished
          ≡ req' ∷ core.finished)
        × ((finish L core slot req reason none).1.req ≡ none)
        × IsComplete req'
  unfolding finish
  finish-IsComplete core slot req reason live ok said =
      (record (flush slot' req1 reason) { smpl = false; finished = true }, refl, refl, complete)
    where
      stamped : Slot × GenResult
      stamped = stamp slot req.result reason none (L.now core.world)

      slot' : Slot
      slot' = stamped.0

      req1 : GenRequest
      req1 = record req { result = stamped.1 }

      keeps :
          (stamped.1.text ≡ req.result.text)
          × (stamped.1.error ≡ req.result.error)
          × (slot'.n_sent ≡ slot.n_sent)
      keeps = stamp_keeps slot req.result reason (L.now core.world)

      same :
          ((flush slot' req1 reason).result ≡ req1.result)
          × ((flush slot' req1 reason).wants_pieces ≡ req1.wants_pieces)
          × ((flush slot' req1 reason).id ≡ req1.id)
      same = flush_keeps slot' req1 reason

      complete : IsComplete (record (flush slot' req1 reason) { smpl = false; finished = true })
      complete = record {
        complete = λ w.
            flush-heard slot' req1 reason live (keeps.1 ∙ ok) (rw (keeps.2, keeps.0) said)
              (sym same.1 ∙ w)
            ∙ sym (ap GenResult.text same.0);
        finished = refl;
        released = refl;
      }

  module _ (core : Core L) (slot : Slot) (req : GenRequest) (piece : Bytes)
      (probs : List TokenProbs) (s : Streams slot req) where
    abbrev grown : GenRequest
    grown = record req {
      result = record req.result { text = req.result.text ++ piece; probs = probs };
    }

    n_sent-le : slot.n_sent ≤ length req.result.text
    n_sent-le = omega (arith, Streams-unsent slot req s)

    said_grown : heard grown ≡ take slot.n_sent (req.result.text ++ piece)
    said_grown = s.said ∙ sym (take-append slot.n_sent req.result.text piece n_sent-le)

    on_stop-found :
        (hit : Bytes × ℕ)
        → first_stop grown.result.text slot.n_sent req.params.stop ≡ some hit
        → GoesOn {L = L} Streams IsComplete core (on_stop L core slot grown (some hit))
    unfolding on_stop
    on_stop-found (stop, pos) e =
        let (_, unsent, _, _) =
          first_stop-IsStopAt req.result.text piece req.params.stop slot.n_sent s.stops s.clean
            (Streams-unsent slot req s) (stop, pos) e in
        inr (
          finish-IsComplete core slot (record grown { result = cut grown.result stop pos })
            stop_reason (λ q. cc) s.no_error
            (said_grown ∙ sym (take-take slot.n_sent pos grown.result.text unsent)))

    on_stop-none :
        first_stop grown.result.text slot.n_sent req.params.stop ≡ none
        → GoesOn {L = L} Streams IsComplete core (on_stop L core slot grown none)
    unfolding on_stop
    on_stop-none e = inl (
      (release_text slot grown).1,
      refl,
      streams (release_text-Streams slot grown s.stops clean' s.no_error said_grown le zero_sent),
    )
      where
        clean' : Clean req.params.stop (req.result.text ++ piece)
        clean' =
            first_stop-none req.result.text piece req.params.stop slot.n_sent s.stops s.clean
              n_sent-le e

        le :
            req.wants_pieces ≡ true
            → slot.n_sent
              ≤ length grown.result.text - stop_holdback grown.result.text req.params.stop
        le w = omega (
          arith,
          Streams-unsent slot req s,
          stop_holdback_mono req.result.text piece req.params.stop s.stops,
        )

        zero_sent : req.wants_pieces ≡ false → slot.n_sent ≡ 0
        zero_sent w = s.sent ∙ rw w refl

        streams :
            Streams (release_text slot grown).0 (release_text slot grown).1
            → Streams
                (record ((release_text slot grown).0) { req = some (release_text slot grown).1 })
                (release_text slot grown).1
        streams t = record {
          stops = t.stops;
          clean = t.clean;
          no_error = t.no_error;
          sent = t.sent;
          said = t.said;
        }

    on_stop-Streams :
        GoesOn {L = L} Streams IsComplete core
          (on_stop L core slot grown (first_stop grown.result.text slot.n_sent req.params.stop))
    on_stop-Streams =
        elim (Option-cases (first_stop grown.result.text slot.n_sent req.params.stop)) [
          | inl e ↦
              subst (λ o. GoesOn {L = L} Streams IsComplete core (on_stop L core slot grown o))
                (sym e) (on_stop-none e)
          | inr (hit, e) ↦
              subst (λ o. GoesOn {L = L} Streams IsComplete core (on_stop L core slot grown o))
                (sym e) (on_stop-found hit e)
        ]

  -- If the request of a slot streams (its stop words are not empty and none stands in the text, it
  -- has no error, and what its client was sent is the text less what is held back, or nothing if
  -- the client wants no pieces), then after one more sampled token the slot goes on with a request
  -- that streams again, or the request was handed over as finished, without its sampler, the slot
  -- holds none, and a client that wants pieces was sent the whole text of the result.
  pub on_sampled-Streams :
      (core : Core L) (slot : Slot) (req : GenRequest) (probs : Option TokenProbs)
      → Streams slot req
      → GoesOn {L = L} Streams IsComplete core (on_sampled L core slot req probs)
  unfolding on_sampled
  on_sampled-Streams core slot req probs s = elim (Bool-cases (L.is_eog slot.sampled)) [
    | inl e ↦
        rw (e, on_sampled)
          (inr (finish-IsComplete core slot req stop_reason (λ q. cc) s.no_error s.said))
    | inr e ↦ rw (e, on_sampled) (grow probs)
  ]
    where
      piece : Bytes
      piece = L.token_to_piece slot.sampled (contains req.params.preserved_tokens slot.sampled)

      grow :
          (o : Option TokenProbs)
          → GoesOn {L = L} Streams IsComplete core (
              on_stop L core slot
                (record req { result = append_piece req.result piece o })
                (first_stop (append_piece req.result piece o).text slot.n_sent req.params.stop))
      grow none = on_stop-Streams core slot req piece req.result.probs s
      grow (some p) = on_stop-Streams core slot req piece (req.result.probs ++ p ∷ []) s
