-- ===== src/Engine/Admit/Account.antt =====
-- `onyx_engine::admit_queued` (src/engine.cpp) keeps the account of requests: a request that leaves
-- the queue is in a slot or handed over.
use onyx_engine.Prelude.{
  ℕ, zero, suc, ◌+◌, ◌≡◌, refl, ◌∙◌, true, false, leb, if_both, option_both, Option, none, some,
  some-injective, List, [], ◌∷◌, get_elem?, All-get_elem?, set, All, arith, sym,
}
use onyx_engine.Engine.Types.{
  Config, Slot, GenRequest, GenError, is_idle, stop_reason, cancel_reason,
}
use onyx_engine.Engine.Llama.{Llama, MediaChunks, chunks, marker_mismatch, preprocess_failed}
use onyx_engine.Engine.Emit.{Core, is_none}
use onyx_engine.Engine.Emit.Account.{
  Accounted, Kept, holding, holders, held, hit, tally, finish-Kept,
}
use onyx_engine.Engine.Sample.Account.{sample_slot-KeptEither, KeptEither}
use onyx_engine.Engine.Decode.Account.{IsLoyal, load, all_held, AccountedAll, KeptAll}
use onyx_engine.Engine.Queue.{is_empty}
use onyx_engine.Engine.Queue.Account.{sweep_queue-Moves}
use onyx_engine.Engine.Admit.{
  Best, choose_slot, take_request, keep_prefix, fail_media, eval_chunks, any_undecodable,
  prefill_chunks, prefill_media, admit_to, Admitted, admit_from, admit_queued,
}
use onyx_engine.Engine.Admit.Choice.{choose_slot-IsBest}

module _ (L : Llama) (x n r t : ℕ) where
  fail_media-KeptEither :
      (core : Core L) (slot : Slot) (req : GenRequest) (error : GenError)
      → Kept L x n r t (core, holding slot req)
      → KeptEither L x n r t (fail_media L core slot req error)
  unfolding fail_media Accounted
  fail_media-KeptEither core slot req error h =
      finish-Kept L x n r t _ (record slot { n_past = 0; cache_tokens = [] }) req stop_reason
        (some error) h

  prefill_chunks-KeptEither :
      (c : Config) (core : Core L) (slot : Slot) (req : GenRequest) (m : MediaChunks)
      → Kept L x n r t (core, holding slot req)
      → KeptEither L x n r t (prefill_chunks L c core slot req m)
  unfolding prefill_chunks Accounted
  prefill_chunks-KeptEither c core slot req marker_mismatch h =
      fail_media-KeptEither core slot req _ h
  prefill_chunks-KeptEither c core slot req preprocess_failed h =
      fail_media-KeptEither core slot req _ h
  prefill_chunks-KeptEither c core slot req (chunks cs n_pos) h =
      if_both (KeptEither L x n r t) (leb c.n_ctx_slot n_pos)
        (fail_media-KeptEither core slot req _ h)
        (option_both (KeptEither L x n r t)
          (eval_chunks L core.world cs slot.n_past slot.seq_id c.n_batch).1
          (fail_media-KeptEither _ slot req _ h)
          (λ k e. sample_slot-KeptEither L x n r t c _ (record slot { n_past = k }) _ none h))

  prefill_media-KeptEither :
      (c : Config) (core : Core L) (slot : Slot) (req : GenRequest)
      → Kept L x n r t (core, holding slot req)
      → KeptEither L x n r t (prefill_media L c core slot req)
  unfolding prefill_media
  prefill_media-KeptEither c core slot req h =
      if_both (KeptEither L x n r t) (any_undecodable L req.params.media)
        (fail_media-KeptEither core slot req _ h) (prefill_chunks-KeptEither c core slot req _ h)

  -- The slot takes over a request that was counted elsewhere.
  admit_to-KeptEither :
      (c : Config) (core : Core L) (slot : Slot) (req : GenRequest) (lcp : ℕ)
      → core.metrics.requests_processing ≡ n
      → tally x core.finished + hit x req.id + r ≡ t
      → KeptEither L x n r t (admit_to L c core slot req lcp)
  unfolding admit_to Accounted keep_prefix take_request
  admit_to-KeptEither c core slot req lcp p q =
      if_both (KeptEither L x n r t) (is_empty req.params.media) (refl, omega (arith, p), q)
        (prefill_media-KeptEither c _ _ _ (refl, omega (arith, p), q))

pub empty-account :
    (x : ℕ) (req : Option GenRequest) → is_none req ≡ true → (holders req ≡ 0) × (held x req ≡ 0)
unfolding holders held
empty-account x none e = (refl, refl)
empty-account x (some req) e = absurd (cc)

-- A slot set in a list is counted in place of the old one.
set-account :
    (x : ℕ) (slots : List Slot) (i : ℕ) (old new : Slot)
    → get_elem? slots i ≡ some old
    → IsLoyal new
    → All IsLoyal slots
    → All IsLoyal (set slots i new)
      × (load (set slots i new) + holders old.req ≡ load slots + holders new.req)
      × (all_held x (set slots i new) + held x old.req ≡ all_held x slots + held x new.req)
unfolding load all_held
set-account x [] i old new e l h = absurd (cc)
set-account x (slot ∷ slots) zero old new e l (h, hs) =
    let same : slot ≡ old = some-injective _ _ e in
    ((l, hs), rw (same) (omega arith), rw (same) (omega arith))
set-account x (slot ∷ slots) (suc i) old new e l (h, hs) =
    let (as', p, q) = set-account x slots i old new e l hs in
    ((h, as'), omega (arith, p), omega (arith, q))

module _ (L : Llama) (x n t : ℕ) where
  -- The account with the queue.
  abbrev pub KeptQueue : ℕ → Core L → List Slot → List GenRequest → Type 0
  KeptQueue r core slots queue = KeptAll L x t n (tally x queue + r) (core, slots)

  abbrev pub KeptAdmitted : ℕ → Admitted L → Type 0
  KeptAdmitted r a = KeptQueue r a.core a.slots a.queue

  admit-KeptQueue :
      (r : ℕ) (c : Config) (core : Core L) (slots : List Slot) (req : GenRequest)
      (queue : List GenRequest) (best : Best)
      → get_elem? slots best.index ≡ some best.slot
      → is_none best.slot.req ≡ true
      → KeptQueue r core slots (req ∷ queue)
      → KeptQueue r
          (admit_to L c core best.slot req best.lcp).0.0
          (set slots best.index (admit_to L c core best.slot req best.lcp).0.1)
          queue
  unfolding AccountedAll Accounted tally
  admit-KeptQueue r c core slots req queue best e i (is, p, q) =
      let (i', p', q') =
        admit_to-KeptEither L x (load slots + n) (all_held x slots + (tally x queue + r)) t c core
          best.slot req best.lcp p (omega (arith, q)) in
      let (is'', p'', q'') = set-account x slots best.index best.slot _ e i' is in
      let (np, nq) = empty-account x best.slot.req i in
      (is'', omega (arith, p', p'', np), omega (arith, q', q'', nq))

  loyal :
      (slots : List Slot) (best : Best)
      → get_elem? slots best.index ≡ some best.slot
      → All IsLoyal slots
      → is_idle best.slot.state ≡ is_none best.slot.req
  loyal slots best g h = All-get_elem? IsLoyal slots best.index best.slot g h

  abbrev gone : GenRequest → GenRequest
  gone req = record req {
    finished = true;
    result = record req.result { finish = cancel_reason };
    smpl = false;
  }

  dropped :
      (r : ℕ) (core : Core L) (slots : List Slot) (req : GenRequest) (queue : List GenRequest)
      → KeptQueue r core slots (req ∷ queue)
      → KeptQueue r (record core { finished = gone req ∷ core.finished }) slots queue
  unfolding AccountedAll tally
  dropped r core slots req queue (is, p, q) = (is, p, omega (arith, q))

  admit_from-KeptAdmitted :
      (r : ℕ) (c : Config) (core : Core L) (slots : List Slot) (queue : List GenRequest)
      → KeptQueue r core slots queue
      → KeptAdmitted r (admit_from L c core slots queue)
  unfolding admit_from AccountedAll
  admit_from-KeptAdmitted r c core slots [] h = h
  admit_from-KeptAdmitted r c core slots (req ∷ queue) h =
      if_both (KeptAdmitted r) req.cancelled
        (admit_from-KeptAdmitted r c (record core { finished = gone req ∷ core.finished }) slots
          queue (dropped r core slots req queue h))
        (option_both (KeptAdmitted r) (choose_slot c req slots) h (λ best e.
          let (g, i, l) = (choose_slot-IsBest c req slots).0 best e in
          let k =
            admit-KeptQueue r c core slots req queue best g (sym (loyal slots best g h.0) ∙ i) h in
          if_both (KeptAdmitted r) (admit_to L c core best.slot req best.lcp).1 k (
            admit_from-KeptAdmitted r c (admit_to L c core best.slot req best.lcp).0.0
              (set slots best.index (admit_to L c core best.slot req best.lcp).0.1) queue k)))

  -- One round of admissions keeps the account, whichever exceptions come.
  pub admit_queued-KeptAdmitted :
      (r : ℕ) (c : Config) (core : Core L) (slots : List Slot) (queue : List GenRequest)
      → KeptQueue r core slots queue
      → KeptAdmitted r (admit_queued L c core slots queue)
  unfolding admit_queued AccountedAll
  admit_queued-KeptAdmitted r c core slots queue (is, p, q) =
      let (p', q') = sweep_queue-Moves L x c core queue in
      admit_from-KeptAdmitted r c _ slots _ (is, p' ∙ p, omega (arith, q, q'))
