-- ===== src/Engine/Sample/Account.antt =====
-- `onyx_engine::sample_slot` (src/engine.cpp) keeps the account of requests.
use onyx_engine.Prelude.{
  ℕ, ◌+◌, ◌≡◌, refl, ap, ◌∙◌, inl, inr, Bool, true, false, leb, length, ◌==◌, ◌&&◌, if_both, Option,
  none, some, some-injective, subst, Bool-cases,
}
use onyx_engine.Engine.Types.{
  Config, Slot, GenRequest, ReasoningBudget, SlotState, is_prefill, is_idle, RbState, rb_off,
  rb_idle, rb_counting, rb_forcing, rb_done, stop_reason, length_reason,
}
use onyx_engine.Engine.Llama.{Llama}
use onyx_engine.Engine.Emit.{Core}
use onyx_engine.Engine.Emit.Account.{Accounted, Kept, holding, finish-Kept, on_sampled-Kept}
use onyx_engine.Engine.Shift.{kept_front, discarded, context_shift}
use onyx_engine.Engine.Sample.{
  reached, is_counting, rb_enter, rb_scan, rb_scan_at, rb_force, forcing, match_tag, scan_start,
  scan_end, begin_generating, take_token, force_token, after_accept, after_sample, next_token,
  after_shift, when_full, sample_slot,
}

-- The slot stays in its state.
abbrev Same : Slot → Slot → Type 0
Same slot slot' = slot'.state ≡ slot.state

rb_enter-Same : (rb : ReasoningBudget) (slot : Slot) → Same slot (rb_enter rb slot)
unfolding rb_enter
rb_enter-Same rb slot =
    if_both (Same slot) (is_counting slot.rb_state && reached rb.budget slot.rb_count) refl refl

rb_force-Same : (rb : ReasoningBudget) (slot : Slot) → Same slot (rb_force rb slot).1
unfolding rb_force
rb_force-Same rb slot =
    if_both (Same slot) (leb (length rb.forced) (slot.rb_forced_idx + 1)) refl refl

rb_scan_at-Same :
    (s : RbState) (rb : ReasoningBudget) (slot : Slot) (tok : ℕ)
    → Same slot (rb_scan_at s rb slot tok)
unfolding rb_scan_at scan_start scan_end
rb_scan_at-Same rb_off rb slot tok = refl
rb_scan_at-Same rb_idle rb slot tok =
    if_both (Same slot) (length rb.start_tag == 0) refl
      (if_both (Same slot) (match_tag rb.start_tag slot.rb_start_match tok).0 refl refl)
rb_scan_at-Same rb_counting rb slot tok =
    if_both (Same slot) (length rb.end_tag == 0) refl
      (if_both (Same slot) (match_tag rb.end_tag slot.rb_end_match tok).0 refl refl)
rb_scan_at-Same rb_forcing rb slot tok = refl
rb_scan_at-Same rb_done rb slot tok = refl

rb_scan-Same : (rb : ReasoningBudget) (slot : Slot) (tok : ℕ) → Same slot (rb_scan rb slot tok)
unfolding rb_scan
rb_scan-Same rb slot tok = rb_scan_at-Same slot.rb_state rb slot tok

module _ (L : Llama) (x n r t : ℕ) where
  -- The account of what a function returns, with or without an exception.
  abbrev pub KeptEither : (Core L × Slot) × Bool → Type 0
  KeptEither p = Kept L x n r t p.0

  moves :
      (core : Core L) (slot slot' : Slot) (req : GenRequest)
      → Same slot slot'
      → Kept L x n r t (core, holding slot req)
      → Kept L x n r t (core, holding slot' req)
  unfolding Accounted
  moves core slot slot' req e (i, p, f) = (ap (λ (s : SlotState). is_idle s) e ∙ i, p, f)

  take_token-Kept :
      (core : Core L) (slot : Slot) (req : GenRequest) (tok_idx : Option ℕ) (tok : ℕ)
      → Kept L x n r t (core, holding slot req)
      → Kept L x n r t (take_token L core slot req tok_idx tok)
  unfolding take_token Accounted
  take_token-Kept core slot req tok_idx tok h = on_sampled-Kept L x n r t core _ _ _ h

  force_token-KeptEither :
      (core : Core L) (slot : Slot) (req : GenRequest) (tok_idx : Option ℕ)
      → Kept L x n r t (core, holding slot req)
      → KeptEither (force_token L core slot req tok_idx)
  unfolding force_token Accounted
  force_token-KeptEither core slot req tok_idx h =
      elim (Bool-cases
        (L.accept core.world req.id (rb_force req.params.reasoning slot).0 false).1) [
          | inl e ↦
              rw (e, force_token)
                (take_token-Kept _ (rb_force req.params.reasoning slot).1 req tok_idx _ (
                  moves core slot (rb_force req.params.reasoning slot).1 req
                    (rb_force-Same req.params.reasoning slot) h))
          | inr e ↦ rw (e, force_token) h
        ]

  after_accept-Kept :
      (core : Core L) (slot : Slot) (req : GenRequest) (tok_idx : Option ℕ) (tok : ℕ)
      (a : L.World × Bool)
      → Kept L x n r t (core, holding slot req)
      → Kept L x n r t (after_accept L core slot req tok_idx tok a)
  unfolding after_accept Accounted
  after_accept-Kept core slot req tok_idx tok (world, true) h =
      take_token-Kept _ (rb_scan req.params.reasoning slot tok) req tok_idx tok (
        moves core slot (rb_scan req.params.reasoning slot tok) req
          (rb_scan-Same req.params.reasoning slot tok) h)
  after_accept-Kept core slot req tok_idx tok (world, false) h =
      finish-Kept L x n r t _ slot req stop_reason _ h

  after_sample-Kept :
      (core : Core L) (slot : Slot) (req : GenRequest) (tok_idx : Option ℕ) (a : L.World × Option ℕ)
      → Kept L x n r t (core, holding slot req)
      → Kept L x n r t (after_sample L core slot req tok_idx a)
  unfolding after_sample Accounted
  after_sample-Kept core slot req tok_idx (world, none) h =
      finish-Kept L x n r t _ slot req stop_reason _ h
  after_sample-Kept core slot req tok_idx (world, some tok) h =
      after_accept-Kept core slot req tok_idx tok _ h

  next_token-KeptEither :
      (core : Core L) (slot : Slot) (req : GenRequest) (tok_idx : Option ℕ)
      → Kept L x n r t (core, holding slot req)
      → KeptEither (next_token L core slot req tok_idx)
  unfolding next_token
  next_token-KeptEither core slot req tok_idx h =
      elim (Bool-cases (forcing req.params.reasoning (rb_enter req.params.reasoning slot))) [
        | inl e ↦
            rw (e, next_token)
              (force_token-KeptEither core (rb_enter req.params.reasoning slot) req tok_idx entered)
        | inr e ↦
            rw (e, next_token)
              (after_sample-Kept core (rb_enter req.params.reasoning slot) req tok_idx _ entered)
      ]
    where
      entered : Kept L x n r t (core, holding (rb_enter req.params.reasoning slot) req)
      entered =
          moves core slot (rb_enter req.params.reasoning slot) req
            (rb_enter-Same req.params.reasoning slot) h

  -- A shift gives back the slot in its state, with the request it had.
  context_shift-Kept :
      (c : Config) (core : Core L) (world : L.World) (slot : Slot) (req : GenRequest)
      (s : Slot × GenRequest)
      → (context_shift L c world slot req).1 ≡ some s
      → Kept L x n r t (core, holding slot req)
      → Kept L x n r t (core, holding s.0 s.1)
  unfolding context_shift Accounted
  context_shift-Kept c core world slot req s e h = elim (Bool-cases (discarded c slot == 0)) [
    | inl z ↦ absurd (cc (simp (z, context_shift) at e))
    | inr z ↦ elim (Bool-cases removed) [
      | inl q ↦
          subst (λ (p : Slot × GenRequest). Kept L x n r t (core, holding p.0 p.1))
            (some-injective _ _ (simp (z, q, context_shift) at e)) h
      | inr q ↦ absurd (cc (simp (z, q, context_shift) at e))
    ]
  ]
    where
      removed : Bool
      removed =
          (L.seq_rm world slot.seq_id (some (kept_front c slot))
            (some (kept_front c slot + discarded c slot))).1

  after_shift-KeptEither :
      (core : Core L) (slot : Slot) (req : GenRequest) (tok_idx : Option ℕ)
      (a : L.World × Option (Slot × GenRequest))
      → Kept L x n r t (core, holding slot req)
      → ((s : Slot × GenRequest) → a.1 ≡ some s → Kept L x n r t (core, holding s.0 s.1))
      → KeptEither (after_shift L core slot req tok_idx a)
  unfolding after_shift Accounted
  after_shift-KeptEither core slot req tok_idx (world, none) h k =
      finish-Kept L x n r t _ slot req length_reason none h
  after_shift-KeptEither core slot req tok_idx (world, some (slot', req')) h k =
      next_token-KeptEither _ slot' req' tok_idx (k (slot', req') refl)

  when_full-KeptEither :
      (c : Config) (core : Core L) (slot : Slot) (req : GenRequest) (tok_idx : Option ℕ)
      → Kept L x n r t (core, holding slot req)
      → KeptEither (when_full L c core slot req tok_idx)
  unfolding when_full
  when_full-KeptEither c core slot req tok_idx h =
      if_both KeptEither c.ctx_shift
        (after_shift-KeptEither core slot req tok_idx (context_shift L c core.world slot req) h
          (λ s e. context_shift-Kept c core core.world slot req s e h))
        (finish-Kept L x n r t core slot req length_reason none h)

  begin_generating-Kept :
      (core : Core L) (world : L.World) (slot : Slot) (req : GenRequest)
      → Kept L x n r t (core, holding slot req)
      → Kept L x n r t (
        core,
        holding (begin_generating L world slot req).0 (begin_generating L world slot req).1,
      )
  unfolding begin_generating Accounted
  begin_generating-Kept core world slot req (i, p, f) = elim (Bool-cases (is_prefill slot.state)) [
    | inl e ↦ rw (e, begin_generating) (refl, p, f)
    | inr e ↦ rw (e, begin_generating) (i, p, f)
  ]

  -- A call of `sample_slot` keeps the account, also when an exception leaves it.
  pub sample_slot-KeptEither :
      (c : Config) (core : Core L) (slot : Slot) (req : GenRequest) (tok_idx : Option ℕ)
      → Kept L x n r t (core, holding slot req)
      → KeptEither (sample_slot L c core slot req tok_idx)
  unfolding sample_slot
  sample_slot-KeptEither c core slot req tok_idx h =
      let b : Slot × GenRequest = begin_generating L core.world slot req in
      let k = begin_generating-Kept core core.world slot req h in
      if_both KeptEither (reached b.1.params.n_predict b.1.result.n_predicted)
        (finish-Kept L x n r t core b.0 b.1 length_reason none k)
        (if_both KeptEither (leb c.n_ctx_slot b.0.n_past)
          (when_full-KeptEither c core b.0 b.1 tok_idx k)
          (next_token-KeptEither core b.0 b.1 tok_idx k))
