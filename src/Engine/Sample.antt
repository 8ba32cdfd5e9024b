-- ===== src/Engine/Sample.antt =====
-- src/engine.cpp: `onyx_engine::sample_slot`, with the reasoning-budget machine, and
-- `compute_token_probs`.
pub mod Reasoning
pub mod Forcing
pub mod Account
use onyx_engine.Prelude.{
  ℕ, suc, ◌+◌, ◌-◌, min, Bool, true, false, ◌&&◌, Option, none, some, List, [], ◌∷◌, map, length,
  take, get_or, contains, leb, ltb, ◌==◌, if◌then◌else◌,
}
use onyx_engine.Engine.Types.{
  Config, Slot, GenRequest, GenResult, ReasoningBudget, ProbEntry, TokenProbs, stop_reason,
  length_reason, sampling_failed, SlotState, idle, prefill, generating, is_prefill, RbState, rb_off,
  rb_idle, rb_counting, rb_forcing, rb_done,
}
use onyx_engine.Engine.Llama.{Llama}
use onyx_engine.Engine.Emit.{Core, finish, on_sampled}
use onyx_engine.Engine.Shift.{context_shift}

-- `bound >= 0 && count >= bound`, where `none` is a negative bound.
abbrev pub reached : Option ℕ → ℕ → Bool
reached none count = false
reached (some bound) count = leb bound count

abbrev pub is_counting : RbState → Bool
is_counting rb_counting = true
is_counting _ = false

abbrev pub is_forcing : RbState → Bool
is_forcing rb_forcing = true
is_forcing _ = false

-- Before a token: a budget that is used up starts the forcing.
unfoldable pub rb_enter : ReasoningBudget → Slot → Slot
rb_enter rb slot =
    if is_counting slot.rb_state && reached rb.budget slot.rb_count
    then record slot { rb_state = rb_forcing; rb_forced_idx = 0 }
    else slot

unfoldable pub forcing : ReasoningBudget → Slot → Bool
forcing rb slot = is_forcing slot.rb_state && ltb slot.rb_forced_idx (length rb.forced)

-- The forced token, and the machine behind it.
unfoldable pub rb_force : ReasoningBudget → Slot → ℕ × Slot
rb_force rb slot =
    let idx = slot.rb_forced_idx + 1 in
    (
      get_or rb.forced slot.rb_forced_idx 0,
      if leb (length rb.forced) idx
          then record slot { rb_forced_idx = idx; rb_state = rb_done }
          else record slot { rb_forced_idx = idx },
    )

-- One token against a tag of which `matched` tokens were seen: whether the tag is complete, and how
-- much of it is seen now.
unfoldable pub match_tag : List ℕ → ℕ → ℕ → Bool × ℕ
match_tag tag matched tok =
    if tok == get_or tag matched 0
    then (leb (length tag) (matched + 1), matched + 1)
    else (false, if tok == get_or tag 0 0 then 1 else 0)

scan_start : ReasoningBudget → Slot → ℕ → Slot
unfolding match_tag
scan_start rb slot tok =
    let (complete, seen) = match_tag rb.start_tag slot.rb_start_match tok in
    if complete
    then record slot { rb_state = rb_counting; rb_count = 0; rb_start_match = 0; rb_end_match = 0 }
    else record slot { rb_start_match = seen }

scan_end : ReasoningBudget → Slot → ℕ → Slot
unfolding match_tag
scan_end rb slot tok =
    let (complete, seen) = match_tag rb.end_tag slot.rb_end_match tok in
    if length rb.end_tag == 0
    then slot
    else if complete
    then record slot { rb_end_match = seen; rb_state = rb_done }
    else record slot { rb_end_match = seen }

-- After a token that was sampled.
rb_scan_at : RbState → ReasoningBudget → Slot → ℕ → Slot
unfolding scan_start scan_end
rb_scan_at rb_idle rb slot tok = if length rb.start_tag == 0 then slot else scan_start rb slot tok
rb_scan_at rb_counting rb slot tok = scan_end rb (record slot { rb_count = slot.rb_count + 1 }) tok
rb_scan_at _ rb slot tok = slot

unfoldable pub rb_scan : ReasoningBudget → Slot → ℕ → Slot
unfolding rb_scan_at
rb_scan rb slot tok = rb_scan_at slot.rb_state rb slot tok

module _ (L : Llama) where
  -- The softmax over the vocabulary and the choice of the top tokens are float computations, which
  -- the interface gives; the entries are put together here.
  prob_entry : L.World → Option ℕ → List ℕ → ℕ → ProbEntry
  prob_entry world tok_idx preserved token = record {
    token = token;
    piece = L.token_to_piece token (contains preserved token);
    logprob = L.logprob world tok_idx token;
  }

  unfoldable pub compute_token_probs : L.World → Option ℕ → ℕ → ℕ → List ℕ → TokenProbs
  unfolding prob_entry
  compute_token_probs world tok_idx token n_probs preserved =
      let n_top = min n_probs L.n_vocab in
      record {
        sampled = prob_entry world tok_idx preserved token;
        top =
            map (prob_entry world tok_idx preserved)
              (take n_top (L.top_tokens world tok_idx n_top));
      }

  -- The first token of a prompt ends its prefill.
  begin_generating : L.World → Slot → GenRequest → Slot × GenRequest
  begin_generating world slot req =
      if is_prefill slot.state
      then (
        record slot { state = generating; t_prompt = L.now world },
        record req { result = record req.result { t_prompt_us = L.now world - slot.t_start } },
      )
      else (slot, req)

  -- The token is chosen: count it, compute its logprobs, and hand it to `on_sampled`.
  take_token : Core L → Slot → GenRequest → Option ℕ → ℕ → Core L × Slot
  unfolding compute_token_probs
  take_token core slot req tok_idx tok =
      let slot' = record slot { sampled = tok } in
      let req' = record req {
        result = record req.result { n_predicted = req.result.n_predicted + 1 };
      } in
      let probs =
        compute_token_probs core.world tok_idx tok req.params.n_probs req.params.preserved_tokens in
      on_sampled L core slot' req' (if req.params.want_logprobs then some probs else none)

  -- The forced token goes through the sampler's accept path; an exception there leaves the function.
  force_token : Core L → Slot → GenRequest → Option ℕ → (Core L × Slot) × Bool
  unfolding rb_force take_token
  force_token core slot req tok_idx =
      let (tok, slot') = rb_force req.params.reasoning slot in
      let (world, accepted) = L.accept core.world req.id tok false in
      let core' = record core { world = world } in
      if accepted
      then (take_token core' slot' req tok_idx tok, false)
      else ((core', record slot { rb_forced_idx = slot.rb_forced_idx + 1; req = some req }), true)

  -- The sampled token; an exception of the sampler or of its grammar ends this request only.
  after_accept : Core L → Slot → GenRequest → Option ℕ → ℕ → L.World × Bool → Core L × Slot
  unfolding rb_scan take_token
  after_accept core slot req tok_idx tok (world, true) =
      take_token (record core { world = world }) (rb_scan req.params.reasoning slot tok) req tok_idx
        tok
  after_accept core slot req tok_idx tok (world, false) =
      finish L (record core { world = world }) slot req stop_reason (some sampling_failed)

  after_sample : Core L → Slot → GenRequest → Option ℕ → L.World × Option ℕ → Core L × Slot
  unfolding after_accept
  after_sample core slot req tok_idx (world, none) =
      finish L (record core { world = world }) slot req stop_reason (some sampling_failed)
  after_sample core slot req tok_idx (world, some tok) =
      after_accept core slot req tok_idx tok (L.accept world req.id tok true)

  next_token : Core L → Slot → GenRequest → Option ℕ → (Core L × Slot) × Bool
  unfolding rb_enter forcing force_token after_sample
  next_token core slot req tok_idx =
      let slot' = rb_enter req.params.reasoning slot in
      if forcing req.params.reasoning slot'
      then force_token core slot' req tok_idx
      else (after_sample core slot' req tok_idx (L.sample core.world req.id tok_idx), false)

  -- What becomes of a shift: the request goes on, or it ends.
  after_shift :
      Core L
      → Slot
      → GenRequest
      → Option ℕ
      → L.World × Option (Slot × GenRequest)
      → (Core L × Slot) × Bool
  unfolding next_token
  after_shift core slot req tok_idx (world, none) =
      (finish L (record core { world = world }) slot req length_reason none, false)
  after_shift core slot req tok_idx (world, some (slot', req')) =
      next_token (record core { world = world }) slot' req' tok_idx

  -- The slot's context is full: shift it, or end the request.
  when_full : Config → Core L → Slot → GenRequest → Option ℕ → (Core L × Slot) × Bool
  unfolding after_shift
  when_full c core slot req tok_idx =
      if c.ctx_shift
      then after_shift core slot req tok_idx (context_shift L c core.world slot req)
      else (finish L core slot req length_reason none, false)

  -- The flag says that an exception left the function.
  unfoldable pub sample_slot :
      Config → Core L → Slot → GenRequest → Option ℕ → (Core L × Slot) × Bool
  unfolding begin_generating next_token when_full
  sample_slot c core slot req tok_idx =
      let (slot', req') = begin_generating core.world slot req in
      if reached req'.params.n_predict req'.result.n_predicted
      then (finish L core slot' req' length_reason none, false)
      else if leb c.n_ctx_slot slot'.n_past
      then when_full c core slot' req' tok_idx
      else next_token core slot' req' tok_idx
