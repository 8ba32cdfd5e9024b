-- ===== src/Engine/Admit.antt =====
-- src/engine.cpp: `onyx_engine::admit_queued`, with `prefill_media`. Requests that HTTP threads
-- append meanwhile are seen by the next tick.
pub mod Choice
pub mod Prefix
pub mod Account
use onyx_engine.Prelude.{
  ℕ, zero, suc, ◌+◌, ◌-◌, min, max, Bool, true, false, not, ◌&&◌, ◌||◌, Option, none, some, List,
  [], ◌∷◌, ◌++◌, length, take, set, leb, ltb, ◌==◌, if◌then◌else◌,
}
use onyx_engine.Prelude.Bytes.{Bytes}
use onyx_engine.Engine.Types.{
  Config, Slot, GenRequest, GenResult, GenError, stop_reason, cancel_reason, is_idle, SlotState,
  prefill, SeqRmKind, rm_none, rm_full, rm_partial, rm_bounded, RbState, rb_off, rb_idle,
  rb_counting, media_decode, media_markers, media_preprocess, media_too_long, media_eval,
}
use onyx_engine.Engine.Llama.{Llama, MediaChunks, chunks, marker_mismatch, preprocess_failed}
use onyx_engine.Engine.Emit.{Core, finish}
use onyx_engine.Engine.Sample.{sample_slot}
use onyx_engine.Engine.Queue.{is_empty, sweep_queue}

-- `while (lcp < max_lcp && a[lcp] == b[lcp]) lcp++`.
unfoldable pub common_prefix : ℕ → List ℕ → List ℕ → ℕ
common_prefix (suc n) (x ∷ xs) (y ∷ ys) =
    let rest = common_prefix n xs ys in if x == y then suc rest else 0
common_prefix n xs ys = 0

abbrev pub is_rm_none : SeqRmKind → Bool
is_rm_none rm_none = true
is_rm_none _ = false

abbrev pub is_rm_full : SeqRmKind → Bool
is_rm_full rm_full = true
is_rm_full _ = false

-- The prefix of the prompt that a slot's cache can serve. The prompt is not empty (`generate`), so
-- `size() - 1` does not wrap.
unfoldable pub slot_lcp : Config → GenRequest → Slot → ℕ
slot_lcp c req slot =
    let max_lcp = min (length slot.cache_tokens) (length req.params.prompt_tokens - 1) in
    let lcp = common_prefix max_lcp slot.cache_tokens req.params.prompt_tokens in
    if ltb 0 c.cache_reuse
      && req.params.cache_prompt
      && is_empty req.params.media
      && not (is_rm_none c.seq_rm)
    then (if is_rm_full c.seq_rm && ltb lcp (length slot.cache_tokens) then 0 else lcp)
    else 0

-- The best slot so far: its index, its prefix and the slot itself.
pub record Best : Type 0 where
  pub index : ℕ
  pub lcp : ℕ
  pub slot : Slot

unfoldable pub beats : ℕ → Slot → Option Best → Bool
beats lcp slot none = true
beats lcp slot (some best) =
    ltb best.lcp lcp || lcp == best.lcp && ltb slot.t_last_used best.slot.t_last_used

-- The loop over the slots: the longest prefix, then the least recently used.
unfoldable pub choose_from : Config → GenRequest → ℕ → List Slot → Option Best → Option Best
choose_from c req index [] best = best
choose_from c req index (slot ∷ slots) best =
    let lcp = slot_lcp c req slot in
    choose_from c req (index + 1) slots (
      if is_idle slot.state && beats lcp slot best
      then some (record { index = index; lcp = lcp; slot = slot })
      else best)

unfoldable pub choose_slot : Config → GenRequest → List Slot → Option Best
choose_slot c req slots = choose_from c req 0 slots none

-- The slot takes the request over.
unfoldable pub take_request : Slot → GenRequest → ℕ → Slot
take_request slot req now = record slot {
  req =
      some
        (record req { result = record req.result { n_prompt = length req.params.prompt_tokens } });
  prompt = req.params.prompt_tokens;
  has_media = not (is_empty req.params.media);
  state = prefill;
  i_batch = none;
  n_sent = 0;
  t_start = now;
  t_prompt = 0;
  n_probs_sent = 0;
  probs_covered_bytes = 0;
  rb_state =
      if req.params.reasoning.enabled
      then (if req.params.reasoning.start_in_prompt then rb_counting else rb_idle)
      else rb_off;
  rb_count = 0;
  rb_forced_idx = 0;
  rb_start_match = 0;
  rb_end_match = 0;
}

-- `cache_reuse > 0 && cache_prompt && !has_media && best_lcp >= cache_reuse`.
unfoldable pub usable_prefix : Config → GenRequest → ℕ → ℕ
usable_prefix c req lcp =
    if ltb 0 c.cache_reuse
      && req.params.cache_prompt
      && is_empty req.params.media
      && leb c.cache_reuse lcp
    then lcp
    else 0

-- `pos_thold`: where the state must begin to serve a prefix.
unfoldable pub pos_threshold : Config → ℕ → ℕ
pos_threshold c lcp = if ltb 0 c.n_swa then lcp + 2 - c.n_swa else lcp

abbrev pub starts_late : Option ℕ → ℕ → Bool
starts_late none threshold = true
starts_late (some pos_min) threshold = leb threshold pos_min

abbrev with_result : Slot → GenRequest → Slot
with_result slot req = record slot { req = some req }

module _ (L : Llama) where
  -- Cuts the sequence back to the reusable prefix: the new state, and how much is kept.
  unfoldable pub trim_sequence : Config → L.World → Slot → ℕ → L.World × ℕ
  trim_sequence c world slot lcp =
      let (cleared, _a) = L.seq_rm world slot.seq_id none none in
      let (cut, removed) = L.seq_rm world slot.seq_id (some lcp) none in
      let (cleared', _b) = L.seq_rm cut slot.seq_id none none in
      if lcp == 0
      then (cleared, 0)
      else if starts_late (L.seq_pos_min world slot.seq_id) (pos_threshold c lcp)
      then (cleared, 0)
      else if removed
      then (cut, lcp)
      else (cleared', 0)

  unfoldable pub keep_prefix : Slot → GenRequest → ℕ → Slot
  keep_prefix slot req n_kept = record slot {
    cache_tokens = take n_kept slot.cache_tokens;
    n_past = n_kept;
    req = some (record req {
      result = record req.result { n_prompt = length req.params.prompt_tokens; n_cached = n_kept };
    });
  }

  fail_media : Core L → Slot → GenRequest → GenError → (Core L × Slot) × Bool
  fail_media core slot req error =
      let (world, removed) = L.seq_rm core.world slot.seq_id none none in
      (
        finish L (record core { world = world }) (record slot { n_past = 0; cache_tokens = [] }) req
            stop_reason (some error),
        false,
      )

  any_undecodable : List Bytes → Bool
  any_undecodable [] = false
  any_undecodable (m ∷ ms) = not (L.bitmap_ok m) || any_undecodable ms

  eval_chunks : L.World → List ℕ → ℕ → ℕ → ℕ → L.World × Option ℕ
  eval_chunks world [] n_past seq_id n_batch = (world, some n_past)
  eval_chunks world (chunk ∷ cs) n_past seq_id n_batch =
      let (world', reached) = L.eval_chunk world chunk n_past seq_id n_batch (is_empty cs) in
      elim reached [ none ↦ (world', none) | some n ↦ eval_chunks world' cs n seq_id n_batch ]

  prefill_chunks : Config → Core L → Slot → GenRequest → MediaChunks → (Core L × Slot) × Bool
  unfolding fail_media eval_chunks
  prefill_chunks c core slot req marker_mismatch = fail_media core slot req media_markers
  prefill_chunks c core slot req preprocess_failed = fail_media core slot req media_preprocess
  prefill_chunks c core slot req (chunks cs n_pos) =
      let (world, reached) = eval_chunks core.world cs slot.n_past slot.seq_id c.n_batch in
      if leb c.n_ctx_slot n_pos then fail_media core slot req media_too_long else (elim reached [
        | none ↦ fail_media (record core { world = world }) slot req media_eval
        | some n ↦
            sample_slot L c (record core { world = world }) (record slot { n_past = n })
              (record req { result = record req.result { n_prompt = n } }) none
      ])

  unfoldable pub prefill_media : Config → Core L → Slot → GenRequest → (Core L × Slot) × Bool
  unfolding any_undecodable prefill_chunks
  prefill_media c core slot req =
      if any_undecodable req.params.media
      then fail_media core slot req media_decode
      else prefill_chunks c core slot req (L.media_chunks req.params.prompt_text req.params.media)

  -- One admission: the slot with the request in it, prefilled if it has media.
  unfoldable pub admit_to : Config → Core L → Slot → GenRequest → ℕ → (Core L × Slot) × Bool
  unfolding prefill_media
  admit_to c core slot req lcp =
      let (world, n_kept) = trim_sequence c core.world slot (usable_prefix c req lcp) in
      let core' = record core {
        world = world;
        metrics = record core.metrics {
          requests_processing = core.metrics.requests_processing + 1;
        };
      } in
      let req' = record req {
        result = record req.result {
          n_prompt = length req.params.prompt_tokens;
          n_cached = n_kept;
        };
      } in
      let slot' = keep_prefix (take_request slot req (L.now core.world)) req n_kept in
      if is_empty req.params.media
      then ((core', slot'), false)
      else prefill_media c core' slot' req'

  pub record Admitted : Type 0 where
    pub core : Core L
    pub slots : List Slot
    pub queue : List GenRequest
    pub thrown : Bool

  -- The loop over the queue: the head is dropped if it was cancelled, waits if no slot is idle, and
  -- is admitted otherwise. An exception ends the loop.
  unfoldable pub admit_from : Config → Core L → List Slot → List GenRequest → Admitted
  admit_from c core slots [] = record { core = core; slots = slots; queue = []; thrown = false }
  admit_from c core slots (req ∷ queue) =
      let gone = record req {
        finished = true;
        result = record req.result { finish = cancel_reason };
        smpl = false;
      } in
      let dropped = admit_from c (record core { finished = gone ∷ core.finished }) slots queue in
      let admit : Best → Admitted = λ best.
        let ((core', slot'), thrown) = admit_to c core best.slot req best.lcp in
        let slots' = set slots best.index slot' in
        let more = admit_from c core' slots' queue in
        if thrown
        then record { core = core'; slots = slots'; queue = queue; thrown = true }
        else more in
      if req.cancelled then dropped else (elim (choose_slot c req slots) [
        | none ↦ record { core = core; slots = slots; queue = req ∷ queue; thrown = false }
        | some best ↦ admit best
      ])

  unfoldable pub admit_queued : Config → Core L → List Slot → List GenRequest → Admitted
  admit_queued c core slots queue =
      let (core', queue') = sweep_queue L c core queue in admit_from c core' slots queue'
