-- ===== src/Engine/Batch.antt =====
-- src/engine.cpp: `onyx_engine::build_batch`, and `onyx_batch_clear` and `onyx_batch_add` of
-- src/llama_util.cpp. A batch is the list of its rows, so `batch.n_tokens` is its length.
pub mod Bounds
pub mod Rows
pub mod Progress
pub mod Account
use onyx_engine.Prelude.{
  ℕ, zero, suc, ◌+◌, ◌-◌, ◌/◌, min, max, Bool, true, false, Option, none, some, List, [], ◌∷◌, ◌++◌,
  map, length, get_or, leb, ltb, ◌==◌, if◌then◌else◌,
}
use onyx_engine.Engine.Types.{Config, Slot, SlotState, is_prefill, is_generating}
use onyx_engine.Engine.Llama.{Row}

abbrev pub batch_add : List Row → ℕ → ℕ → ℕ → Bool → List Row
batch_add batch token pos seq_id logits =
    batch ++ (record { token = token; pos = pos; seq_id = seq_id; logits = logits } ∷ [])

-- The next-token row of a generating slot, at row `i`.
unfoldable pub put_next : Slot → ℕ → Slot
put_next slot i = record slot {
  i_batch = some i;
  cache_tokens =
      if slot.has_media then slot.cache_tokens else slot.cache_tokens ++ slot.sampled ∷ [];
  n_past = slot.n_past + 1;
}

-- The first loop: one row for each generating slot, until the batch is full.
unfoldable pub decode_rows : ℕ → List Slot → List Row → List Slot × List Row
decode_rows n_batch [] batch = ([], batch)
decode_rows n_batch (slot ∷ slots) batch =
    let skip = decode_rows n_batch slots batch in
    let next =
      decode_rows n_batch slots (batch_add batch slot.sampled slot.n_past slot.seq_id true) in
    if is_generating slot.state
    then (if leb n_batch (length batch)
        then (slot ∷ slots, batch)
        else (put_next slot (length batch) ∷ next.0, next.1))
    else (slot ∷ skip.0, skip.1)

unfoldable pub count_prefilling : List Slot → ℕ
count_prefilling [] = 0
count_prefilling (slot ∷ slots) =
    let rest = count_prefilling slots in if is_prefill slot.state then rest + 1 else rest

-- One prompt token of a slot, and whether it is the last one.
unfoldable pub put_prompt : Slot → ℕ → Slot
put_prompt slot i = record slot {
  i_batch = if slot.n_past + 1 == length slot.prompt then some i else slot.i_batch;
  cache_tokens = slot.cache_tokens ++ get_or slot.prompt slot.n_past 0 ∷ [];
  n_past = slot.n_past + 1;
}

unfoldable pub prompt_row : Slot → List Row → List Row
prompt_row slot batch =
    batch_add batch (get_or slot.prompt slot.n_past 0) slot.n_past slot.seq_id
      (slot.n_past + 1 == length slot.prompt)

-- `n` prompt tokens of one slot.
unfoldable pub feed : ℕ → Slot → List Row → Slot × List Row
unfolding put_prompt prompt_row
feed zero slot batch = (slot, batch)
feed (suc n) slot batch = feed n (put_prompt slot (length batch)) (prompt_row slot batch)

-- The second loop: a chunk for each prefilling slot.
unfoldable pub prompt_rows : ℕ → ℕ → List Slot → List Row → List Slot × List Row
prompt_rows per_slot end [] batch = ([], batch)
prompt_rows per_slot end (slot ∷ slots) batch =
    let skip = prompt_rows per_slot end slots batch in
    let n = min (length slot.prompt - slot.n_past) (min per_slot (end - length batch)) in
    let (slot', batch') = feed n slot batch in
    let next = prompt_rows per_slot end slots batch' in
    if is_prefill slot.state then (slot' ∷ next.0, next.1) else (slot ∷ skip.0, skip.1)

-- The tokens that prompts may add to a batch of `n` rows.
unfoldable pub prompt_budget : Config → ℕ → ℕ
prompt_budget c n =
    let room = c.n_batch - n in
    if c.tick_tokens == 0 then room else min room (max 1 (c.tick_tokens - n))

abbrev pub no_row : Slot → Slot
no_row slot = record slot { i_batch = none }

unfoldable pub build_batch : Config → List Slot → List Slot × List Row
build_batch c slots =
    let (slots', batch) = decode_rows c.n_batch (map no_row slots) [] in
    let n_prefilling = count_prefilling slots' in
    let budget = prompt_budget c (length batch) in
    let filled = prompt_rows (max 1 (budget / n_prefilling)) (length batch + budget) slots' batch in
    if n_prefilling == 0 then (slots', batch) else filled
