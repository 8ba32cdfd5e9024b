-- ===== src/Engine/Batch/Bounds.antt =====
-- The size of the batches of `onyx_engine::build_batch` (src/engine.cpp).
use onyx_engine.Prelude.{
  ℕ, zero, suc, ◌+◌, ◌-◌, ◌/◌, ◌≤◌, ◌<◌, min, max, ◌≡◌, refl, ap, inl, inr, true, List, [], ◌∷◌,
  map, length, length-append, arith, ◌==◌, Bool-cases,
}
use onyx_engine.Engine.Types.{Config, Slot, is_prefill}
use onyx_engine.Engine.Llama.{Row}
use onyx_engine.Engine.Batch.{
  batch_add, decode_rows, put_prompt, prompt_row, feed, prompt_rows, prompt_budget,
  count_prefilling, no_row, build_batch,
}

decode_rows-le :
    (n_batch : ℕ) (slots : List Slot) (batch : List Row)
    → length batch ≤ n_batch
    → length (decode_rows n_batch slots batch).1 ≤ n_batch
unfolding decode_rows
decode_rows-le n_batch [] batch h = h
decode_rows-le n_batch (slot ∷ slots) batch h = ground (
  arith,
  length-append batch (
      record { token = slot.sampled; pos = slot.n_past; seq_id = slot.seq_id; logits = true } ∷ []),
  decode_rows-le n_batch slots batch,
  decode_rows-le n_batch slots (batch_add batch slot.sampled slot.n_past slot.seq_id true),
)

-- At most one row for each slot.
decode_rows-le_slots :
    (n_batch : ℕ) (slots : List Slot) (batch : List Row)
    → length (decode_rows n_batch slots batch).1 ≤ length batch + length slots
unfolding decode_rows
decode_rows-le_slots n_batch [] batch = omega arith
decode_rows-le_slots n_batch (slot ∷ slots) batch = ground (
  arith,
  length-append batch (
      record { token = slot.sampled; pos = slot.n_past; seq_id = slot.seq_id; logits = true } ∷ []),
  decode_rows-le_slots n_batch slots batch,
  decode_rows-le_slots n_batch slots (batch_add batch slot.sampled slot.n_past slot.seq_id true),
)

pub length-feed :
    (n : ℕ) (slot : Slot) (batch : List Row) → length (feed n slot batch).1 ≡ length batch + n
unfolding feed
length-feed zero slot batch = omega arith
length-feed (suc n) slot batch = omega (
  arith,
  length-feed n (put_prompt slot (length batch)) (prompt_row slot batch),
  length-prompt_row,
)
  where
    length-prompt_row : length (prompt_row slot batch) ≡ length batch + 1
    length-prompt_row = length-append batch _

prompt_rows-le :
    (per_slot end : ℕ) (slots : List Slot) (batch : List Row)
    → length batch ≤ end
    → length (prompt_rows per_slot end slots batch).1 ≤ end
unfolding prompt_rows
prompt_rows-le per_slot end [] batch h = h
prompt_rows-le per_slot end (slot ∷ slots) batch h = elim (Bool-cases (is_prefill slot.state)) [
  | inr e ↦ rw (e, prompt_rows) (prompt_rows-le per_slot end slots batch h)
  | inl e ↦
      rw (e, prompt_rows)
        (prompt_rows-le per_slot end slots _ (omega (arith, length-feed n slot batch)))
]
  where
    n : ℕ
    n = min (length slot.prompt - slot.n_past) (min per_slot (end - length batch))

pub prompt_budget_bounds :
    (c : Config) (n : ℕ)
    → n ≤ c.n_batch
    → (n + prompt_budget c n ≤ c.n_batch)
      × (0 < c.tick_tokens → n + prompt_budget c n ≤ max c.tick_tokens (n + 1))
unfolding prompt_budget
prompt_budget_bounds c n h = (ground arith, λ t. ground arith)

module _ (c : Config) (slots : List Slot) where
  -- The slots and rows behind the first loop.
  abbrev pub decoded : List Slot × List Row
  decoded = decode_rows c.n_batch (map no_row slots) []

  abbrev pub budget : ℕ
  budget = prompt_budget c (length decoded.1)

  decoded-le : length decoded.1 ≤ c.n_batch
  decoded-le = decode_rows-le c.n_batch (map no_row slots) [] (omega arith)

  length-map-no_row : (ss : List Slot) → length (map no_row ss) ≡ length ss
  length-map-no_row [] = refl
  length-map-no_row (s ∷ ss) = ap suc (length-map-no_row ss)

  pub decoded-le_slots : length decoded.1 ≤ length slots
  decoded-le_slots =
      omega (arith, decode_rows-le_slots c.n_batch (map no_row slots) [], length-map-no_row slots)

  -- A batch holds the decode rows, or in addition at most `budget` prompt rows.
  build_batch-le_budget : length (build_batch c slots).1 ≤ length decoded.1 + budget
  unfolding build_batch
  build_batch-le_budget = elim (Bool-cases (count_prefilling decoded.0 == 0)) [
    | inl e ↦ rw (e, build_batch) (omega arith)
    | inr e ↦
        rw (e, build_batch)
          (prompt_rows-le (max 1 (budget / count_prefilling decoded.0)) (length decoded.1 + budget)
            decoded.0 decoded.1 (omega arith))
  ]

  -- The rows of a batch never exceed `n_batch`, the capacity that the batch was allocated with.
  pub build_batch-le : length (build_batch c slots).1 ≤ c.n_batch
  build_batch-le =
      omega (arith, build_batch-le_budget, (prompt_budget_bounds c (length decoded.1) decoded-le).0)

  -- With a limit on the tokens of a tick, a batch has at most that many rows or, if that is more,
  -- one row more than there are slots.
  pub build_batch-le_tick :
      0 < c.tick_tokens → length (build_batch c slots).1 ≤ max c.tick_tokens (length slots + 1)
  build_batch-le_tick h = omega (
    arith,
    build_batch-le_budget,
    (prompt_budget_bounds c (length decoded.1) decoded-le).1 h,
    decoded-le_slots,
  )
