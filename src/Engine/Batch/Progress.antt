-- ===== src/Engine/Batch/Progress.antt =====
-- The prompt tokens left behind `onyx_engine::build_batch` (src/engine.cpp).
use onyx_engine.Prelude.{
  ℕ, zero, suc, ◌+◌, ◌-◌, ◌/◌, ◌≤◌, ◌<◌, min, max, ◌≡◌, refl, ap, ◌∙◌, inl, inr, true, false, List,
  [], ◌∷◌, map, length, arith, ◌==◌, ==_iff, if◌then◌else◌, Bool-cases,
}
use onyx_engine.Engine.Types.{Config, Slot, is_prefill}
use onyx_engine.Engine.Llama.{Row}
use onyx_engine.Engine.Batch.{
  batch_add, decode_rows, put_next, put_prompt, prompt_row, feed, prompt_rows, prompt_budget,
  count_prefilling, no_row, build_batch,
}
use onyx_engine.Engine.Batch.Bounds.{decoded, budget, decoded-le_slots, length-feed}

-- The prompt tokens that the prefilling slots have yet to evaluate.
unfoldable pub remaining : List Slot → ℕ
remaining [] = 0
remaining (slot ∷ slots) =
    let rest = remaining slots in
    if is_prefill slot.state then (length slot.prompt - slot.n_past) + rest else rest

feed_lem :
    (n : ℕ) (slot : Slot) (batch : List Row)
    → ((feed n slot batch).0.n_past ≡ slot.n_past + n)
      × ((feed n slot batch).0.prompt ≡ slot.prompt)
      × ((feed n slot batch).0.state ≡ slot.state)
unfolding feed
feed_lem zero slot batch = (omega arith, refl, refl)
feed_lem (suc n) slot batch =
    let (a, b, d) = feed_lem n (put_prompt slot (length batch)) (prompt_row slot batch) in
    (omega (arith, a), b, d)

remaining-prefill :
    (slot : Slot) (slots : List Slot)
    → is_prefill slot.state ≡ true
    → remaining (slot ∷ slots) ≡ (length slot.prompt - slot.n_past) + remaining slots
unfolding remaining
remaining-prefill slot slots e = rw e

remaining-other :
    (slot : Slot) (slots : List Slot)
    → is_prefill slot.state ≡ false
    → remaining (slot ∷ slots) ≡ remaining slots
unfolding remaining
remaining-other slot slots e = rw e

module _ (per_slot end : ℕ) where
  chunk : Slot → List Row → ℕ
  chunk slot batch = min (length slot.prompt - slot.n_past) (min per_slot (end - length batch))

  prompt_rows-skip :
      (slot : Slot) (slots : List Slot) (batch : List Row)
      → is_prefill slot.state ≡ false
      → remaining (prompt_rows per_slot end (slot ∷ slots) batch).0
        ≡ remaining (prompt_rows per_slot end slots batch).0
  unfolding prompt_rows
  prompt_rows-skip slot slots batch e = rw (e, prompt_rows) (remaining-other slot _ e)

  prompt_rows-take :
      (slot : Slot) (slots : List Slot) (batch : List Row)
      → is_prefill slot.state ≡ true
      → remaining (prompt_rows per_slot end (slot ∷ slots) batch).0
        ≡ (length slot.prompt - (slot.n_past + chunk slot batch))
          + remaining (prompt_rows per_slot end slots (feed (chunk slot batch) slot batch).1).0
  unfolding prompt_rows chunk
  prompt_rows-take slot slots batch e =
      let (a, b, d) = feed_lem (chunk slot batch) slot batch in
      rw (e, prompt_rows)
        (remaining-prefill (feed (chunk slot batch) slot batch).0 _ (ap is_prefill d ∙ e)
          ∙ rw (a, b) refl)

  prompt_rows-le :
      (slots : List Slot) (batch : List Row)
      → remaining (prompt_rows per_slot end slots batch).0 ≤ remaining slots
  unfolding prompt_rows
  prompt_rows-le [] batch = omega arith
  prompt_rows-le (slot ∷ slots) batch = elim (Bool-cases (is_prefill slot.state)) [
    | inr e ↦ omega (
      arith,
      prompt_rows-skip slot slots batch e,
      remaining-other slot slots e,
      prompt_rows-le slots batch,
    )
    | inl e ↦ omega (
      arith,
      prompt_rows-take slot slots batch e,
      remaining-prefill slot slots e,
      prompt_rows-le slots (feed (chunk slot batch) slot batch).1,
    )
  ]

  prompt_rows-lt :
      (slots : List Slot) (batch : List Row)
      → length batch < end
      → 0 < per_slot
      → 0 < remaining slots
      → remaining (prompt_rows per_slot end slots batch).0 < remaining slots
  unfolding chunk remaining
  prompt_rows-lt [] batch l p r = absurd (omega arith)
  prompt_rows-lt (slot ∷ slots) batch l p r = elim (Bool-cases (is_prefill slot.state)) [
    | inr e ↦ omega (
      arith,
      prompt_rows-skip slot slots batch e,
      remaining-other slot slots e,
      prompt_rows-lt slots batch l p (omega (arith, remaining-other slot slots e)),
    )
    | inl e ↦ elim (Bool-cases (length slot.prompt - slot.n_past == 0)) [
      | inr f ↦ omega (
        arith,
        nonzero f,
        prompt_rows-take slot slots batch e,
        remaining-prefill slot slots e,
        prompt_rows-le slots (feed (chunk slot batch) slot batch).1,
      )
      | inl f ↦
          let done : length slot.prompt - slot.n_past ≡ 0 = (==_iff _ _).0 f in
          omega (
            arith,
            prompt_rows-take slot slots batch e,
            remaining-prefill slot slots e,
            prompt_rows-lt slots (feed (chunk slot batch) slot batch).1
                (omega (arith, length-feed (chunk slot batch) slot batch)) p
                (omega (arith, remaining-prefill slot slots e)),
          )
    ]
  ]
    where
      nonzero :
          (length slot.prompt - slot.n_past == 0) ≡ false → 0 < length slot.prompt - slot.n_past
      nonzero f = ground arith

-- The first loop touches no prompt.
remaining-decode_rows :
    (n_batch : ℕ) (slots : List Slot) (batch : List Row)
    → remaining (decode_rows n_batch slots batch).0 ≡ remaining slots
unfolding decode_rows remaining put_next
remaining-decode_rows n_batch [] batch = refl
remaining-decode_rows n_batch (slot ∷ slots) batch = ground (
  arith,
  remaining-decode_rows n_batch slots batch,
  remaining-decode_rows n_batch slots (batch_add batch slot.sampled slot.n_past slot.seq_id true),
)

remaining-no_row : (slots : List Slot) → remaining (map no_row slots) ≡ remaining slots
unfolding remaining
remaining-no_row [] = refl
remaining-no_row (slot ∷ slots) = ground (arith, remaining-no_row slots)

count_prefilling-remaining :
    (slots : List Slot) → 0 < remaining slots → (count_prefilling slots == 0) ≡ false
unfolding remaining count_prefilling
count_prefilling-remaining [] r = absurd (omega arith)
count_prefilling-remaining (slot ∷ slots) r = ground (arith, count_prefilling-remaining slots)

prompt_budget-pos : (c : Config) (n : ℕ) → n < c.n_batch → 0 < prompt_budget c n
unfolding prompt_budget
prompt_budget-pos c n h = ground arith

-- If the batch has more rows than there are slots, and some slot has prompt tokens left to
-- evaluate, then every build leaves fewer of them, so no prompt waits for ever behind the slots
-- that generate.
pub build_batch-remaining :
    (c : Config) (slots : List Slot)
    → length slots < c.n_batch
    → 0 < remaining slots
    → remaining (build_batch c slots).0 < remaining slots
unfolding build_batch
build_batch-remaining c slots h r =
    rw (count_prefilling-remaining (decoded c slots).0 (omega (arith, same)), build_batch)
      (omega (
        arith,
        same,
        prompt_rows-lt (max 1 (budget c slots / count_prefilling (decoded c slots).0))
            (length (decoded c slots).1 + budget c slots) (decoded c slots).0 (decoded c slots).1
            (omega (
              arith,
              prompt_budget-pos c (length (decoded c slots).1)
                  (omega (arith, decoded-le_slots c slots)),
            ))
            (omega arith) (omega (arith, same)),
      ))
  where
    same : remaining (decoded c slots).0 ≡ remaining slots
    same = remaining-decode_rows c.n_batch (map no_row slots) [] ∙ remaining-no_row slots
