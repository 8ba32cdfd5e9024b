-- ===== src/Engine/Decode.antt =====
-- src/engine.cpp: `onyx_engine::decode_batch`.
pub mod Termination
pub mod Account
use onyx_engine.Prelude.{
  ℕ, zero, suc, ◌+◌, ◌-◌, ◌*◌, ◌/◌, min, Bool, true, false, not, ◌&&◌, ◌||◌, Option, none, some,
  List, [], ◌∷◌, length, take, drop, leb, ltb, ◌==◌, if◌then◌else◌,
}
use onyx_engine.Engine.Types.{
  Config, Slot, Metrics, GenError, GenRequest, stop_reason, generation_failed, context_exceeded,
  invalid_batch, compute_error, is_idle,
}
use onyx_engine.Engine.Llama.{
  Llama, Row, DecodeCode, decode_ok, decode_full, decode_invalid, decode_error,
}
use onyx_engine.Engine.Emit.{Core, u64, finish}
use onyx_engine.Engine.Sample.{sample_slot}

-- A loop over the slots that changes each and what they share.
unfoldable pub each_slot {ℓ} : {S : Type ℓ} → (S → Slot → S × Slot) → S → List Slot → S × List Slot
each_slot f s [] = (s, [])
each_slot f s (slot ∷ slots) =
    let (s', slot') = f s slot in let (s'', slots') = each_slot f s' slots in (s'', slot' ∷ slots')

unfoldable pub count_busy : List Slot → ℕ
count_busy [] = 0
count_busy (slot ∷ slots) =
    let rest = count_busy slots in if is_idle slot.state then rest else rest + 1

-- Whether a slot's row lies in the view of `n` rows at `off`.
abbrev pub in_view : ℕ → ℕ → Option ℕ → Option ℕ
in_view off n none = none
in_view off n (some i) = if leb off i && ltb i (off + n) then some (i - off) else none

decode_failure : DecodeCode → GenError
decode_failure decode_full = context_exceeded
decode_failure decode_invalid = invalid_batch
decode_failure _ = compute_error

-- What the loop makes of an answer: go on behind the view, retry with a smaller one, or give up.
pub data ViewStep : Type 0 where
  advance : ViewStep
  shrink : ViewStep
  give_up : GenError → ViewStep

unfoldable pub view_step : DecodeCode → ℕ → ViewStep
unfolding decode_failure
view_step decode_ok n = advance
view_step decode_full n = if ltb 1 n then shrink else give_up (decode_failure decode_full)
view_step code n = give_up (decode_failure code)

-- Enough fuel for every batch: see Termination.
abbrev pub decode_fuel : Config → List Row → ℕ
decode_fuel c batch = length batch * (c.n_batch + 1) + c.n_batch + 1

module _ (L : Llama) where
  -- A busy slot loses its sequence and its request.
  unfoldable pub drop_slot : GenError → Core L → Slot → Core L × Slot
  drop_slot error core slot =
      let (world, removed) = L.seq_rm core.world slot.seq_id none none in
      let core' = record core { world = world } in
      let slot' = record slot { cache_tokens = []; n_past = 0 } in
      if is_idle slot.state then (core, slot) else (elim slot.req [
        | none ↦ (core, slot)
        | some req ↦ finish L core' slot' req stop_reason (some error)
      ])

  -- The `catch` around `sample_slot`.
  caught : (Core L × Slot) × Bool → Core L × Slot
  caught ((core, slot), false) = (core, slot)
  caught ((core, slot), true) = elim slot.req [
    | none ↦ (core, slot)
    | some req ↦ finish L core slot req stop_reason (some generation_failed)
  ]

  -- Samples a slot whose logits row landed in the view.
  unfoldable pub sample_in_view : Config → ℕ → ℕ → Core L → Slot → Core L × Slot
  unfolding caught
  sample_in_view c off n core slot = elim (in_view off n slot.i_batch) [
    | none ↦ (core, slot)
    | some tok_idx ↦ elim slot.req [
      | none ↦ (core, record slot { i_batch = none })
      | some req ↦ caught (sample_slot L c core (record slot { i_batch = none }) req (some tok_idx))
    ]
  ]

  count_decode : Metrics → List Slot → Metrics
  count_decode m slots = record m {
    n_decode = u64 (m.n_decode + 1);
    n_busy_slots = u64 (m.n_busy_slots + count_busy slots);
  }

  -- The loop over views, on fuel; `none` means that the fuel ran out, and the flag is the result.
  unfoldable pub decode_from :
      ℕ → Config → List Row → ℕ → ℕ → Core L → List Slot → Option ((Core L × List Slot) × Bool)
  unfolding count_decode
  decode_from zero c batch off n_view core slots = none
  decode_from (suc fuel) c batch off n_view core slots =
      let n = min n_view (length batch - off) in
      let (world, code) = L.decode core.world (take n (drop off batch)) in
      let core' = record core { world = world } in
      let shrunk = decode_from fuel c batch off (n / 2) core' slots in
      let counted = record core' { metrics = count_decode core.metrics slots } in
      let (sampled, slots') = each_slot (sample_in_view c off n) counted slots in
      let advanced = decode_from fuel c batch (off + n) c.n_batch sampled slots' in
      if leb (length batch) off then some ((core, slots), true) else (elim (view_step code n) [
        | advance ↦ advanced
        | shrink ↦ shrunk
        | give_up error ↦ some (each_slot (drop_slot error) core' slots, false)
      ])

  unfoldable pub decode_batch :
      Config → List Row → Core L → List Slot → Option ((Core L × List Slot) × Bool)
  decode_batch c batch core slots = decode_from (decode_fuel c batch) c batch 0 c.n_batch core slots
