-- ===== src/Engine/Shift.antt =====
-- src/engine.cpp: `onyx_engine::context_shift`.
pub mod Laws
use onyx_engine.Prelude.{
  ℕ, zero, suc, ◌+◌, ◌-◌, ◌/◌, min, Bool, true, false, Option, none, some, List, length, take, set,
  get_or, leb, ltb, ◌==◌, if◌then◌else◌,
}
use onyx_engine.Args.Types.{next_i32}
use onyx_engine.Engine.Types.{Config, Slot, GenRequest}
use onyx_engine.Engine.Llama.{Llama}
use onyx_engine.Engine.Emit.{Core}

-- `for (i = from; i < size; i++) cache_tokens[i - n_discard] = cache_tokens[i]`, by the rounds left.
unfoldable pub move_down : ℕ → ℕ → ℕ → List ℕ → List ℕ
move_down zero i n_discard cache = cache
move_down (suc rounds) i n_discard cache =
    move_down rounds (i + 1) n_discard (set cache (i - n_discard) (get_or cache i 0))

-- The loop and the `resize` after it.
unfoldable pub discard : ℕ → ℕ → List ℕ → List ℕ
discard n_keep n_discard cache =
    take (length cache - n_discard)
      (move_down (length cache - (n_keep + n_discard)) (n_keep + n_discard) n_discard cache)

-- How many tokens at the front are kept, and how many behind them are dropped. Subtraction on ℕ
-- stops at 0, where the code clamps to 0; the sum with BOS is an `int32_t`.
unfoldable pub kept_front : Config → Slot → ℕ
kept_front c slot =
    let n_keep : ℕ = elim c.n_keep [ none ↦ length slot.prompt | some n ↦ n ] in
    let n_keep' = if c.add_bos then next_i32 n_keep else n_keep in min (c.n_ctx_slot - 4) n_keep'

unfoldable pub discarded : Config → Slot → ℕ
discarded c slot = let n_left = slot.n_past - kept_front c slot in min (n_left / 2) (n_left - 1)

module _ (L : Llama) where
  -- The new state of llama.cpp, and the slot and request unless the shift is impossible.
  unfoldable pub context_shift :
      Config → L.World → Slot → GenRequest → L.World × Option (Slot × GenRequest)
  context_shift c world slot req =
      let n_keep = kept_front c slot in
      let n_discard = discarded c slot in
      let (cut, removed) = L.seq_rm world slot.seq_id (some n_keep) (some (n_keep + n_discard)) in
      if n_discard == 0
      then (world, none)
      else if removed
      then (
        L.seq_add_neg cut slot.seq_id (n_keep + n_discard) slot.n_past n_discard,
        some (
          record slot {
            cache_tokens = discard n_keep n_discard slot.cache_tokens;
            n_past = slot.n_past - n_discard;
          },
          record req { result = record req.result { truncated = true } },
        ),
      )
      else (cut, none)
