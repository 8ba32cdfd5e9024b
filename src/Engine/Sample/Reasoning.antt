-- ===== src/Engine/Sample/Reasoning.antt =====
-- The reasoning-budget machine of `sample_slot`.
use onyx_engine.Prelude.{
  ℕ, ◌≤◌, ◌<◌, ◌≡◌, ◌⊎◌, inl, inr, true, some, List, arith, length, if◌then◌else◌, Bool-cases,
}
use onyx_engine.Engine.Types.{Slot, ReasoningBudget, rb_counting, rb_forcing, rb_done}
use onyx_engine.Engine.Sample.{rb_enter, forcing, rb_force, rb_scan, match_tag}

-- One token of a request: the budget check, then a forced token or the sampled one.
unfoldable pub rb_token : ReasoningBudget → Slot → ℕ → Slot
rb_token rb slot tok =
    let slot' = rb_enter rb slot in
    if forcing rb slot' then (rb_force rb slot').1 else rb_scan rb slot' tok

-- How far into a tag the match can stand: within it, or at its beginning.
abbrev InTag : List ℕ → ℕ → Type 0
InTag tag matched = (matched < length tag) ⊎ (matched ≡ 0)

-- Between two tokens: the tag positions lie in their tags, and the budget is not overrun.
pub record InBudget (rb : ReasoningBudget) (slot : Slot) : Type 0 where
  pub start_in : InTag rb.start_tag slot.rb_start_match
  pub end_in : (slot.rb_state ≡ rb_done) ⊎ InTag rb.end_tag slot.rb_end_match
  pub within : (b : ℕ) → rb.budget ≡ some b → slot.rb_state ≡ rb_counting → slot.rb_count ≤ b
  pub forced_in : slot.rb_state ≡ rb_forcing → slot.rb_forced_idx ≤ length rb.forced

rb_enter-InBudget :
    (rb : ReasoningBudget) (slot : Slot) → InBudget rb slot → InBudget rb (rb_enter rb slot)
unfolding rb_enter
rb_enter-InBudget rb slot v = record {
  start_in = ground (arith, v.start_in);
  end_in = ground (arith, v.end_in);
  within = λ b e c. ground (arith, v.within b e);
  forced_in = ground (arith, v.forced_in);
}

-- After the check a budget still counting has room.
rb_enter-room :
    (rb : ReasoningBudget) (slot : Slot) (b : ℕ)
    → rb.budget ≡ some b
    → (rb_enter rb slot).rb_state ≡ rb_counting
    → (rb_enter rb slot).rb_count < b
unfolding rb_enter
rb_enter-room rb slot b e c = ground arith

rb_force-InBudget :
    (rb : ReasoningBudget) (slot : Slot)
    → forcing rb slot ≡ true
    → InBudget rb slot
    → InBudget rb (rb_force rb slot).1
unfolding rb_force forcing
rb_force-InBudget rb slot f v = record {
  start_in = ground (arith, v.start_in);
  end_in = ground (arith, v.end_in);
  within = λ b e c. ground (arith, v.within b e);
  forced_in = ground (arith, v.forced_in);
}

rb_scan-InBudget :
    (rb : ReasoningBudget) (slot : Slot) (tok : ℕ)
    → ((b : ℕ) → rb.budget ≡ some b → slot.rb_state ≡ rb_counting → slot.rb_count < b)
    → InBudget rb slot
    → InBudget rb (rb_scan rb slot tok)
unfolding rb_scan match_tag
rb_scan-InBudget rb slot tok room v = record {
  start_in = ground (arith, v.start_in);
  end_in = ground (arith, v.end_in);
  within = λ b e c. ground (arith, v.within b e, room b e);
  forced_in = ground (arith, v.forced_in);
}

-- If the positions matched of the tags lie within the tags, the tokens counted keep to the budget,
-- and the position in the forced tokens lies within them, then so it is after the next token,
-- forced or sampled.
pub rb_token-InBudget :
    (rb : ReasoningBudget) (slot : Slot) (tok : ℕ)
    → InBudget rb slot
    → InBudget rb (rb_token rb slot tok)
unfolding rb_token
rb_token-InBudget rb slot tok v = elim (Bool-cases (forcing rb (rb_enter rb slot))) [
  | inl e ↦ rw e (rb_force-InBudget rb (rb_enter rb slot) e (rb_enter-InBudget rb slot v))
  | inr e ↦ rw e (
      rb_scan-InBudget rb (rb_enter rb slot) tok (rb_enter-room rb slot)
        (rb_enter-InBudget rb slot v))
]
