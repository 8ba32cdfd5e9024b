-- ===== src/Examples/Slots.antt =====
-- Examples on the slots: admission, batches, decoding, the context, the reasoning budget and the loop.
use onyx_engine.Prelude.{
  some, ◌≤◌, ◌<◌, ◌≡◌, ◌≢◌, refl, inr, true, false, none, some-injective, [], ◌∷◌, All, length,
  arith,
}
use onyx_engine.Engine.Types.{Slot, rb_forcing}
use onyx_engine.Engine.Shift.{context_shift}
use onyx_engine.Engine.Shift.Laws.{ShiftResult, context_shift-ShiftResult}
use onyx_engine.Engine.Sample.Reasoning.{rb_token, InBudget, rb_token-InBudget}
use onyx_engine.Engine.Sample.Forcing.{rb_run, rb_run-forced, match_run, match_run-misses}
use onyx_engine.Engine.Batch.{build_batch}
use onyx_engine.Engine.Batch.Bounds.{build_batch-le}
use onyx_engine.Engine.Batch.Rows.{LogitsRow, build_batch-LogitsRow}
use onyx_engine.Engine.Batch.Progress.{remaining, build_batch-remaining}
use onyx_engine.Engine.Admit.{slot_lcp, choose_slot, admit_to}
use onyx_engine.Engine.Admit.Choice.{Names, IsBest, choose_slot-IsBest}
use onyx_engine.Engine.Admit.Prefix.{IsAdmitted, admit_to-IsAdmitted}
use onyx_engine.Engine.Loop.{tick}
use onyx_engine.Engine.Loop.Total.{tick-ne-none}
use onyx_engine.Engine.Decision.{DecisionPrompt, shared_prefix, decision_reuse}
use onyx_engine.Engine.Decision.Sharing.{
  Shares, IsReuse, shared_prefix-Shares, decision_reuse-IsReuse,
}
use onyx_engine.Examples.Data.{
  toy, thinking, request, second_request, rested, talking, slots, core, config, engine,
}

admit_to-IsAdmitted_example :
    IsAdmitted toy config second_request
      (admit_to toy config core rested second_request (slot_lcp config second_request rested)).0.1
admit_to-IsAdmitted_example =
    admit_to-IsAdmitted toy config core rested second_request refl (omega arith)

choose_slot-IsBest_example :
    Names config second_request slots (choose_slot config second_request slots)
    × All (IsBest config second_request (choose_slot config second_request slots)) slots
choose_slot-IsBest_example = choose_slot-IsBest config second_request slots

build_batch-LogitsRow_example :
    All (LogitsRow (build_batch config slots).1) (build_batch config slots).0
build_batch-LogitsRow_example = build_batch-LogitsRow config slots

build_batch-le_example : length (build_batch config slots).1 ≤ 8
build_batch-le_example = build_batch-le config slots

build_batch-remaining_example : remaining (build_batch config slots).0 < remaining slots
unfolding remaining
build_batch-remaining_example = build_batch-remaining config slots (omega arith) (omega arith)

context_shift-ShiftResult_example :
    ShiftResult toy config 10 talking request (context_shift toy config 10 talking request).1
context_shift-ShiftResult_example = context_shift-ShiftResult toy config 10 talking request refl

talking-InBudget : InBudget thinking talking
talking-InBudget = record {
  start_in = inr refl;
  end_in = inr (inr refl);
  within = λ b e s. omega (arith, some-injective _ _ e);
  forced_in = λ e. omega arith;
}

rb_token-InBudget_example : InBudget thinking (rb_token thinking talking 98)
rb_token-InBudget_example = rb_token-InBudget thinking talking 98 talking-InBudget

abbrev forced : Slot
forced = record talking { rb_state = rb_forcing }

rb_run-forced_example : rb_run thinking forced (5 ∷ 6 ∷ 7 ∷ []) ≡ 10 ∷ 62 ∷ 7 ∷ []
rb_run-forced_example =
    rb_run-forced thinking forced (5 ∷ 6 ∷ []) (7 ∷ []) refl (omega arith) (omega arith)

match_run-misses_example : match_run (60 ∷ 60 ∷ 62 ∷ []) 0 (60 ∷ 60 ∷ 60 ∷ 62 ∷ []) ≡ false
match_run-misses_example = match_run-misses 60 62 (omega arith)

tick-ne-none_example : tick toy config engine ≢ none
tick-ne-none_example = tick-ne-none toy config engine (omega arith)

abbrev prompt_a : DecisionPrompt
prompt_a = record { tokens = 5 ∷ 6 ∷ 7 ∷ 8 ∷ []; first_read = some 3 }

abbrev prompt_b : DecisionPrompt
prompt_b = record { tokens = 5 ∷ 6 ∷ 9 ∷ []; first_read = none }

shared_prefix-Shares_example :
    All
      (Shares (5 ∷ 6 ∷ 7 ∷ 8 ∷ []) (shared_prefix true true false (prompt_a ∷ prompt_b ∷ [])))
      (prompt_a ∷ prompt_b ∷ [])
shared_prefix-Shares_example = shared_prefix-Shares true true false prompt_a (prompt_b ∷ [])

decision_reuse-IsReuse_example :
    IsReuse
      (5 ∷ 6 ∷ 9 ∷ [])
      2
      (decision_reuse toy true true 10 (5 ∷ 6 ∷ 7 ∷ 8 ∷ []) (5 ∷ 6 ∷ 9 ∷ []) 2).1
decision_reuse-IsReuse_example =
    decision_reuse-IsReuse toy true true 10 (5 ∷ 6 ∷ 7 ∷ 8 ∷ []) (5 ∷ 6 ∷ 9 ∷ []) 2
