-- ===== src/Engine/Loop/Total.antt =====
-- One tick of `onyx_engine::loop` (src/engine.cpp).
use onyx_engine.Prelude.{◌<◌, ◌≢◌, refl, inl, inr, Bool, Option, none, some, List, Bool-cases}
use onyx_engine.Engine.Types.{Config, Slot, GenRequest}
use onyx_engine.Engine.Llama.{Llama, Row}
use onyx_engine.Engine.Emit.{Core}
use onyx_engine.Engine.Batch.{build_batch}
use onyx_engine.Engine.Decode.{each_slot}
use onyx_engine.Engine.Decode.Termination.{decode_batch-ne-none}
use onyx_engine.Engine.Queue.{is_empty}
use onyx_engine.Engine.Admit.{Admitted, admit_queued}
use onyx_engine.Engine.Loop.{Engine, release_cancelled, after_decode, run_batch, tick}

after_decode-ne-none :
    (L : Llama) (queue : List GenRequest) (r : Option ((Core L × List Slot) × Bool))
    → r ≢ none
    → after_decode L queue r ≢ none
unfolding after_decode
after_decode-ne-none L queue none h q = h refl
after_decode-ne-none L queue (some r) h q = absurd (cc)

run_batch-ne-none :
    (L : Llama) (c : Config) (core : Core L) (slots : List Slot) (queue : List GenRequest)
    → 0 < c.n_batch
    → run_batch L c core slots queue ≢ none
unfolding run_batch
run_batch-ne-none L c core slots queue pos = elim (Bool-cases (is_empty batch)) [
  | inl e ↦ rw (e, run_batch) (λ q. cc)
  | inr e ↦
      rw (e, run_batch) (after_decode-ne-none L queue _ (decode_batch-ne-none L c batch pos core _))
]
  where
    batch : List Row
    batch = (build_batch c slots).1

-- For a batch size of at least one, a tick of the loop ends: it gives a next engine state for every
-- state, every queue and whatever llama.cpp answers, so the retries of a decode never go on for ever.
pub tick-ne-none : (L : Llama) (c : Config) (e : Engine L) → 0 < c.n_batch → tick L c e ≢ none
unfolding tick
tick-ne-none L c e pos = elim (Bool-cases a.thrown) [
  | inl h ↦ rw (h, tick) (λ q. cc)
  | inr h ↦ rw (h, tick) (run_batch-ne-none L c a.core a.slots a.queue pos)
]
  where
    a : Admitted L
    a =
        (let (core, slots) = each_slot (release_cancelled L) e.core e.slots in
          admit_queued L c core slots e.queue)
