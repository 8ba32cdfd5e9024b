-- ===== src/Engine/Loop.antt =====
-- src/engine.cpp: `onyx_engine::loop`: what wakes it, one tick, and the shutdown behind it. The
-- engine is the state of the loop thread together with the queue.
pub mod Total
pub mod Shutdown
pub mod Account
use onyx_engine.Prelude.{
  ℕ, ◌+◌, Bool, true, false, not, ◌&&◌, ◌||◌, Option, none, some, List, [], ◌∷◌, ◌++◌, length,
  if◌then◌else◌,
}
use onyx_engine.Engine.Types.{
  Config, Slot, GenRequest, GenError, stop_reason, cancel_reason, shutting_down, tick_failed,
  is_idle,
}
use onyx_engine.Engine.Llama.{Llama, Row}
use onyx_engine.Engine.Emit.{Core, finish}
use onyx_engine.Engine.Batch.{build_batch}
use onyx_engine.Engine.Decode.{each_slot, decode_batch}
use onyx_engine.Engine.Queue.{is_empty}
use onyx_engine.Engine.Admit.{Admitted, admit_queued}

pub record Engine (L : Llama) : Type 0 where
  pub core : Core L
  pub slots : List Slot
  pub queue : List GenRequest

unfoldable pub any_busy : List Slot → Bool
any_busy [] = false
any_busy (slot ∷ slots) = not (is_idle slot.state) || any_busy slots

-- The predicate that the loop waits for.
unfoldable pub wakes : Bool → List Slot → List GenRequest → Bool
unfolding any_busy
wakes stop slots queue = stop || not (is_empty queue) || any_busy slots

module _ (L : Llama) where
  -- Ends the request of a busy slot.
  unfoldable pub end_slot :
      (Slot → GenRequest → Bool)
      → (Slot → Slot)
      → (Core L → Slot → GenRequest → Core L × Slot)
      → Core L
      → Slot
      → Core L × Slot
  end_slot test reset ending core slot =
      if is_idle slot.state then (core, slot) else (elim slot.req [
        | none ↦ (core, slot)
        | some req ↦ if test slot req then ending core (reset slot) req else (core, slot)
      ])

  -- A slot whose caller gave up.
  unfoldable pub release_cancelled : Core L → Slot → Core L × Slot
  unfolding end_slot
  release_cancelled =
      end_slot (λ slot req. req.cancelled) (λ slot. slot)
        (λ core slot req. finish L core slot req cancel_reason none)

  -- The `catch` of a tick, slot by slot; the memory is cleared before.
  unfoldable pub fail_slot : Core L → Slot → Core L × Slot
  unfolding end_slot
  fail_slot =
      end_slot (λ slot req. true) (λ slot. record slot { cache_tokens = []; n_past = 0 })
        (λ core slot req. finish L core slot req stop_reason (some tick_failed))

  unfoldable pub abandon : Core L → List Slot → List GenRequest → Engine L
  unfolding fail_slot
  abandon core slots queue =
      let cleared = record core { world = L.memory_clear core.world } in
      let (core', slots') = each_slot fail_slot cleared slots in
      record { core = core'; slots = slots'; queue = queue }

  after_decode : List GenRequest → Option ((Core L × List Slot) × Bool) → Option (Engine L)
  after_decode queue none = none
  after_decode queue (some ((core, slots), decoded)) =
      some (record { core = core; slots = slots; queue = queue })

  run_batch : Config → Core L → List Slot → List GenRequest → Option (Engine L)
  unfolding after_decode
  run_batch c core slots queue =
      let (slots', batch) = build_batch c slots in
      if is_empty batch
      then some (record { core = core; slots = slots'; queue = queue })
      else after_decode queue (decode_batch L c batch core slots')

  -- One round of the loop.
  unfoldable pub tick : Config → Engine L → Option (Engine L)
  unfolding release_cancelled abandon run_batch
  tick c e =
      let (core, slots) = each_slot release_cancelled e.core e.slots in
      let a = admit_queued L c core slots e.queue in
      if a.thrown then some (abandon a.core a.slots a.queue) else run_batch c a.core a.slots a.queue

  -- The code behind the loop: nobody is left waiting.
  unfoldable pub shut_slot : Core L → Slot → Core L × Slot
  unfolding end_slot
  shut_slot =
      end_slot (λ slot req. true) (λ slot. slot)
        (λ core slot req. finish L core slot req cancel_reason (some shutting_down))

  refuse_pending : Core L → List GenRequest → Core L
  refuse_pending core [] = core
  refuse_pending core (req ∷ queue) =
      refuse_pending
        (record core {
          finished =
              record req {
                smpl = false;
                result = record req.result { error = some shutting_down };
                finished = true;
              }
              ∷ core.finished;
        })
        queue

  unfoldable pub shutdown : Engine L → Engine L
  unfolding shut_slot refuse_pending
  shutdown e =
      let (core, slots) = each_slot shut_slot e.core e.slots in
      record { core = refuse_pending core e.queue; slots = slots; queue = [] }
