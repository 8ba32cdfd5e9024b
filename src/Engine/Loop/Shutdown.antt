-- ===== src/Engine/Loop/Shutdown.antt =====
-- The code behind the loop of `onyx_engine::loop`: whose request is answered when the engine stops.
use onyx_engine.Prelude.{
  ℕ, ◌≡◌, refl, ap, ◌∙◌, Bool, true, false, Option, none, some, List, [], ◌∷◌,
}
use onyx_engine.Engine.Types.{Slot, GenRequest, shutting_down, cancel_reason, is_idle}
use onyx_engine.Engine.Llama.{Llama}
use onyx_engine.Engine.Emit.{Core, finish}
use onyx_engine.Engine.Emit.Identity.{finished_ids, finish-id}
use onyx_engine.Engine.Decode.{each_slot}
use onyx_engine.Engine.Loop.{Engine, shut_slot, refuse_pending, shutdown}

-- A busy slot holds its request.
pub data IsServing : Slot → Type 0 where
  rests : {slot : Slot} → is_idle slot.state ≡ true → IsServing slot
  serves :
      {slot : Slot} (req : GenRequest)
      → is_idle slot.state ≡ false
      → slot.req ≡ some req
      → IsServing slot

pub data AllServing : List Slot → Type 0 where
  no_slots : AllServing []
  more_slots :
      {slot : Slot} {slots : List Slot}
      → IsServing slot
      → AllServing slots
      → AllServing (slot ∷ slots)

-- The requests of a list, the last one first, before those of another list.
unfoldable pub answered : List GenRequest → List ℕ → List ℕ
answered [] ids = ids
answered (req ∷ reqs) ids = answered reqs (req.id ∷ ids)

unfoldable pub serving_id : Bool → Option GenRequest → List ℕ → List ℕ
serving_id true req ids = ids
serving_id false none ids = ids
serving_id false (some req) ids = req.id ∷ ids

unfoldable pub served : List Slot → List ℕ → List ℕ
unfolding serving_id
served [] ids = ids
served (slot ∷ slots) ids = served slots (serving_id (is_idle slot.state) slot.req ids)

unfoldable pub AllIdle : List Slot → Type 0
AllIdle [] = Unit
AllIdle (slot ∷ slots) = (is_idle slot.state ≡ true) × AllIdle slots

refuse_pending-ids :
    (L : Llama) (core : Core L) (queue : List GenRequest)
    → finished_ids (refuse_pending L core queue).finished
      ≡ answered queue (finished_ids core.finished)
unfolding refuse_pending finished_ids answered
refuse_pending-ids L core [] = refl
refuse_pending-ids L core (req ∷ queue) = refuse_pending-ids L _ queue

shut_slot-idle :
    (L : Llama) (core : Core L) (slot : Slot)
    → IsServing slot
    → is_idle (shut_slot L core slot).1.state ≡ true
unfolding shut_slot finish
shut_slot-idle L core slot (rests e) = rw (e, shut_slot) e
shut_slot-idle L core slot (serves req e q) = rw (e, q, shut_slot) refl

shut_slot-ids :
    (L : Llama) (core : Core L) (slot : Slot)
    → IsServing slot
    → finished_ids (shut_slot L core slot).0.finished
      ≡ serving_id (is_idle slot.state) slot.req (finished_ids core.finished)
unfolding shut_slot serving_id
shut_slot-ids L core slot (rests e) = rw (e, shut_slot) refl
shut_slot-ids L core slot (serves req e q) =
    simp (e, q, shut_slot) (finish-id L core slot req cancel_reason (some shutting_down))

shut_slots :
    (L : Llama) (core : Core L) (slots : List Slot)
    → AllServing slots
    → AllIdle (each_slot (shut_slot L) core slots).1
      × (finished_ids (each_slot (shut_slot L) core slots).0.finished
          ≡ served slots (finished_ids core.finished))
unfolding each_slot served AllIdle
shut_slots L core [] no_slots = (tt, refl)
shut_slots L core (slot ∷ slots) (more_slots s h) =
    let (idles, ids) = shut_slots L (shut_slot L core slot).0 slots h in
    (
      (shut_slot-idle L core slot s, idles),
      ids ∙ ap (λ (t : List ℕ). served slots t) (shut_slot-ids L core slot s),
    )

-- Where every busy slot holds its request, the shutdown leaves nobody waiting: the queue is empty,
-- every slot is idle, and the requests that were in the slots and then those that were in the queue
-- are finished and their callers notified, each exactly once and in that order, on top of the ones
-- that were finished before.
pub shutdown-answers :
    (L : Llama) (e : Engine L)
    → AllServing e.slots
    → ((shutdown L e).queue ≡ [])
      × (AllIdle (shutdown L e).slots
          × (finished_ids (shutdown L e).core.finished
              ≡ answered e.queue (served e.slots (finished_ids e.core.finished))))
unfolding shutdown
shutdown-answers L e h =
    let (idles, ids) = shut_slots L e.core e.slots h in
    (refl, (idles, refuse_pending-ids L _ e.queue ∙ ap (λ (t : List ℕ). answered e.queue t) ids))
