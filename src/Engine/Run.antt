-- ===== src/Engine/Run.antt =====
-- src/engine.cpp: how the loop thread and the callers of `generate` take turns. A caller submits its
-- request and consumes its pieces while the loop ticks; what they share is locked, so a run is a
-- sequence of these steps. The steps behind the shutdown are left out: the loop has ended.
pub mod Conserve
use onyx_engine.Prelude.{ℕ, ◌≡◌, Bool, ◌==◌, if◌then◌else◌, Option, none, some, List, [], ◌∷◌, map}
use onyx_engine.Engine.Types.{Config, Slot, GenRequest, GenParams}
use onyx_engine.Engine.Llama.{Llama}
use onyx_engine.Engine.Emit.{Core}
use onyx_engine.Engine.Queue.{Submitted, refused, queued, submit, deliver}
use onyx_engine.Engine.Loop.{Engine, tick}
use onyx_engine.Engine.Load.{new_slots, new_engine}

-- The caller of the request `id` takes a piece or polls; `keep` is what its callback answers.
unfoldable pub touch : ℕ → Bool → GenRequest → GenRequest
unfolding deliver
touch id keep req = if req.id == id then deliver req keep else req

unfoldable pub touch_held : ℕ → Bool → Option GenRequest → Option GenRequest
unfolding touch
touch_held id keep none = none
touch_held id keep (some req) = some (touch id keep req)

abbrev touch_slot : ℕ → Bool → Slot → Slot
touch_slot id keep slot = record slot { req = touch_held id keep slot.req }

module _ (L : Llama) where
  -- The request is shared: its caller sees it wherever the engine holds it.
  unfoldable pub consume : ℕ → Bool → Engine L → Engine L
  unfolding touch_held
  consume id keep e = record e {
    core = record e.core { finished = map (touch id keep) e.core.finished };
    slots = map (touch_slot id keep) e.slots;
    queue = map (touch id keep) e.queue;
  }

  -- The requests let into the queue so far, the last one first.
  unfoldable pub accepted : Submitted → List ℕ → List ℕ
  accepted (refused result) ids = ids
  accepted (queued req) ids = req.id ∷ ids

  -- A caller's part of `generate` in front of its wait.
  unfoldable pub arrive : Config → ℕ → GenParams → Bool → Bool → Engine L → Engine L × Submitted
  unfolding submit
  arrive c id params wants_pieces sampler_ok e =
      let ((core, queue), answer) = submit L c e.core e.queue id params wants_pieces sampler_ok in
      (record e { core = core; queue = queue }, answer)

  pub data Run (c : Config) : List ℕ → Engine L → Type 0 where
    starts :
        (world : L.World) (n_parallel : ℕ) → Run c [] (new_engine L world (new_slots n_parallel 0))
    arrives :
        (ids : List ℕ) (e : Engine L) (id : ℕ) (params : GenParams) (wants_pieces sampler_ok : Bool)
        → Run c ids e
        → Run c
            (accepted (arrive c id params wants_pieces sampler_ok e).1 ids)
            (arrive c id params wants_pieces sampler_ok e).0
    consumes :
        (ids : List ℕ) (e : Engine L) (id : ℕ) (keep : Bool)
        → Run c ids e
        → Run c ids (consume id keep e)
    ticks :
        (ids : List ℕ) (e : Engine L) (e' : Engine L)
        → Run c ids e
        → tick L c e ≡ some e'
        → Run c ids e'
