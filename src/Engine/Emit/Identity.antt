-- ===== src/Engine/Emit/Identity.antt =====
-- The request that `onyx_engine::finish` hands over (src/engine.cpp).
use onyx_engine.Prelude.{ℕ, ◌≡◌, refl, ap, inl, inr, Option, List, [], ◌∷◌, Bool-cases}
use onyx_engine.Engine.Types.{Slot, GenRequest, GenResult, GenError, FinishReason}
use onyx_engine.Engine.Llama.{Llama}
use onyx_engine.Engine.Emit.{Core, emit, stamp, flush, owes, finish}

unfoldable pub finished_ids : List GenRequest → List ℕ
finished_ids [] = []
finished_ids (req ∷ reqs) = req.id ∷ finished_ids reqs

pub flush-id :
    (slot : Slot) (req : GenRequest) (reason : FinishReason) → (flush slot req reason).id ≡ req.id
unfolding flush emit
flush-id slot req reason = elim (Bool-cases (owes slot req reason)) [
  | inl e ↦ rw (e, flush) refl
  | inr e ↦ rw (e, flush) refl
]

pub finish-id :
    (L : Llama) (core : Core L) (slot : Slot) (req : GenRequest) (reason : FinishReason)
    (error : Option GenError)
    → finished_ids (finish L core slot req reason error).0.finished
      ≡ req.id ∷ finished_ids core.finished
unfolding finish finished_ids
finish-id L core slot req reason error =
    ap (λ (x : ℕ). x ∷ finished_ids core.finished)
      (flush-id r.0 (record req { result = r.1 }) reason)
  where
    r : Slot × GenResult
    r = stamp slot req.result reason error (L.now core.world)
