-- ===== src/Engine/Loop/Account.antt =====
-- One tick of `onyx_engine::loop` and the code behind the loop (src/engine.cpp) keep the account of
-- requests.
use onyx_engine.Prelude.{
  ℕ, ◌+◌, ◌≡◌, refl, ◌∙◌, Bool, true, false, if_both, option_both, Option, none, some,
  some-injective, List, [], ◌∷◌, All, arith, ap, ap₂, sym, subst,
}
use onyx_engine.Engine.Types.{
  Config, Slot, GenRequest, GenError, FinishReason, SlotState, is_idle, stop_reason, cancel_reason,
  tick_failed, shutting_down,
}
use onyx_engine.Engine.Llama.{Llama, Row}
use onyx_engine.Engine.Emit.{Core, is_none, finish}
use onyx_engine.Engine.Emit.Account.{Accounted, holders, held, tally, finish-Kept}
use onyx_engine.Engine.Decode.{each_slot}
use onyx_engine.Engine.Decode.Account.{
  IsLoyal, load, all_held, AccountedAll, KeptAll, Keeps, each_slot-KeptAll, Kept-holding,
  decode_batch-KeptAll,
}
use onyx_engine.Engine.Batch.{build_batch}
use onyx_engine.Engine.Batch.Account.{roles, build_batch-roles}
use onyx_engine.Engine.Queue.{is_empty}
use onyx_engine.Engine.Admit.{Admitted, admit_queued}
use onyx_engine.Engine.Admit.Account.{KeptQueue, KeptAdmitted, admit_queued-KeptAdmitted}
use onyx_engine.Engine.Loop.{
  Engine, end_slot, release_cancelled, fail_slot, abandon, after_decode, run_batch, tick, shut_slot,
  refuse_pending, shutdown,
}

-- What the account says of slots is said of what it reads of them.
roles-account :
    (x : ℕ) (as' bs : List Slot)
    → roles as' ≡ roles bs
    → All IsLoyal bs
    → All IsLoyal as' × (load as' ≡ load bs) × (all_held x as' ≡ all_held x bs)
unfolding roles load all_held
roles-account x [] [] e h = (tt, refl, refl)
roles-account x [] (b ∷ bs) e h = absurd (cc)
roles-account x (a ∷ as') [] e h = absurd (cc)
roles-account x (a ∷ as') (b ∷ bs) e (i, h) =
    let s : a.state ≡ b.state = (cc) in
    let q : a.req ≡ b.req = (cc) in
    let (is, l, k) = roles-account x as' bs (cc) h in
    (
      (
        ap (λ (v : SlotState). is_idle v) s ∙ i ∙ ap (λ (v : Option GenRequest). is_none v) (sym q),
        is,
      ),
      ap₂ ◌+◌ (ap holders q) l,
      ap₂ ◌+◌ (ap (held x) q) k,
    )

-- A function on slots that leaves the state alone.
abbrev Resets : (Slot → Slot) → Type 0
Resets reset = (slot : Slot) → (reset slot).state ≡ slot.state

module _ (L : Llama) (x t : ℕ) where
  end_slot-Keeps :
      (test : Slot → GenRequest → Bool) (reset : Slot → Slot) (reason : FinishReason)
      (error : Option GenError)
      → Resets reset
      → Keeps L x t (end_slot L test reset (λ core slot req. finish L core slot req reason error))
  unfolding end_slot Accounted
  end_slot-Keeps test reset reason error same n r core slot h = if_both P (is_idle slot.state) h (
      option_both P slot.req h (λ req e.
        let (i, p, q) = Kept-holding L x t n r core slot req e h in
        if_both P (test slot req)
          (finish-Kept L x n r t core (reset slot) req reason error
            (ap (λ (v : SlotState). is_idle v) (same slot) ∙ i, p, q))
          h))
    where
      P : Core L × Slot → Type 0
      P p = Accounted L x n r t p.0 p.1

  abbrev pub KeptEngine : ℕ → ℕ → Engine L → Type 0
  KeptEngine n r e = KeptQueue L x n t r e.core e.slots e.queue

  abbrev KeptSome : ℕ → ℕ → Option (Engine L) → Type 0
  KeptSome n r o = (e : Engine L) → o ≡ some e → KeptEngine n r e

  some-KeptSome : (n r : ℕ) (e : Engine L) → KeptEngine n r e → KeptSome n r (some e)
  some-KeptSome n r e h e' q = subst (KeptEngine n r) (some-injective e e' q) h

  after_decode-KeptSome :
      (n r : ℕ) (queue : List GenRequest) (o : Option ((Core L × List Slot) × Bool))
      → ((p : (Core L × List Slot) × Bool) → o ≡ some p → KeptQueue L x n t r p.0.0 p.0.1 queue)
      → KeptSome n r (after_decode L queue o)
  unfolding after_decode
  after_decode-KeptSome n r queue none h = λ e q. absurd (cc)
  after_decode-KeptSome n r queue (some ((core, slots), decoded)) h =
      some-KeptSome n r _ (h ((core, slots), decoded) refl)

  batch_built :
      (n r : ℕ) (c : Config) (core : Core L) (slots : List Slot)
      → KeptAll L x t n r (core, slots)
      → KeptAll L x t n r (core, (build_batch c slots).0)
  unfolding AccountedAll
  batch_built n r c core slots (is, p, q) =
      let (is', l, k) =
        roles-account x (build_batch c slots).0 slots (build_batch-roles c slots) is in
      (is', omega (arith, p, l), omega (arith, q, k))

  run_batch-KeptSome :
      (n r : ℕ) (c : Config) (core : Core L) (slots : List Slot) (queue : List GenRequest)
      → KeptQueue L x n t r core slots queue
      → KeptSome n r (run_batch L c core slots queue)
  unfolding run_batch
  run_batch-KeptSome n r c core slots queue h =
      if_both (KeptSome n r) (is_empty b.1) (some-KeptSome n r _ built) (
        after_decode-KeptSome n r queue _
          (λ p e. decode_batch-KeptAll L x t n (tally x queue + r) c b.1 core b.0 p built e))
    where
      b : List Slot × List Row
      b = build_batch c slots

      built : KeptQueue L x n t r core b.0 queue
      built = batch_built n (tally x queue + r) c core slots h

  abandon-KeptEngine :
      (n r : ℕ) (core : Core L) (slots : List Slot) (queue : List GenRequest)
      → KeptQueue L x n t r core slots queue
      → KeptEngine n r (abandon L core slots queue)
  unfolding abandon fail_slot AccountedAll
  abandon-KeptEngine n r core slots queue h =
      each_slot-KeptAll L x t (fail_slot L) n (tally x queue + r) _ slots
        (end_slot-Keeps (λ slot req. true) (λ slot. record slot { cache_tokens = []; n_past = 0 })
          stop_reason (some tick_failed) (λ slot. refl))
        h

  -- A tick that gives a next state keeps the account.
  pub tick-KeptEngine :
      (n r : ℕ) (c : Config) (e : Engine L) → KeptEngine n r e → KeptSome n r (tick L c e)
  unfolding tick release_cancelled
  tick-KeptEngine n r c e h =
      if_both (KeptSome n r) a.thrown
        (some-KeptSome n r _ (abandon-KeptEngine n r a.core a.slots a.queue admitted))
        (run_batch-KeptSome n r c a.core a.slots a.queue admitted)
    where
      released : Core L × List Slot
      released = each_slot (release_cancelled L) e.core e.slots

      a : Admitted L
      a = admit_queued L c released.0 released.1 e.queue

      admitted : KeptAdmitted L x n t r a
      admitted = admit_queued-KeptAdmitted L x n t r c released.0 released.1 e.queue (
          each_slot-KeptAll L x t (release_cancelled L) n (tally x e.queue + r) e.core e.slots
            (end_slot-Keeps (λ slot req. req.cancelled) (λ slot. slot) cancel_reason none
              (λ slot. refl))
            h)

  refuse_pending-KeptQueue :
      (n r : ℕ) (core : Core L) (slots : List Slot) (queue : List GenRequest)
      → KeptQueue L x n t r core slots queue
      → KeptQueue L x n t r (refuse_pending L core queue) slots []
  unfolding refuse_pending AccountedAll tally
  refuse_pending-KeptQueue n r core slots [] h = h
  refuse_pending-KeptQueue n r core slots (req ∷ queue) (is, p, q) =
      refuse_pending-KeptQueue n r
        (record core {
          finished =
              record req {
                smpl = false;
                result = record req.result { error = some shutting_down };
                finished = true;
              }
              ∷ core.finished;
        })
        slots queue (is, p, omega (arith, q))

  pub shutdown-KeptEngine :
      (n r : ℕ) (e : Engine L) → KeptEngine n r e → KeptEngine n r (shutdown L e)
  unfolding shutdown shut_slot
  shutdown-KeptEngine n r e h = refuse_pending-KeptQueue n r _ _ e.queue (
      each_slot-KeptAll L x t (shut_slot L) n (tally x e.queue + r) e.core e.slots
        (end_slot-Keeps (λ slot req. true) (λ slot. slot) cancel_reason (some shutting_down)
          (λ slot. refl))
        h)
