-- ===== src/Engine/Decode/Account.antt =====
-- `onyx_engine::decode_batch` (src/engine.cpp) keeps the account of requests, whatever llama.cpp
-- answers.
use onyx_engine.Prelude.{
  ℕ, zero, suc, ◌+◌, ◌-◌, ◌/◌, min, ◌≡◌, Bool, true, false, leb, if_both, option_both, Option, none,
  some, List, [], ◌∷◌, All, length, take, drop, arith, subst, some-injective,
}
use onyx_engine.Engine.Types.{
  Config, Slot, GenRequest, GenError, is_idle, stop_reason, generation_failed,
}
use onyx_engine.Engine.Llama.{Llama, Row, DecodeCode}
use onyx_engine.Engine.Emit.{Core, is_none}
use onyx_engine.Engine.Emit.Account.{Accounted, Kept, holding, holders, held, tally, finish-Kept}
use onyx_engine.Engine.Sample.Account.{sample_slot-KeptEither}
use onyx_engine.Engine.Decode.{
  each_slot, drop_slot, caught, in_view, sample_in_view, view_step, ViewStep, advance, shrink,
  give_up, decode_from, decode_batch, decode_fuel,
}

-- A slot is idle exactly when it holds no request.
abbrev pub IsLoyal : Slot → Type 0
IsLoyal slot = is_idle slot.state ≡ is_none slot.req

-- How many slots hold a request, and how many hold the request `x`.
unfoldable pub load : List Slot → ℕ
load [] = 0
load (slot ∷ slots) = holders slot.req + load slots

unfoldable pub all_held : ℕ → List Slot → ℕ
all_held x [] = 0
all_held x (slot ∷ slots) = held x slot.req + all_held x slots

-- The account of `Accounted` for all slots.
unfoldable pub AccountedAll : (L : Llama) → ℕ → ℕ → ℕ → ℕ → Core L → List Slot → Type 0
unfolding load all_held tally
AccountedAll L x n r t core slots =
    All IsLoyal slots
    × (core.metrics.requests_processing ≡ load slots + n)
    × (tally x core.finished + all_held x slots + r ≡ t)

module _ (L : Llama) (x t : ℕ) where
  abbrev pub KeptAll : ℕ → ℕ → Core L × List Slot → Type 0
  KeptAll n r p = AccountedAll L x n r t p.0 p.1

  -- A function on a slot that keeps the account of any rest.
  abbrev pub Keeps : (Core L → Slot → Core L × Slot) → Type 0
  Keeps f =
      (n r : ℕ) (core : Core L) (slot : Slot)
      → Kept L x n r t (core, slot)
      → Kept L x n r t (f core slot)

  pub each_slot-KeptAll :
      (f : Core L → Slot → Core L × Slot) (n r : ℕ) (core : Core L) (slots : List Slot)
      → Keeps f
      → KeptAll n r (core, slots)
      → KeptAll n r (each_slot f core slots)
  unfolding each_slot AccountedAll Accounted
  each_slot-KeptAll f n r core [] k h = h
  each_slot-KeptAll f n r core (slot ∷ slots) k ((i, is), p, q) =
      let (i', p', q') =
        k (load slots + n) (all_held x slots + r) core slot
          (i, omega (arith, p), omega (arith, q)) in
      let s : Core L × Slot = f core slot in
      let (is'', p'', q'') =
        each_slot-KeptAll f (holders s.1.req + n) (held x s.1.req + r) s.0 slots k
          (is, omega (arith, p'), omega (arith, q')) in
      ((i', is''), omega (arith, p''), omega (arith, q''))

  -- The request of a slot is held by a busy slot.
  pub Kept-holding :
      (n r : ℕ) (core : Core L) (slot : Slot) (req : GenRequest)
      → slot.req ≡ some req
      → Kept L x n r t (core, slot)
      → Kept L x n r t (core, holding slot req)
  unfolding Accounted
  Kept-holding n r core slot req e (i, p, q) = (simp (e) at i, simp (e) at p, simp (e) at q)

  abbrev KeptEach : ℕ → ℕ → Core L × Slot → Type 0
  KeptEach n r p = Accounted L x n r t p.0 p.1

  drop_slot-Keeps : (error : GenError) → Keeps (drop_slot L error)
  unfolding drop_slot Accounted
  drop_slot-Keeps error n r core slot h = if_both (KeptEach n r) (is_idle slot.state) h (
      option_both (KeptEach n r) slot.req h (λ req e.
        finish-Kept L x n r t _ (record slot { cache_tokens = []; n_past = 0 }) req stop_reason
          (some error) (Kept-holding n r core slot req e h)))

  caught-Kept :
      (n r : ℕ) (p : (Core L × Slot) × Bool) → KeptEach n r p.0 → KeptEach n r (caught L p)
  unfolding caught
  caught-Kept n r ((core, slot), false) h = h
  caught-Kept n r ((core, slot), true) h = option_both (KeptEach n r) slot.req h (λ req e.
      finish-Kept L x n r t core slot req stop_reason (some generation_failed)
        (Kept-holding n r core slot req e h))

  sample_in_view-Keeps : (c : Config) (off k : ℕ) → Keeps (sample_in_view L c off k)
  unfolding sample_in_view Accounted
  sample_in_view-Keeps c off k n r core slot h =
      option_both (KeptEach n r) (in_view off k slot.i_batch) h (λ tok_idx e.
        option_both (KeptEach n r) slot.req h (λ req q. caught-Kept n r _ (
          sample_slot-KeptEither L x n r t c core (record slot { i_batch = none }) req
            (some tok_idx) (Kept-holding n r core slot req q h))))

  -- The account of what the loop over the views returns, if it returns.
  abbrev KeptResult : ℕ → ℕ → Option ((Core L × List Slot) × Bool) → Type 0
  KeptResult n r o = (p : (Core L × List Slot) × Bool) → o ≡ some p → KeptAll n r p.0

  step_both :
      (n r : ℕ) (step : ViewStep) {a b : Option ((Core L × List Slot) × Bool)}
      {g : GenError → Option ((Core L × List Slot) × Bool)}
      → KeptResult n r a
      → KeptResult n r b
      → ((error : GenError) → KeptResult n r (g error))
      → KeptResult n r (elim step [ advance ↦ a | shrink ↦ b | give_up error ↦ g error ])
  step_both n r advance h k l = h
  step_both n r shrink h k l = k
  step_both n r (give_up error) h k l = l error

  some-KeptResult :
      (n r : ℕ) (p : (Core L × List Slot) × Bool) → KeptAll n r p.0 → KeptResult n r (some p)
  some-KeptResult n r p h q e =
      subst (λ (p' : (Core L × List Slot) × Bool). KeptAll n r p'.0) (some-injective p q e) h

  decode_from-KeptResult :
      (n r fuel : ℕ) (c : Config) (batch : List Row) (off n_view : ℕ) (core : Core L)
      (slots : List Slot)
      → KeptAll n r (core, slots)
      → KeptResult n r (decode_from L fuel c batch off n_view core slots)
  unfolding decode_from AccountedAll
  decode_from-KeptResult n r zero c batch off n_view core slots h = λ p e. absurd (cc)
  decode_from-KeptResult n r (suc fuel) c batch off n_view core slots h =
      if_both (KeptResult n r) (leb (length batch) off)
        (some-KeptResult n r ((core, slots), true) h)
        (step_both n r (view_step code k)
          (decode_from-KeptResult n r fuel c batch (off + k) c.n_batch _ _ (
            each_slot-KeptAll (sample_in_view L c off k) n r _ slots (sample_in_view-Keeps c off k)
              h))
          (decode_from-KeptResult n r fuel c batch off (k / 2) _ slots h)
          (λ error.
            some-KeptResult n r (_, false)
              (each_slot-KeptAll (drop_slot L error) n r _ slots (drop_slot-Keeps error) h)))
    where
      k : ℕ
      k = min n_view (length batch - off)

      code : DecodeCode
      code = (L.decode core.world (take k (drop off batch))).1

  pub decode_batch-KeptAll :
      (n r : ℕ) (c : Config) (batch : List Row) (core : Core L) (slots : List Slot)
      (p : (Core L × List Slot) × Bool)
      → KeptAll n r (core, slots)
      → decode_batch L c batch core slots ≡ some p
      → KeptAll n r p.0
  unfolding decode_batch
  decode_batch-KeptAll n r c batch core slots p h e =
      decode_from-KeptResult n r (decode_fuel c batch) c batch 0 c.n_batch core slots h p e
