-- ===== src/Engine/Decode/Termination.antt =====
-- The rounds of the retry loop of `onyx_engine::decode_batch` (src/engine.cpp).
use onyx_engine.Prelude.{
  ℕ, zero, suc, ◌+◌, ◌-◌, ◌*◌, ◌/◌, ◌<◌, min, ◌≡◌, ◌≢◌, refl, ap, ◌⊎◌, inl, inr, none, List, length,
  take, drop, arith, tests, leb, Bool-cases,
}
use onyx_engine.Engine.Types.{Config, Slot, GenError}
use onyx_engine.Engine.Llama.{
  Llama, Row, DecodeCode, decode_ok, decode_full, decode_invalid, decode_error,
}
use onyx_engine.Engine.Emit.{Core}
use onyx_engine.Engine.Decode.{
  ViewStep, advance, shrink, give_up, view_step, decode_from, decode_batch, decode_fuel,
}

-- A view shrinks only if it holds two rows or more.
view_step-shrink : (code : DecodeCode) (n : ℕ) → view_step code n ≡ shrink → 1 < n
unfolding view_step
view_step-shrink decode_ok n h = absurd (cc)
view_step-shrink decode_full n h = ground arith
view_step-shrink decode_invalid n h = absurd (cc)
view_step-shrink decode_error n h = absurd (cc)

ViewStep-cases :
    (v : ViewStep) → (v ≡ advance) ⊎ ((v ≡ shrink) ⊎ ((e : GenError) × (v ≡ give_up e)))
ViewStep-cases advance = inl refl
ViewStep-cases shrink = inr (inl refl)
ViewStep-cases (give_up e) = inr (inr (e, refl))

-- The rounds that may be left.
abbrev rounds : Config → List Row → ℕ → ℕ → ℕ
rounds c batch off n_view = (length batch - off) * (c.n_batch + 1) + n_view

rounds-advance :
    (c : Config) (batch : List Row) (off n_view n : ℕ)
    → off < length batch
    → 0 < n
    → 0 < n_view
    → rounds c batch (off + n) c.n_batch < rounds c batch off n_view
rounds-advance c batch off n_view n h p v = grind arith

module _ (L : Llama) (c : Config) (batch : List Row) (pos : 0 < c.n_batch) where
  decode_from-ne-none :
      (fuel off n_view : ℕ) (core : Core L) (slots : List Slot)
      → 0 < n_view
      → rounds c batch off n_view < fuel
      → decode_from L fuel c batch off n_view core slots ≢ none
  unfolding decode_from
  decode_from-ne-none zero off n_view core slots v h = absurd (omega arith)
  decode_from-ne-none (suc fuel) off n_view core slots v h =
      elim (Bool-cases (leb (length batch) off)) [
        | inl e ↦ rw (e, decode_from) (λ q. cc)
        | inr e ↦
            elim (ViewStep-cases (view_step (L.decode core.world (take n (drop off batch))).1 n)) [
              | inl s ↦
                  rw (e, s, decode_from)
                    (decode_from-ne-none fuel (off + n) c.n_batch _ _ pos (
                      omega (
                        arith,
                        rounds-advance c batch off n_view n (omega (tests, e)) (omega (tests, e)) v,
                      )))
              | inr (inl s) ↦
                  rw (e, s, decode_from)
                    (decode_from-ne-none fuel off (n / 2) _ slots
                      (omega (arith, view_step-shrink _ n s))
                      (omega (arith, view_step-shrink _ n s)))
              | inr (inr (x, s)) ↦ rw (e, s, decode_from) (λ q. cc)
            ]
      ]
    where
      n : ℕ
      n = min n_view (length batch - off)

  -- For a batch size of at least one, the loop of `decode_batch` ends within its fuel, for every
  -- batch, every state of the slots and whatever llama.cpp answers.
  pub decode_batch-ne-none :
      (core : Core L) (slots : List Slot) → decode_batch L c batch core slots ≢ none
  unfolding decode_batch
  decode_batch-ne-none core slots =
      decode_from-ne-none (decode_fuel c batch) 0 c.n_batch core slots pos
        (omega (arith, ap (λ (t : ℕ). t * (c.n_batch + 1)) whole))
    where
      whole : length batch - 0 ≡ length batch
      whole = omega arith
