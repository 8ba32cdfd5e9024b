-- ===== src/Engine/Admit/Prefix.antt =====
-- The cache that a request takes over in `onyx_engine::admit_queued` (src/engine.cpp).
use onyx_engine.Prelude.{
  ℕ, zero, suc, ◌-◌, ◌≤◌, ◌<◌, min, ◌≡◌, refl, ap₂, ◌⊎◌, inl, inr, Bool, true, false, some, List,
  [], ◌∷◌, length, take, arith, ◌==◌, ==_iff, if◌then◌else◌, Bool-cases,
}
use onyx_engine.Engine.Types.{Config, Slot, GenRequest, prefill}
use onyx_engine.Engine.Llama.{Llama}
use onyx_engine.Engine.Emit.{Core}
use onyx_engine.Engine.Queue.{is_empty}
use onyx_engine.Engine.Admit.{
  common_prefix, slot_lcp, usable_prefix, take_request, keep_prefix, trim_sequence, admit_to,
}

pub common_prefix-le : (n : ℕ) (xs ys : List ℕ) → common_prefix n xs ys ≤ n
unfolding common_prefix
common_prefix-le zero xs ys = omega arith
common_prefix-le (suc n) [] ys = omega arith
common_prefix-le (suc n) (x ∷ xs) [] = omega arith
common_prefix-le (suc n) (x ∷ xs) (y ∷ ys) = ground (arith, common_prefix-le n xs ys)

pub common_prefix-le_length : (n : ℕ) (xs ys : List ℕ) → common_prefix n xs ys ≤ length xs
unfolding common_prefix
common_prefix-le_length zero xs ys = omega arith
common_prefix-le_length (suc n) [] ys = omega arith
common_prefix-le_length (suc n) (x ∷ xs) [] = omega arith
common_prefix-le_length (suc n) (x ∷ xs) (y ∷ ys) = ground (arith, common_prefix-le_length n xs ys)

-- The loop stops at a place up to which the two lists agree.
pub common_prefix-agrees :
    (n : ℕ) (xs ys : List ℕ) → take (common_prefix n xs ys) xs ≡ take (common_prefix n xs ys) ys
unfolding common_prefix
common_prefix-agrees zero xs ys = refl
common_prefix-agrees (suc n) [] ys = refl
common_prefix-agrees (suc n) (x ∷ xs) [] = refl
common_prefix-agrees (suc n) (x ∷ xs) (y ∷ ys) = elim (Bool-cases (x == y)) [
  | inr e ↦ rw (e, common_prefix) refl
  | inl e ↦ rw (e, common_prefix) (ap₂ ◌∷◌ ((==_iff x y).0 e) (common_prefix-agrees n xs ys))
]

-- A number of tokens up to which the slot's cache agrees with the prompt, with one left over.
abbrev Agrees : GenRequest → Slot → ℕ → Type 0
Agrees req slot n =
    (take n slot.cache_tokens ≡ take n req.params.prompt_tokens)
    × (n ≤ length req.params.prompt_tokens - 1)
    × (n ≤ length slot.cache_tokens)

Agrees-zero : (req : GenRequest) (slot : Slot) → Agrees req slot 0
Agrees-zero req slot = (refl, omega arith, omega arith)

Agrees-if :
    (req : GenRequest) (slot : Slot) (b : Bool) (n m : ℕ)
    → Agrees req slot n
    → Agrees req slot m
    → Agrees req slot (if b then n else m)
Agrees-if req slot true n m h k = h
Agrees-if req slot false n m h k = k

slot_lcp-Agrees :
    (c : Config) (req : GenRequest) (slot : Slot) → Agrees req slot (slot_lcp c req slot)
unfolding slot_lcp
slot_lcp-Agrees c req slot =
    Agrees-if req slot _ _ 0
      (Agrees-if req slot _ 0 _ (Agrees-zero req slot) (
        common_prefix-agrees bound slot.cache_tokens req.params.prompt_tokens,
        omega (arith, common_prefix-le bound slot.cache_tokens req.params.prompt_tokens),
        common_prefix-le_length bound slot.cache_tokens req.params.prompt_tokens,
      ))
      (Agrees-zero req slot)
  where
    bound : ℕ
    bound = min (length slot.cache_tokens) (length req.params.prompt_tokens - 1)

usable_prefix-Agrees :
    (c : Config) (req : GenRequest) (slot : Slot)
    → Agrees req slot (usable_prefix c req (slot_lcp c req slot))
unfolding usable_prefix
usable_prefix-Agrees c req slot =
    Agrees-if req slot _ _ 0 (slot_lcp-Agrees c req slot) (Agrees-zero req slot)

module _ (L : Llama) (c : Config) where
  trim_sequence-cases :
      (world : L.World) (slot : Slot) (lcp : ℕ)
      → ((trim_sequence L c world slot lcp).1 ≡ 0) ⊎ ((trim_sequence L c world slot lcp).1 ≡ lcp)
  unfolding trim_sequence
  trim_sequence-cases world slot lcp = ground arith

  trim_sequence-Agrees :
      (world : L.World) (req : GenRequest) (slot : Slot)
      → Agrees req slot (trim_sequence L c world slot (usable_prefix c req (slot_lcp c req slot))).1
  trim_sequence-Agrees world req slot =
      elim (trim_sequence-cases world slot (usable_prefix c req (slot_lcp c req slot))) [
        | inl e ↦ rw e (Agrees-zero req slot)
        | inr e ↦ rw e (usable_prefix-Agrees c req slot)
      ]

  -- A freshly admitted text request: the cache mirrors the evaluated part of its prompt, and at least
  -- one prompt token is left, so that its logits are fresh.
  pub record IsAdmitted (req : GenRequest) (slot : Slot) : Type 0 where
    pub mirrors : slot.cache_tokens ≡ take slot.n_past slot.prompt
    pub unfinished : slot.n_past < length slot.prompt
    pub own_prompt : slot.prompt ≡ req.params.prompt_tokens
    pub in_prefill : slot.state ≡ prefill
    pub unsent : slot.n_sent ≡ 0
    pub counted :
        (r : GenRequest) × (slot.req ≡ some r)
        × (r.result.n_cached ≡ slot.n_past)
        × (r.result.n_prompt ≡ length slot.prompt)

  -- A request without media and with a nonempty prompt that is admitted to a slot with the prefix
  -- the slot's cache offers, whatever llama.cpp answers: the cache mirror is the first `n_past`
  -- tokens of the prompt, at least one prompt token is left to evaluate, the slot prefills this
  -- very prompt and has sent nothing, and the result counts the tokens reused and the length of
  -- the prompt.
  pub admit_to-IsAdmitted :
      (core : Core L) (slot : Slot) (req : GenRequest)
      → is_empty req.params.media ≡ true
      → 0 < length req.params.prompt_tokens
      → IsAdmitted req (admit_to L c core slot req (slot_lcp c req slot)).0.1
  unfolding admit_to keep_prefix take_request
  admit_to-IsAdmitted core slot req text pos =
      rw (text, admit_to)
        (record {
          mirrors = agrees.0;
          unfinished = omega (arith, agrees.1);
          own_prompt = refl;
          in_prefill = refl;
          unsent = refl;
          counted = (_, refl, refl, refl);
        })
    where
      agrees :
          Agrees req slot
            (trim_sequence L c core.world slot (usable_prefix c req (slot_lcp c req slot))).1
      agrees = trim_sequence-Agrees core.world req slot
