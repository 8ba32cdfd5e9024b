-- ===== src/Server/Reasoning/Forced.antt =====
-- What the reasoning budget of a chat request is (src/server.cpp).
use onyx_engine.Prelude.{
  ℕ, ◌-◌, ◌≡◌, ◌↔◌, refl, sym, ap, ◌∙◌, subst, true, Option, some, List, [], ◌∷◌, ◌++◌, length,
  length-append, take, drop, take-append-drop, le→leb, &&_true, arith,
}
use onyx_engine.Prelude.Bytes.{Bytes, bytes, eqb→eq, eqb_refl}
use onyx_engine.Args.Types.{ℤ, pos, negsuc, Args}
use onyx_engine.Engine.Types.{ReasoningBudget}
use onyx_engine.Server.Reasoning.{
  Render, or_tag, ends_with, chosen_budget, with_budget, build_reasoning_budget,
}

drop_front : (u t : Bytes) → drop (length (u ++ t) - length t) (u ++ t) ≡ t
drop_front u t = subst (λ (k : ℕ). drop k (u ++ t) ≡ t) (omega (arith, length-append u t)) (at u)
  where
    at : (v : Bytes) → drop (length v) (v ++ t) ≡ t
    at [] = refl
    at (c ∷ v) = at v

found : (u tag : Bytes) → ends_with (u ++ tag) tag ≡ true
unfolding ends_with
found u tag =
    rw
      (
        le→leb (length tag) (length (u ++ tag)) (omega (arith, length-append u tag)),
        drop_front u tag,
        eqb_refl tag,
      )
      refl

ends_with_iff :
    (prompt tag : Bytes) → (ends_with prompt tag ≡ true) ↔ ((u : Bytes) × (prompt ≡ u ++ tag))
unfolding ends_with
ends_with_iff prompt tag = (
  λ e.
      let k = length prompt - length tag in
      (
        take k prompt,
        sym (take-append-drop k prompt)
            ∙ ap (λ (t : Bytes). take k prompt ++ t) (eqb→eq _ tag (&&_true _ _ e).1),
      ),
  λ (u, q). subst (λ (p : Bytes). ends_with p tag ≡ true) (sym q) (found u tag),
)

-- A prompt counts as one that opens the reasoning exactly when a budget is in force and the text
-- ends in the start tag: the template's, or "<think>" where it has none.
pub build_reasoning_budget-start :
    (tokenize : Bytes → List ℕ) (override : Option ℤ) (args : Args) (cr : Render)
    → ((build_reasoning_budget tokenize override args cr).start_in_prompt ≡ true) ↔ (
        ((n : ℕ) × (chosen_budget args override ≡ pos n))
        × ((u : Bytes) × (cr.prompt ≡ u ++ or_tag cr.thinking_start_tag (bytes "<think>"))))
unfolding build_reasoning_budget with_budget
build_reasoning_budget-start tokenize override args cr = at (chosen_budget args override)
  where
    at :
        (b : ℤ)
        → ((with_budget tokenize args cr b).start_in_prompt ≡ true) ↔ (
            ((n : ℕ) × (b ≡ pos n))
            × ((u : Bytes) × (cr.prompt ≡ u ++ or_tag cr.thinking_start_tag (bytes "<think>"))))
    at (negsuc n) = (λ e. absurd (cc e), λ ((m, q), r). absurd (cc q))
    at (pos n) =
        let (to, from) = ends_with_iff cr.prompt (or_tag cr.thinking_start_tag (bytes "<think>")) in
        (λ e. ((n, refl), to e), λ (m, r). from r)

-- A budget that is not negative is in force; the tokens that are forced end in the end tag, and with
-- a budget of zero they are the end tag alone.
pub build_reasoning_budget-forced :
    (tokenize : Bytes → List ℕ) (override : Option ℤ) (args : Args) (cr : Render) (n : ℕ)
    → chosen_budget args override ≡ pos n
    → let rb : ReasoningBudget = build_reasoning_budget tokenize override args cr in
      (rb.enabled ≡ true)
      × (rb.budget ≡ some n)
      × ((message : List ℕ) × (rb.forced ≡ message ++ rb.end_tag) × (n ≡ 0 → message ≡ []))
unfolding build_reasoning_budget with_budget
build_reasoning_budget-forced tokenize override args cr n e =
    rw (e) (refl, refl, (_, refl, λ z. rw (z) refl))
