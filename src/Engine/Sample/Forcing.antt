-- ===== src/Engine/Sample/Forcing.antt =====
-- How the reasoning-budget machine closes a thinking block, and what its tag match recognises.
use onyx_engine.Prelude.{
  ℕ, zero, suc, ◌+◌, ◌≤◌, ◌<◌, ◌≡◌, ◌≢◌, refl, sym, ap, ap₂, ◌∙◌, length-append, drop_all, ◌⊎◌, inl,
  inr, Bool, true, false, ◌||◌, some, List, [], ◌∷◌, ◌++◌, arith, length, drop, if◌then◌else◌,
  get_or, ==_refl, append_assoc,
}
use onyx_engine.Engine.Types.{Slot, ReasoningBudget, rb_counting, rb_forcing, rb_done}
use onyx_engine.Engine.Sample.{rb_enter, forcing, rb_force, rb_scan, match_tag}

-- The token of one call and the slot behind it: the budget check, then the forced token if the code's
-- test says so, or the sampled one.
unfoldable pub rb_step : ReasoningBudget → Slot → ℕ → ℕ × Slot
rb_step rb slot tok =
    let slot' = rb_enter rb slot in
    if forcing rb slot' then rb_force rb slot' else (tok, rb_scan rb slot' tok)

-- The tokens that a row of calls emits, by what the sampler would give at each of them.
unfoldable pub rb_run : ReasoningBudget → Slot → List ℕ → List ℕ
rb_run rb slot [] = []
rb_run rb slot (tok ∷ toks) =
    let (out, slot') = rb_step rb slot tok in let outs = rb_run rb slot' toks in out ∷ outs

drop-get_or : (c : List ℕ) (i : ℕ) → i < length c → drop i c ≡ get_or c i 0 ∷ drop (i + 1) c
drop-get_or [] i h = elim h [ ]
drop-get_or (x ∷ c) zero h = refl
drop-get_or (x ∷ c) (suc i) h =
    let e : suc i + 1 ≡ suc (i + 1) = omega arith in rw e (drop-get_or c i (omega arith))

rb_step-last :
    (rb : ReasoningBudget) (slot : Slot) (tok : ℕ)
    → slot.rb_state ≡ rb_forcing
    → slot.rb_forced_idx + 1 ≡ length rb.forced
    → ((rb_step rb slot tok).1.rb_state ≡ rb_done)
      × ((rb_step rb slot tok).0 ≡ get_or rb.forced slot.rb_forced_idx 0)
unfolding rb_step rb_force rb_enter forcing
rb_step-last rb slot tok f e = ground arith

rb_step-next :
    (rb : ReasoningBudget) (slot : Slot) (tok : ℕ)
    → slot.rb_state ≡ rb_forcing
    → slot.rb_forced_idx + 1 < length rb.forced
    → ((rb_step rb slot tok).1.rb_state ≡ rb_forcing)
      × ((rb_step rb slot tok).1.rb_forced_idx ≡ slot.rb_forced_idx + 1)
      × ((rb_step rb slot tok).0 ≡ get_or rb.forced slot.rb_forced_idx 0)
unfolding rb_step rb_force rb_enter forcing
rb_step-next rb slot tok f e = ground arith

rb_step-done :
    (rb : ReasoningBudget) (slot : Slot) (tok : ℕ)
    → slot.rb_state ≡ rb_done
    → ((rb_step rb slot tok).1.rb_state ≡ rb_done) × ((rb_step rb slot tok).0 ≡ tok)
unfolding rb_step rb_enter forcing rb_scan
rb_step-done rb slot tok d = ground arith

-- A done machine emits what is sampled, for good.
rb_run-done :
    (rb : ReasoningBudget) (slot : Slot) (toks : List ℕ)
    → slot.rb_state ≡ rb_done
    → rb_run rb slot toks ≡ toks
unfolding rb_run
rb_run-done rb slot [] d = refl
rb_run-done rb slot (tok ∷ toks) d =
    let (still, out) = rb_step-done rb slot tok d in
    ap₂ ◌∷◌ out (rb_run-done rb (rb_step rb slot tok).1 toks still)

-- A machine that forces, with at least one forced token left and as many calls before it as there are
-- left, emits exactly these forced tokens in their order, whatever is sampled, and after them it emits
-- everything that is sampled.
pub rb_run-forced :
    (rb : ReasoningBudget) (slot : Slot) (masked later : List ℕ)
    → slot.rb_state ≡ rb_forcing
    → slot.rb_forced_idx < length rb.forced
    → slot.rb_forced_idx + length masked ≡ length rb.forced
    → rb_run rb slot (masked ++ later) ≡ drop slot.rb_forced_idx rb.forced ++ later
unfolding rb_run
rb_run-forced rb slot [] later f h e = absurd (omega arith)
rb_run-forced rb slot (tok ∷ []) later f h e =
    let (done, out) = rb_step-last rb slot tok f (omega arith) in
    let front : drop slot.rb_forced_idx rb.forced ≡ get_or rb.forced slot.rb_forced_idx 0 ∷ [] =
      drop-get_or rb.forced slot.rb_forced_idx h
      ∙ ap (λ (xs : List ℕ). get_or rb.forced slot.rb_forced_idx 0 ∷ xs)
          (drop_all (slot.rb_forced_idx + 1) rb.forced (omega arith)) in
    ap₂ ◌∷◌ out (rb_run-done rb (rb_step rb slot tok).1 later done)
    ∙ ap (λ (xs : List ℕ). xs ++ later) (sym front)
rb_run-forced rb slot (tok ∷ tok' ∷ masked) later f h e =
    let (still, idx, out) = rb_step-next rb slot tok f (omega arith) in
    let outs =
      rb_run-forced rb (rb_step rb slot tok).1 (tok' ∷ masked) later still (omega (arith, idx))
        (omega (arith, idx)) in
    ap₂ ◌∷◌ out (outs ∙ ap (λ (k : ℕ). drop k rb.forced ++ later) idx)
    ∙ ap (λ (xs : List ℕ). xs ++ later) (sym (drop-get_or rb.forced slot.rb_forced_idx h))

-- When the tokens counted have reached the budget, and there are forced tokens, the very next
-- token is forced.
pub rb_enter-forces :
    (rb : ReasoningBudget) (slot : Slot) (b : ℕ)
    → rb.budget ≡ some b
    → slot.rb_state ≡ rb_counting
    → b ≤ slot.rb_count
    → 0 < length rb.forced
    → forcing rb (rb_enter rb slot) ≡ true
unfolding rb_enter forcing
rb_enter-forces rb slot b e c h l = ground arith

-- The match over a stretch of tokens: whether the tag was complete anywhere, and the position.
pub match_run : List ℕ → ℕ → List ℕ → Bool
match_run tag matched [] = false
match_run tag matched (t ∷ ts) =
    let (complete, seen) = match_tag tag matched t in
    let later = match_run tag seen ts in complete || later

get_or-append : (done rest : List ℕ) (t : ℕ) → get_or (done ++ (t ∷ rest)) (length done) 0 ≡ t
get_or-append [] rest t = refl
get_or-append (x ∷ done) rest t = get_or-append done rest t

match_run-next :
    (tag : List ℕ) (matched t : ℕ) (ts : List ℕ)
    → get_or tag matched 0 ≡ t
    → (length tag ≡ matched + 1) ⊎ (match_run tag (matched + 1) ts ≡ true)
    → match_run tag matched (t ∷ ts) ≡ true
unfolding match_run match_tag
match_run-next tag matched t ts e h = ground (arith, ==_refl t)

match_run-tag_from :
    (done rest : List ℕ) (t : ℕ) → match_run (done ++ (t ∷ rest)) (length done) (t ∷ rest) ≡ true
match_run-tag_from done [] t =
    match_run-next (done ++ t ∷ []) (length done) t [] (get_or-append done [] t)
      (inl (omega (arith, length-append done (t ∷ []))))
match_run-tag_from done (u ∷ rest) t =
    match_run-next (done ++ (t ∷ u ∷ rest)) (length done) t (u ∷ rest)
      (get_or-append done (u ∷ rest) t)
      (inr (
        rw (len, sym (append_assoc done (t ∷ []) (u ∷ rest)))
          (match_run-tag_from (done ++ t ∷ []) rest u)))
  where
    len : length done + 1 ≡ length (done ++ t ∷ [])
    len = omega (arith, length-append done (t ∷ []))

-- A tag that arrives whole where nothing of it is matched yet is recognised.
pub match_run-tag : (t : ℕ) (rest : List ℕ) → match_run (t ∷ rest) 0 (t ∷ rest) ≡ true
match_run-tag t rest = match_run-tag_from [] rest t

-- The rolling match misses an occurrence: of a tag that is a token twice and then another, it does
-- not recognise the tag behind one more of the first token.
pub match_run-misses : (a b : ℕ) → a ≢ b → match_run (a ∷ a ∷ b ∷ []) 0 (a ∷ a ∷ a ∷ b ∷ []) ≡ false
unfolding match_run match_tag
match_run-misses a b h = ground arith
