-- ===== src/Engine/Decision/Sharing.antt =====
-- The prefixes that decision mode reuses and shares (src/engine.cpp).
use onyx_engine.Prelude.{
  ℕ, ◌-◌, ◌≤◌, min, ◌≡◌, refl, sym, ap, ◌∙◌, inl, inr, Bool, true, false, not, ◌&&◌, Option, none,
  some, List, [], ◌∷◌, length, take, All, arith, ltb, ◌==◌, if◌then◌else◌, Bool-cases, take-take,
  length-take,
}
use onyx_engine.Engine.Llama.{Llama}
use onyx_engine.Engine.Admit.{common_prefix}
use onyx_engine.Engine.Admit.Prefix.{
  common_prefix-agrees, common_prefix-le, common_prefix-le_length,
}
use onyx_engine.Engine.Decision.{
  DecisionPrompt, capped, share_one, share_prompts, shared_prefix, decision_reuse,
}

-- Nothing that is read lies within the first `n` tokens.
abbrev ReadsFrom : ℕ → Option ℕ → Type 0
ReadsFrom n none = Unit
ReadsFrom n (some r) = n ≤ r

-- A prompt that can go on from the first `n` tokens of `first`, with a token of its own left.
pub record Shares (first : List ℕ) (n : ℕ) (p : DecisionPrompt) : Type 0 where
  pub same : take n p.tokens ≡ take n first
  pub own : n ≤ length p.tokens - 1
  pub reads : ReadsFrom n p.first_read

take-fewer : (m n : ℕ) (xs ys : List ℕ) → m ≤ n → take n xs ≡ take n ys → take m xs ≡ take m ys
take-fewer m n xs ys h e =
    sym (take-take m n xs h) ∙ (ap (λ (t : List ℕ). take m t) e ∙ take-take m n ys h)

ReadsFrom-fewer : (m n : ℕ) (r : Option ℕ) → m ≤ n → ReadsFrom n r → ReadsFrom m r
ReadsFrom-fewer m n none h k = tt
ReadsFrom-fewer m n (some r) h k = omega arith

Shares-fewer :
    (first : List ℕ) (m n : ℕ) (p : DecisionPrompt) → m ≤ n → Shares first n p → Shares first m p
Shares-fewer first m n p h s = record {
  same = take-fewer m n p.tokens first h s.same;
  own = omega (arith, s.own);
  reads = ReadsFrom-fewer m n p.first_read h s.reads;
}

capped_bounds :
    (k l n : ℕ) (r : Option ℕ)
    → (min n (capped (min k l) r) ≤ k)
      × ((min n (capped (min k l) r) ≤ l) × ReadsFrom (min n (capped (min k l) r)) r)
capped_bounds k l n none = (omega arith, (omega arith, tt))
capped_bounds k l n (some r) = (omega arith, (omega arith, omega arith))

share_one-Shares :
    (first : List ℕ) (n : ℕ) (p : DecisionPrompt) → Shares first (share_one first n p) p
unfolding share_one
share_one-Shares first n p =
    let (a, (b, r)) =
      capped_bounds (common_prefix n p.tokens first) (length p.tokens - 1) n p.first_read in
    record {
      same = take-fewer _ _ p.tokens first a (common_prefix-agrees n p.tokens first);
      own = b;
      reads = r;
    }

share_one-le : (first : List ℕ) (n : ℕ) (p : DecisionPrompt) → share_one first n p ≤ n
unfolding share_one
share_one-le first n p = omega arith

share_prompts-le :
    (first : List ℕ) (n : ℕ) (ps : List DecisionPrompt) → share_prompts first n ps ≤ n
unfolding share_prompts
share_prompts-le first n [] = omega arith
share_prompts-le first n (p ∷ ps) =
    omega (arith, share_prompts-le first (share_one first n p) ps, share_one-le first n p)

share_prompts-Shares :
    (first : List ℕ) (n : ℕ) (ps : List DecisionPrompt)
    → All (Shares first (share_prompts first n ps)) ps
unfolding share_prompts
share_prompts-Shares first n [] = tt
share_prompts-Shares first n (p ∷ ps) = (
  Shares-fewer first _ _ p (share_prompts-le first (share_one first n p) ps)
      (share_one-Shares first n p),
  share_prompts-Shares first (share_one first n p) ps,
)

Shares-zero : (first : List ℕ) (p : DecisionPrompt) → Shares first 0 p
Shares-zero first p = record { same = refl; own = omega arith; reads = none_read p.first_read }
  where
    none_read : (r : Option ℕ) → ReadsFrom 0 r
    none_read none = tt
    none_read (some r) = omega arith

Shares-zeros : (first : List ℕ) (ps : List DecisionPrompt) → All (Shares first 0) ps
Shares-zeros first [] = tt
Shares-zeros first (p ∷ ps) = (Shares-zero first p, Shares-zeros first ps)

chosen-Shares :
    (first : List ℕ) (n : ℕ) (ps : List DecisionPrompt) (b : Bool)
    → All (Shares first (if b then share_prompts first n ps else 0)) ps
chosen-Shares first n ps true = share_prompts-Shares first n ps
chosen-Shares first n ps false = Shares-zeros first ps

-- The tokens that `decide` evaluates once for all prompts are the first tokens of every one of them,
-- every prompt keeps at least its last token for itself, and none reads an output at one of them.
pub shared_prefix-Shares :
    (share can media : Bool) (p : DecisionPrompt) (ps : List DecisionPrompt)
    → All (Shares p.tokens (shared_prefix share can media (p ∷ ps))) (p ∷ ps)
unfolding shared_prefix
shared_prefix-Shares share can media p ps =
    chosen-Shares p.tokens (length p.tokens) (p ∷ ps)
      (share && can && ltb 1 (length (p ∷ ps)) && not media)

-- What is left of a cache, and the number of tokens that is reported as kept.
pub record IsReuse (tokens : List ℕ) (n_max : ℕ) (r : List ℕ × ℕ) : Type 0 where
  pub cached : r.0 ≡ take r.1 tokens
  pub counted : length r.0 ≡ r.1
  pub limited : r.1 ≤ n_max

IsReuse-none : (tokens : List ℕ) (n_max : ℕ) → IsReuse tokens n_max ([], 0)
IsReuse-none tokens n_max = record { cached = refl; counted = refl; limited = omega arith }

kept_IsReuse :
    (b : Bool) (cache tokens : List ℕ) (n_max : ℕ)
    → IsReuse tokens n_max (
      take (if b then common_prefix n_max cache tokens else 0) cache,
      if b then common_prefix n_max cache tokens else 0,
    )
kept_IsReuse true cache tokens n_max = record {
  cached = common_prefix-agrees n_max cache tokens;
  counted = omega (
    arith,
    length-take (common_prefix n_max cache tokens) cache,
    common_prefix-le_length n_max cache tokens,
  );
  limited = common_prefix-le n_max cache tokens;
}
kept_IsReuse false cache tokens n_max = record {
  cached = refl;
  counted = refl;
  limited = omega arith;
}

-- Whatever the cache held and whatever llama.cpp answers, the cache that `decision_reuse` leaves is
-- exactly the number of tokens it reports, all of them the first tokens of the new prompt, and no more
-- than the caller allows.
pub decision_reuse-IsReuse :
    (L : Llama) (has_memory reuse_on : Bool) (world : L.World) (cache tokens : List ℕ) (n_max : ℕ)
    → IsReuse tokens n_max (decision_reuse L has_memory reuse_on world cache tokens n_max).1
unfolding decision_reuse
decision_reuse-IsReuse L has_memory reuse_on world cache tokens n_max =
    elim (Bool-cases (has_memory && n_keep == 0)) [
      | inl e ↦ rw (e, decision_reuse) (IsReuse-none tokens n_max)
      | inr e ↦ elim (Bool-cases (has_memory && ltb n_keep (length cache))) [
        | inr f ↦
            rw (e, f, decision_reuse) (kept_IsReuse (has_memory && reuse_on) cache tokens n_max)
        | inl f ↦ elim (Bool-cases (L.seq_rm world 0 (some n_keep) none).1) [
          | inl g ↦
              rw (e, f, g, decision_reuse)
                (kept_IsReuse (has_memory && reuse_on) cache tokens n_max)
          | inr g ↦ rw (e, f, g, decision_reuse) (IsReuse-none tokens n_max)
        ]
      ]
    ]
  where
    n_keep : ℕ
    n_keep = if has_memory && reuse_on then common_prefix n_max cache tokens else 0
