-- ===== src/Engine/Decision.antt =====
-- src/engine.cpp: which tokens decision mode takes from its cache: `onyx_engine::decision_reuse`, and
-- the prefix that the prompts of `onyx_engine::decide` share.
pub mod Sharing
use onyx_engine.Prelude.{
  ℕ, ◌-◌, min, Bool, true, false, not, ◌&&◌, Option, none, some, List, [], ◌∷◌, length, take, ltb,
  ◌==◌, if◌then◌else◌,
}
use onyx_engine.Engine.Llama.{Llama}
use onyx_engine.Engine.Admit.{common_prefix}

-- The parts of `onyx_decision_prompt` that this needs: `first_read` is what `pos_first` gives.
pub record DecisionPrompt : Type 0 where
  pub tokens : List ℕ
  pub first_read : Option ℕ

-- How many tokens one prompt leaves to the prefix: it keeps the last one and all that it reads.
abbrev pub capped : ℕ → Option ℕ → ℕ
capped k none = k
capped k (some r) = min k r

unfoldable pub share_one : List ℕ → ℕ → DecisionPrompt → ℕ
share_one first n_shared p =
    let k = common_prefix n_shared p.tokens first in
    min n_shared (capped (min k (length p.tokens - 1)) p.first_read)

-- The loop over the prompts.
unfoldable pub share_prompts : List ℕ → ℕ → List DecisionPrompt → ℕ
share_prompts first n_shared [] = n_shared
share_prompts first n_shared (p ∷ ps) = share_prompts first (share_one first n_shared p) ps

-- `n_shared` of `decide`.
unfoldable pub shared_prefix : Bool → Bool → Bool → List DecisionPrompt → ℕ
shared_prefix share_prefix can_continue has_media [] = 0
shared_prefix share_prefix can_continue has_media (p ∷ ps) =
    if share_prefix && can_continue && ltb 1 (length (p ∷ ps)) && not has_media
    then share_prompts p.tokens (length p.tokens) (p ∷ ps)
    else 0

module _ (L : Llama) where
  -- `has_memory` says that the context has a memory; the new state, the cache and how much is kept.
  unfoldable pub decision_reuse :
      Bool → Bool → L.World → List ℕ → List ℕ → ℕ → L.World × (List ℕ × ℕ)
  decision_reuse has_memory reuse_on world cache tokens n_max =
      let n_keep = if has_memory && reuse_on then common_prefix n_max cache tokens else 0 in
      let (cleared, _a) = L.seq_rm world 0 none none in
      let (cut, removed) = L.seq_rm world 0 (some n_keep) none in
      let (cleared', _b) = L.seq_rm cut 0 none none in
      if has_memory && n_keep == 0
      then (cleared, ([], 0))
      else if has_memory && ltb n_keep (length cache)
      then (if removed then (cut, (take n_keep cache, n_keep)) else (cleared', ([], 0)))
      else (world, (take n_keep cache, n_keep))
