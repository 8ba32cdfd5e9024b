-- ===== src/Engine/Shift/Laws.antt =====
-- The cache mirror over `onyx_engine::context_shift` (src/engine.cpp).
use onyx_engine.Prelude.{
  ℕ, zero, suc, ◌+◌, ◌-◌, ◌≤◌, ◌<◌, ◌≡◌, ◌≢◌, refl, ap, ◌∙◌, ◌⊎◌, inl, inr, ==_iff, Bool, true,
  false, Option, none, some, List, [], ◌∷◌, ◌++◌, arith, length, take, drop, set, get_or, ◌==◌,
  append_assoc, append-nil, length-append, length-take, length-drop, drop_all, Bool-cases,
}
use onyx_engine.Engine.Types.{Config, Slot, GenRequest}
use onyx_engine.Engine.Llama.{Llama}
use onyx_engine.Engine.Shift.{move_down, discard, kept_front, discarded, context_shift}

take-suc-set : (c : List ℕ) (k v : ℕ) → k < length c → take (suc k) (set c k v) ≡ take k c ++ v ∷ []
take-suc-set [] k v h = elim h [ ]
take-suc-set (x ∷ c) zero v h = refl
take-suc-set (x ∷ c) (suc k) v h = ap (◌∷◌ x) (take-suc-set c k v (omega arith))

drop-set : (c : List ℕ) (k v j : ℕ) → k < j → drop j (set c k v) ≡ drop j c
drop-set [] k v j h = refl
drop-set (x ∷ c) k v zero h = elim h [ ]
drop-set (x ∷ c) zero v (suc j) h = refl
drop-set (x ∷ c) (suc k) v (suc j) h = drop-set c k v j (omega arith)

drop-get_or : (c : List ℕ) (i : ℕ) → i < length c → drop i c ≡ get_or c i 0 ∷ drop (suc i) c
drop-get_or [] i h = elim h [ ]
drop-get_or (x ∷ c) zero h = refl
drop-get_or (x ∷ c) (suc i) h = drop-get_or c i (omega arith)

length-set : (c : List ℕ) (i v : ℕ) → length (set c i v) ≡ length c
length-set [] i v = refl
length-set (x ∷ c) zero v = refl
length-set (x ∷ c) (suc i) v = ap suc (length-set c i v)

-- The loop invariant, by the rounds left.
take-move_down :
    (n k i d : ℕ) (c : List ℕ)
    → i ≡ k + d
    → i + n ≡ length c
    → take (k + n) (move_down n i d c) ≡ take k c ++ drop i c
unfolding move_down
take-move_down zero k i d c e l =
    let e' : k + 0 ≡ k = omega arith in
    rw (e', drop_all i c (omega arith), append-nil (take k c)) refl
take-move_down (suc n) k i d c e l =
    let at : i - d ≡ k = omega arith in
    let k' : k + suc n ≡ suc k + n = omega arith in
    let i' : i + 1 ≡ suc i = omega arith in
    let c' : List ℕ = set c k (get_or c i 0) in
    let ih : take (suc k + n) (move_down n (suc i) d c') ≡ take (suc k) c' ++ drop (suc i) c' =
      take-move_down n (suc k) (suc i) d c' (omega arith)
        (omega (arith, length-set c k (get_or c i 0))) in
    rw (at, k', i')
      (ih
        ∙ rw
            (
              take-suc-set c k (get_or c i 0) (omega arith),
              drop-set c k (get_or c i 0) (suc i) (omega arith),
              drop-get_or c i (omega arith),
            )
            (append_assoc (take k c) (get_or c i 0 ∷ []) (drop (suc i) c)))

-- If the stretch of `d` tokens from `k` lies within the list, the loop that moves the tokens down
-- in place and the `resize` behind it cut out exactly this stretch.
pub discard-cuts :
    (k d : ℕ) (c : List ℕ) → k + d ≤ length c → discard k d c ≡ take k c ++ drop (k + d) c
unfolding discard
discard-cuts k d c h =
    let e : length c - d ≡ k + (length c - (k + d)) = omega arith in
    rw e (take-move_down (length c - (k + d)) k (k + d) d c refl (omega arith))

length-discard : (k d : ℕ) (c : List ℕ) → k + d ≤ length c → length (discard k d c) ≡ length c - d
length-discard k d c h = rw (discard-cuts k d c h) (
    omega
      (arith, length-append (take k c) (drop (k + d) c), length-take k c, length-drop (k + d) c))

discarded_bounds :
    (c : Config) (slot : Slot)
    → (discarded c slot ≡ 0) ⊎ (kept_front c slot + discarded c slot < slot.n_past)
unfolding discarded
discarded_bounds c slot = omega arith

-- What a shift leaves: the kept front and the newer part of the rest, with the mirror of the cache
-- as long as the positions in use.
abbrev pub IsShifted : Config → Slot → Slot → Type 0
IsShifted c slot slot' =
    let k = kept_front c slot in
    let d = discarded c slot in
    (slot'.cache_tokens ≡ take k slot.cache_tokens ++ drop (k + d) slot.cache_tokens)
    × (length slot'.cache_tokens ≡ slot'.n_past)
    × (slot'.n_past + d ≡ slot.n_past)
    × (0 < d)
    × (k < slot'.n_past)

module _ (L : Llama) (c : Config) (world : L.World) (slot : Slot) (req : GenRequest) where
  shifted :
      length slot.cache_tokens ≡ slot.n_past
      → discarded c slot ≢ 0
      → IsShifted c slot (record slot {
        cache_tokens = discard (kept_front c slot) (discarded c slot) slot.cache_tokens;
        n_past = slot.n_past - discarded c slot;
      })
  shifted e ne = elim (discarded_bounds c slot) [
    | inl z ↦ absurd (ne z)
    | inr b ↦ (
      discard-cuts _ _ slot.cache_tokens (omega arith),
      omega (
        arith,
        length-discard (kept_front c slot) (discarded c slot) slot.cache_tokens (omega arith),
      ),
      omega arith,
      omega arith,
      omega arith,
    )
  ]

  -- What the caller gets: a shifted slot and the request marked as truncated, or a refusal that has
  -- one of two reasons.
  abbrev pub ShiftResult : Option (Slot × GenRequest) → Type 0
  ShiftResult none =
      (discarded c slot ≡ 0)
      ⊎ ((L.seq_rm world slot.seq_id (some (kept_front c slot))
            (some (kept_front c slot + discarded c slot))).1
          ≡ false)
  ShiftResult (some (slot', req')) =
      IsShifted c slot slot' × (req'.result ≡ record req.result { truncated = true })

  -- On a slot whose cache mirror has `n_past` tokens, a context shift is refused only if there is
  -- nothing to discard or llama.cpp refuses to remove it; else the mirror loses exactly the
  -- stretch behind the front that is kept, it has `n_past` tokens again, fewer than before and
  -- more than the front, and the result says that it is truncated and is the same otherwise.
  pub context_shift-ShiftResult :
      length slot.cache_tokens ≡ slot.n_past → ShiftResult (context_shift L c world slot req).1
  unfolding context_shift
  context_shift-ShiftResult e = elim (Bool-cases (discarded c slot == 0)) [
    | inl z ↦ rw (z, context_shift) (inl ((==_iff _ _).0 z))
    | inr nz ↦ elim (Bool-cases removed) [
      | inl r ↦
          rw (nz, r, context_shift)
            (shifted e (λ q. cc (nz, (==_iff (discarded c slot) 0).1 q)), refl)
      | inr r ↦ rw (nz, r, context_shift) (inr r)
    ]
  ]
    where
      removed : Bool
      removed =
          (L.seq_rm world slot.seq_id (some (kept_front c slot))
            (some (kept_front c slot + discarded c slot))).1
