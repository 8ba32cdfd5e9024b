-- ===== src/Engine/Admit/Choice.antt =====
-- Which slot a request gets in `onyx_engine::admit_queued` (src/engine.cpp).
use onyx_engine.Prelude.{
  ℕ, ◌+◌, ◌≤◌, ◌≡◌, refl, sym, ◌∙◌, subst, inl, inr, true, false, ◌&&◌, Option, none, some, List,
  [], ◌∷◌, ◌++◌, length, append_assoc, append-nil, All-append, length-append, get_elem?,
  get_elem?-append_at, some-injective, &&_true, arith, All, if◌then◌else◌, Bool-cases,
}
use onyx_engine.Engine.Types.{Config, Slot, GenRequest, is_idle}
use onyx_engine.Engine.Admit.{Best, beats, slot_lcp, choose_from, choose_slot}

module _ (c : Config) (req : GenRequest) where
  -- No idle slot of the list beats the choice: a longer prefix, or the same and used longer ago.
  abbrev Unbeaten : Slot → Option Best → Type 0
  Unbeaten slot best = is_idle slot.state ≡ true → beats (slot_lcp c req slot) slot best ≡ false

  -- A choice names an idle slot of the list and its prefix.
  abbrev pub Names : List Slot → Option Best → Type 0
  Names slots best =
      (b : Best)
      → best ≡ some b
      → (get_elem? slots b.index ≡ some b.slot)
        × (is_idle b.slot.state ≡ true)
        × (b.lcp ≡ slot_lcp c req b.slot)

  challenged : ℕ → Slot → Option Best → Option Best
  challenged index slot best =
      if is_idle slot.state && beats (slot_lcp c req slot) slot best
      then some (record { index = index; lcp = slot_lcp c req slot; slot = slot })
      else best

  challenged-Unbeaten :
      (index : ℕ) (slot : Slot) (best : Option Best) → Unbeaten slot (challenged index slot best)
  unfolding challenged beats
  challenged-Unbeaten index slot none i = ground arith
  challenged-Unbeaten index slot (some b) i = ground arith

  challenged-keeps :
      (index : ℕ) (slot s : Slot) (best : Option Best)
      → Unbeaten s best
      → Unbeaten s (challenged index slot best)
  unfolding challenged beats
  challenged-keeps index slot s none u i = ground (arith, u i)
  challenged-keeps index slot s (some b) u i = ground (arith, u i)

  choose_from-Unbeaten :
      (index : ℕ) (done slots : List Slot) (best : Option Best)
      → All (λ s. Unbeaten s best) done
      → All (λ s. Unbeaten s (choose_from c req index slots best)) (done ++ slots)
  unfolding choose_from challenged
  choose_from-Unbeaten index done [] best h = rw (append-nil done) h
  choose_from-Unbeaten index done (slot ∷ slots) best h =
      rw (← append_assoc done (slot ∷ []) slots) (
        choose_from-Unbeaten (index + 1) (done ++ slot ∷ []) slots (challenged index slot best) (
          All-append (λ s. Unbeaten s (challenged index slot best)) done (slot ∷ []) (still done h)
            (challenged-Unbeaten index slot best, tt)))
    where
      still :
          (ss : List Slot)
          → All (λ s. Unbeaten s best) ss
          → All (λ s. Unbeaten s (challenged index slot best)) ss
      still [] k = tt
      still (s ∷ ss) (k, ks) = (challenged-keeps index slot s best k, still ss ks)

  challenged-Names :
      (done slots : List Slot) (index : ℕ) (slot : Slot) (best : Option Best)
      → length done ≡ index
      → Names (done ++ (slot ∷ slots)) best
      → Names (done ++ (slot ∷ slots)) (challenged index slot best)
  unfolding challenged
  challenged-Names done slots index slot best e h b q =
      elim (Bool-cases (is_idle slot.state && beats (slot_lcp c req slot) slot best)) [
        | inr f ↦ h b (sym (rw f refl) ∙ q)
        | inl f ↦
            let same : ◌≡◌ {A = Best}
                (record { index = index; lcp = slot_lcp c req slot; slot = slot }) b =
              some-injective _ _ (sym (rw f refl) ∙ q) in
            subst
              (λ (d : Best).
                (get_elem? (done ++ (slot ∷ slots)) d.index ≡ some d.slot)
                × (is_idle d.slot.state ≡ true)
                × (d.lcp ≡ slot_lcp c req d.slot))
              same (rw (← e) (get_elem?-append_at done slots slot), (&&_true _ _ f).0, refl)
      ]

  choose_from-Names :
      (index : ℕ) (done slots : List Slot) (best : Option Best)
      → length done ≡ index
      → Names (done ++ slots) best
      → Names (done ++ slots) (choose_from c req index slots best)
  unfolding choose_from challenged
  choose_from-Names index done [] best e h = h
  choose_from-Names index done (slot ∷ slots) best e h =
      rw (← append_assoc done (slot ∷ []) slots) (
        choose_from-Names (index + 1) (done ++ slot ∷ []) slots (challenged index slot best)
          (omega (arith, length-append done (slot ∷ [])))
          (rw (append_assoc done (slot ∷ []) slots)
            (challenged-Names done slots index slot best e h)))

  -- An idle slot finds a choice that is at least as good.
  abbrev pub IsBest : Option Best → Slot → Type 0
  IsBest best slot =
      is_idle slot.state ≡ true
      → (b : Best) × (best ≡ some b)
        × (slot_lcp c req slot ≤ b.lcp)
        × (slot_lcp c req slot ≡ b.lcp → b.slot.t_last_used ≤ slot.t_last_used)

  Unbeaten-IsBest : (best : Option Best) (slot : Slot) → Unbeaten slot best → IsBest best slot
  unfolding beats
  Unbeaten-IsBest none slot u i = absurd (ground (arith, u i))
  Unbeaten-IsBest (some b) slot u i = (b, refl, ground (arith, u i), λ e. ground (arith, u i))

  All-IsBest :
      (best : Option Best) (slots : List Slot)
      → All (λ s. Unbeaten s best) slots
      → All (IsBest best) slots
  All-IsBest best [] h = tt
  All-IsBest best (s ∷ slots) (u, h) = (Unbeaten-IsBest best s u, All-IsBest best slots h)

  -- The slot chosen, if any, is an idle slot of the list, named with its index and its usable
  -- prefix; and for each slot of the list that is idle there is a choice, which has a longer
  -- usable prefix, or the same and was not used later.
  pub choose_slot-IsBest :
      (slots : List Slot)
      → Names slots (choose_slot c req slots) × All (IsBest (choose_slot c req slots)) slots
  unfolding choose_slot
  choose_slot-IsBest slots = (
    choose_from-Names 0 [] slots none refl (λ b q. absurd (cc)),
    All-IsBest _ slots (choose_from-Unbeaten 0 [] slots none tt),
  )
