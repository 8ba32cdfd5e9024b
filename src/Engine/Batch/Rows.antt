-- ===== src/Engine/Batch/Rows.antt =====
-- The row that `i_batch` names behind `onyx_engine::build_batch` (src/engine.cpp).
use onyx_engine.Prelude.{
  ℕ, zero, suc, ◌+◌, ◌-◌, ◌≤◌, min, ◌≡◌, refl, sym, subst, ◌∙◌, inl, inr, true, none, some, List,
  [], ◌∷◌, ◌++◌, map, length, get_or, get_elem?, get_elem?-append, get_elem?-append_at, arith, All,
  leb, ◌==◌, ==_iff, Bool-cases, some-injective,
}
use onyx_engine.Engine.Types.{Config, Slot, is_prefill, is_generating}
use onyx_engine.Engine.Llama.{Row}
use onyx_engine.Engine.Batch.{
  batch_add, decode_rows, put_next, put_prompt, prompt_row, feed, prompt_rows, count_prefilling,
  no_row, build_batch,
}

-- A slot that waits for logits finds them in a row of its own sequence, asked for with `logits`, at
-- the slot's last position.
abbrev pub LogitsRow : List Row → Slot → Type 0
LogitsRow batch slot =
    (i : ℕ)
    → slot.i_batch ≡ some i
    → (row : Row) × (get_elem? batch i ≡ some row)
      × (row.seq_id ≡ slot.seq_id)
      × (row.logits ≡ true)
      × (row.pos + 1 ≡ slot.n_past)

-- Rows are only added at the end.
abbrev Extends : List Row → List Row → Type 0
Extends batch batch' =
    (i : ℕ) (row : Row) → get_elem? batch i ≡ some row → get_elem? batch' i ≡ some row

decode_rows-Extends :
    (n_batch : ℕ) (slots : List Slot) (batch : List Row)
    → Extends batch (decode_rows n_batch slots batch).1
unfolding decode_rows
decode_rows-Extends n_batch [] batch i row h = h
decode_rows-Extends n_batch (slot ∷ slots) batch i row h =
    elim (Bool-cases (is_generating slot.state)) [
      | inr e ↦ rw (e, decode_rows) (decode_rows-Extends n_batch slots batch i row h)
      | inl e ↦ elim (Bool-cases (leb n_batch (length batch))) [
        | inl f ↦ rw (e, f, decode_rows) h
        | inr f ↦
            rw (e, f, decode_rows)
              (decode_rows-Extends n_batch slots _ i row (get_elem?-append batch _ i row h))
      ]
    ]

feed-Extends : (n : ℕ) (slot : Slot) (batch : List Row) → Extends batch (feed n slot batch).1
unfolding feed
feed-Extends zero slot batch i row h = h
feed-Extends (suc n) slot batch i row h =
    feed-Extends n (put_prompt slot (length batch)) (prompt_row slot batch) i row
      (get_elem?-append batch _ i row h)

prompt_rows-Extends :
    (per_slot end : ℕ) (slots : List Slot) (batch : List Row)
    → Extends batch (prompt_rows per_slot end slots batch).1
unfolding prompt_rows
prompt_rows-Extends per_slot end [] batch i row h = h
prompt_rows-Extends per_slot end (slot ∷ slots) batch i row h =
    elim (Bool-cases (is_prefill slot.state)) [
      | inr e ↦ rw (e, prompt_rows) (prompt_rows-Extends per_slot end slots batch i row h)
      | inl e ↦
          rw (e, prompt_rows)
            (prompt_rows-Extends per_slot end slots _ i row (feed-Extends _ slot batch i row h))
    ]

LogitsRow-Extends :
    (batch batch' : List Row) (slot : Slot)
    → Extends batch batch'
    → LogitsRow batch slot
    → LogitsRow batch' slot
LogitsRow-Extends batch batch' slot x l i e =
    let (row, at, seq, logits, pos) = l i e in (row, x i row at, seq, logits, pos)

LogitsRow-none : (batch : List Row) (slot : Slot) → slot.i_batch ≡ none → LogitsRow batch slot
LogitsRow-none batch slot e i h = absurd (cc (e, h))

All-none :
    (batch : List Row) (slots : List Slot)
    → All (λ s. s.i_batch ≡ none) slots
    → All (LogitsRow batch) slots
All-none batch [] h = tt
All-none batch (s ∷ slots) (e, h) = (LogitsRow-none batch s e, All-none batch slots h)

abbrev next_row : Slot → Row
next_row slot = record {
  token = slot.sampled;
  pos = slot.n_past;
  seq_id = slot.seq_id;
  logits = true;
}

abbrev chunk_row : Slot → Row
chunk_row slot = record {
  token = get_or slot.prompt slot.n_past 0;
  pos = slot.n_past;
  seq_id = slot.seq_id;
  logits = slot.n_past + 1 == length slot.prompt;
}

put_next-LogitsRow :
    (slot : Slot) (batch : List Row)
    → LogitsRow
        (batch_add batch slot.sampled slot.n_past slot.seq_id true)
        (put_next slot (length batch))
unfolding put_next
put_next-LogitsRow slot batch i e =
    let same : length batch ≡ i = some-injective _ _ e in
    (
      next_row slot,
      subst (λ k. get_elem? (batch ++ next_row slot ∷ []) k ≡ some (next_row slot)) same
          (get_elem?-append_at batch [] (next_row slot)),
      refl,
      refl,
      refl,
    )

decode_rows-LogitsRow :
    (n_batch : ℕ) (slots : List Slot) (batch : List Row)
    → All (λ s. s.i_batch ≡ none) slots
    → All (LogitsRow (decode_rows n_batch slots batch).1) (decode_rows n_batch slots batch).0
unfolding decode_rows
decode_rows-LogitsRow n_batch [] batch h = tt
decode_rows-LogitsRow n_batch (slot ∷ slots) batch (e, h) =
    elim (Bool-cases (is_generating slot.state)) [
      | inr g ↦
          rw (g, decode_rows) (LogitsRow-none _ slot e, decode_rows-LogitsRow n_batch slots batch h)
      | inl g ↦ elim (Bool-cases (leb n_batch (length batch))) [
        | inl f ↦ rw (g, f, decode_rows) (LogitsRow-none _ slot e, All-none batch slots h)
        | inr f ↦
            rw (g, f, decode_rows)
              (
                LogitsRow-Extends _ _ (put_next slot (length batch))
                    (decode_rows-Extends n_batch slots _) (put_next-LogitsRow slot batch),
                decode_rows-LogitsRow n_batch slots _ h,
              )
      ]
    ]

put_prompt-LogitsRow :
    (slot : Slot) (batch : List Row)
    → slot.n_past + 1 ≡ length slot.prompt
    → LogitsRow (prompt_row slot batch) (put_prompt slot (length batch))
unfolding put_prompt prompt_row
put_prompt-LogitsRow slot batch last i e =
    let t : (slot.n_past + 1 == length slot.prompt) ≡ true = (==_iff _ _).1 last in
    let same : length batch ≡ i = some-injective _ _ (sym (rw t refl) ∙ e) in
    (
      chunk_row slot,
      subst (λ k. get_elem? (batch ++ chunk_row slot ∷ []) k ≡ some (chunk_row slot)) same
          (get_elem?-append_at batch [] (chunk_row slot)),
      refl,
      t,
      refl,
    )

feed-LogitsRow :
    (n : ℕ) (slot : Slot) (batch : List Row)
    → slot.i_batch ≡ none
    → n ≤ length slot.prompt - slot.n_past
    → LogitsRow (feed n slot batch).1 (feed n slot batch).0
unfolding feed
feed-LogitsRow zero slot batch e l = LogitsRow-none batch slot e
feed-LogitsRow (suc n) slot batch e l = elim (Bool-cases (slot.n_past + 1 == length slot.prompt)) [
  | inl f ↦
      let last : slot.n_past + 1 ≡ length slot.prompt = (==_iff _ _).0 f in
      let over : n ≡ 0 = omega arith in
      subst
        (λ k.
          LogitsRow (feed k (put_prompt slot (length batch)) (prompt_row slot batch)).1
            (feed k (put_prompt slot (length batch)) (prompt_row slot batch)).0)
        (sym over) (put_prompt-LogitsRow slot batch last)
  | inr f ↦
      feed-LogitsRow n (put_prompt slot (length batch)) (prompt_row slot batch) (rw f e)
        (omega arith)
]

prompt_rows-LogitsRow :
    (per_slot end : ℕ) (slots : List Slot) (batch : List Row)
    → All (λ s. is_prefill s.state ≡ true → s.i_batch ≡ none) slots
    → All (LogitsRow batch) slots
    → All
        (LogitsRow (prompt_rows per_slot end slots batch).1)
        (prompt_rows per_slot end slots batch).0
unfolding prompt_rows
prompt_rows-LogitsRow per_slot end [] batch p h = tt
prompt_rows-LogitsRow per_slot end (slot ∷ slots) batch (e, p) (l, h) =
    elim (Bool-cases (is_prefill slot.state)) [
      | inr g ↦
          rw (g, prompt_rows)
            (
              LogitsRow-Extends _ _ slot (prompt_rows-Extends per_slot end slots batch) l,
              prompt_rows-LogitsRow per_slot end slots batch p h,
            )
      | inl g ↦
          rw (g, prompt_rows)
            (
              LogitsRow-Extends _ _ (feed n slot batch).0 (prompt_rows-Extends per_slot end slots _)
                  (feed-LogitsRow n slot batch (e g) (omega arith)),
              prompt_rows-LogitsRow per_slot end slots _ p (All-Extends slots h),
            )
    ]
  where
    n : ℕ
    n = min (length slot.prompt - slot.n_past) (min per_slot (end - length batch))

    All-Extends :
        (ss : List Slot) → All (LogitsRow batch) ss → All (LogitsRow (feed n slot batch).1) ss
    All-Extends [] t = tt
    All-Extends (s ∷ ss) (t, ts) =
        (LogitsRow-Extends _ _ s (feed-Extends n slot batch) t, All-Extends ss ts)

decode_rows-prefill :
    (n_batch : ℕ) (slots : List Slot) (batch : List Row)
    → All (λ s. s.i_batch ≡ none) slots
    → All (λ s. is_prefill s.state ≡ true → s.i_batch ≡ none) (decode_rows n_batch slots batch).0
unfolding decode_rows put_next
decode_rows-prefill n_batch [] batch h = tt
decode_rows-prefill n_batch (slot ∷ slots) batch (e, h) =
    elim (Bool-cases (is_generating slot.state)) [
      | inr g ↦ rw (g, decode_rows) (λ _. e, decode_rows-prefill n_batch slots batch h)
      | inl g ↦ elim (Bool-cases (leb n_batch (length batch))) [
        | inl f ↦ rw (g, f, decode_rows) (λ _. e, keep slots h)
        | inr f ↦
            rw (g, f, decode_rows)
              (λ p. absurd (ground arith), decode_rows-prefill n_batch slots _ h)
      ]
    ]
  where
    keep :
        (ss : List Slot)
        → All (λ s. s.i_batch ≡ none) ss
        → All (λ s. is_prefill s.state ≡ true → s.i_batch ≡ none) ss
    keep [] t = tt
    keep (s ∷ ss) (t, ts) = (λ _. t, keep ss ts)

no_rows : (slots : List Slot) → All (λ s. s.i_batch ≡ none) (map no_row slots)
no_rows [] = tt
no_rows (s ∷ slots) = (refl, no_rows slots)

-- Whatever the slots were, each slot that waits for logits after the build finds, at the batch row
-- it names, a row of its own sequence that asks for logits, at the last position it has evaluated.
pub build_batch-LogitsRow :
    (c : Config) (slots : List Slot)
    → All (LogitsRow (build_batch c slots).1) (build_batch c slots).0
unfolding build_batch
build_batch-LogitsRow c slots = elim (Bool-cases (count_prefilling decoded.0 == 0)) [
  | inl e ↦ rw (e, build_batch) rows
  | inr e ↦
      rw (e, build_batch)
        (prompt_rows-LogitsRow _ _ decoded.0 decoded.1
          (decode_rows-prefill c.n_batch (map no_row slots) [] (no_rows slots)) rows)
]
  where
    decoded : List Slot × List Row
    decoded = decode_rows c.n_batch (map no_row slots) []

    rows : All (LogitsRow decoded.1) decoded.0
    rows = decode_rows-LogitsRow c.n_batch (map no_row slots) [] (no_rows slots)
