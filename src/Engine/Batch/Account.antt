-- ===== src/Engine/Batch/Account.antt =====
-- `onyx_engine::build_batch` (src/engine.cpp) moves no request and changes the state of no slot.
use onyx_engine.Prelude.{
  ℕ, zero, suc, ◌≡◌, refl, ap, ap₂, ◌∙◌, ◌==◌, leb, if_both, Option, List, [], ◌∷◌, length, map,
}
use onyx_engine.Engine.Types.{Config, Slot, GenRequest, SlotState, is_generating, is_prefill}
use onyx_engine.Engine.Llama.{Row}
use onyx_engine.Engine.Batch.{
  put_next, decode_rows, put_prompt, prompt_row, feed, prompt_rows, no_row, count_prefilling,
  build_batch,
}

-- What the account reads of the slots.
unfoldable pub roles : List Slot → List (SlotState × Option GenRequest)
roles [] = []
roles (slot ∷ slots) = (slot.state, slot.req) ∷ roles slots

abbrev Same : List Slot → List Slot × List Row → Type 0
Same slots p = roles p.0 ≡ roles slots

roles-no_row : (slots : List Slot) → roles (map no_row slots) ≡ roles slots
unfolding roles
roles-no_row [] = refl
roles-no_row (slot ∷ slots) =
    ap (λ (rs : List (SlotState × Option GenRequest)). (slot.state, slot.req) ∷ rs)
      (roles-no_row slots)

decode_rows-Same :
    (n_batch : ℕ) (slots : List Slot) (batch : List Row)
    → Same slots (decode_rows n_batch slots batch)
unfolding decode_rows put_next roles
decode_rows-Same n_batch [] batch = refl
decode_rows-Same n_batch (slot ∷ slots) batch =
    if_both (Same (slot ∷ slots)) (is_generating slot.state)
      (if_both (Same (slot ∷ slots)) (leb n_batch (length batch)) refl (
        ap (λ (rs : List (SlotState × Option GenRequest)). (slot.state, slot.req) ∷ rs)
          (decode_rows-Same n_batch slots _)))
      (ap (λ (rs : List (SlotState × Option GenRequest)). (slot.state, slot.req) ∷ rs)
        (decode_rows-Same n_batch slots batch))

abbrev role : Slot → SlotState × Option GenRequest
role slot = (slot.state, slot.req)

feed-role : (n : ℕ) (slot : Slot) (batch : List Row) → role (feed n slot batch).0 ≡ role slot
unfolding feed put_prompt
feed-role zero slot batch = refl
feed-role (suc n) slot batch = feed-role n _ (prompt_row slot batch)

prompt_rows-Same :
    (per_slot end : ℕ) (slots : List Slot) (batch : List Row)
    → Same slots (prompt_rows per_slot end slots batch)
unfolding prompt_rows roles
prompt_rows-Same per_slot end [] batch = refl
prompt_rows-Same per_slot end (slot ∷ slots) batch =
    if_both (Same (slot ∷ slots)) (is_prefill slot.state)
      (ap₂ ◌∷◌ (feed-role _ slot batch) (prompt_rows-Same per_slot end slots _))
      (ap (λ (rs : List (SlotState × Option GenRequest)). role slot ∷ rs)
        (prompt_rows-Same per_slot end slots batch))

pub build_batch-roles :
    (c : Config) (slots : List Slot) → roles (build_batch c slots).0 ≡ roles slots
unfolding build_batch
build_batch-roles c slots =
    if_both (Same slots) (count_prefilling d.0 == 0) same (prompt_rows-Same _ _ d.0 d.1 ∙ same)
  where
    d : List Slot × List Row
    d = decode_rows c.n_batch (map no_row slots) []

    same : roles d.0 ≡ roles slots
    same = decode_rows-Same c.n_batch (map no_row slots) [] ∙ roles-no_row slots
