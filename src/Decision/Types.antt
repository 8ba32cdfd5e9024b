-- ===== src/Decision/Types.antt =====
-- src/decision.h and src/decision.cpp: the families of decision models.
use onyx_engine.Prelude.{
  ℕ, suc, min, Bool, true, false, Option, none, some, List, [], ◌∷◌, ◌++◌, ltb, if◌then◌else◌,
}
use onyx_engine.Prelude.Bytes.{Bytes, bytes, eqb}

pub data DecisionType : Type 0 where
  no_decision openjev lev kev nimble laya clef pplx_decider : DecisionType
  vllm_decision2 vllm_d3 lfm2_d1 lfm2_d1_omni granite_switch h2o_lightning : DecisionType
  unknown_decision : DecisionType

abbrev pub type_names : List (DecisionType × Bytes)
type_names =
    (openjev, bytes "openjev")
    ∷ (lev, bytes "lev")
    ∷ (kev, bytes "kev")
    ∷ (nimble, bytes "nimble")
    ∷ (laya, bytes "laya")
    ∷ (clef, bytes "clef")
    ∷ (pplx_decider, bytes "pplx-decider")
    ∷ (vllm_decision2, bytes "vllm-decision2")
    ∷ (vllm_d3, bytes "vllm-d3")
    ∷ (lfm2_d1, bytes "lfm2-d1")
    ∷ (lfm2_d1_omni, bytes "lfm2-d1-omni")
    ∷ (granite_switch, bytes "granite-switch")
    ∷ (h2o_lightning, bytes "h2o-lightning")
    ∷ []

named_type : List (DecisionType × Bytes) → Bytes → DecisionType
named_type [] name = unknown_decision
named_type ((t, n) ∷ rest) name = if eqb n name then t else named_type rest name

-- `meta` reads a string of the model's metadata, `none` if it is not there.
unfoldable pub onyx_decision_type_of : (Bytes → Option Bytes) → DecisionType
unfolding named_type
onyx_decision_type_of meta = elim (meta (bytes "general.architecture")) [
  | none ↦ no_decision
  | some [] ↦ no_decision
  | some (c ∷ arch) ↦ elim (meta ((c ∷ arch) ++ bytes ".decision.type")) [
    | none ↦ no_decision
    | some name ↦ named_type type_names name
  ]
]

unfoldable pub onyx_decision_reads_embeddings : DecisionType → Bool
onyx_decision_reads_embeddings laya = true
onyx_decision_reads_embeddings kev = true
onyx_decision_reads_embeddings clef = true
onyx_decision_reads_embeddings lfm2_d1_omni = true
onyx_decision_reads_embeddings vllm_decision2 = true
onyx_decision_reads_embeddings _ = false

unfoldable pub can_share_prompt : DecisionType → Bool
can_share_prompt openjev = true
can_share_prompt granite_switch = true
can_share_prompt lev = true
can_share_prompt kev = true
can_share_prompt nimble = true
can_share_prompt pplx_decider = true
can_share_prompt vllm_decision2 = true
can_share_prompt lfm2_d1 = true
can_share_prompt h2o_lightning = true
can_share_prompt _ = false

unfoldable pub can_use_images : DecisionType → Bool
can_use_images openjev = true
can_use_images clef = true
can_use_images pplx_decider = true
can_use_images vllm_d3 = true
can_use_images lfm2_d1 = true
can_use_images lfm2_d1_omni = true
can_use_images h2o_lightning = true
can_use_images _ = false

-- `pos_first` of a prompt: the pointer, the markers and the places of an order that are set.
least_marker : Option ℕ → List ℕ → Option ℕ
least_marker pos [] = pos
least_marker none (m ∷ ms) = least_marker (some m) ms
least_marker (some p) (m ∷ ms) = least_marker (some (min p m)) ms

first_set : ℕ → List Bool → Option ℕ
first_set i [] = none
first_set i (true ∷ order) = some i
first_set i (false ∷ order) = first_set (suc i) order

least : Option ℕ → Option ℕ → Option ℕ
least none b = b
least (some a) none = some a
least (some a) (some b) = some (min a b)

unfoldable pub pos_first : Option ℕ → List ℕ → List Bool → Option ℕ
unfolding least_marker first_set least
pos_first pointer markers order = least (least_marker pointer markers) (first_set 0 order)

pub data QuestionType : Type 0 where
  choice_question score_question noul_question : QuestionType

-- A question, by the number of its options.
unfoldable pub n_variants : DecisionType → QuestionType → ℕ → ℕ
n_variants lev choice_question n_options = if ltb 1 n_options then 2 else 1
n_variants _ _ n_options = 1
