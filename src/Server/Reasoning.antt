-- ===== src/Server/Reasoning.antt =====
-- src/server.cpp: `build_reasoning_budget`.
pub mod Forced
use onyx_engine.Prelude.{
  ℕ, ◌-◌, Bool, true, false, not, ◌&&◌, Option, none, some, List, [], ◌∷◌, ◌++◌, length, drop, ltb,
  leb, if◌then◌else◌,
}
use onyx_engine.Prelude.Bytes.{Bytes, bytes, eqb}
use onyx_engine.Args.Types.{ℤ, pos, negsuc, Args}
use onyx_engine.Engine.Types.{ReasoningBudget}
use onyx_engine.Engine.Queue.{is_empty}

-- The parts of `onyx_chat_render` that it reads.
pub record Render : Type 0 where
  pub thinking_start_tag : Bytes
  pub thinking_end_tag : Bytes
  pub prompt : Bytes

abbrev pub or_tag : Bytes → Bytes → Bytes
or_tag [] default = default
or_tag (c ∷ tag) default = c ∷ tag

-- `prompt.compare(prompt.size() - tag.size(), tag.size(), tag) == 0`, where it is long enough.
unfoldable pub ends_with : Bytes → Bytes → Bool
ends_with prompt tag =
    leb (length tag) (length prompt) && eqb (drop (length prompt - length tag) prompt) tag

abbrev pub no_budget : ReasoningBudget
no_budget = record {
  enabled = false;
  budget = none;
  start_tag = [];
  end_tag = [];
  forced = [];
  start_in_prompt = false;
}

-- `override` is the body's `reasoning_budget_tokens`, where it is there and not null; `tokenize` is
-- `onyx_engine::tokenize` with special tokens parsed.
unfoldable pub chosen_budget : Args → Option ℤ → ℤ
chosen_budget args none = args.reasoning_budget
chosen_budget args (some n) = n

with_budget : (Bytes → List ℕ) → Args → Render → ℤ → ReasoningBudget
unfolding ends_with
with_budget tokenize args cr (negsuc n) = no_budget
with_budget tokenize args cr (pos n) =
    let start_tag = or_tag cr.thinking_start_tag (bytes "<think>") in
    let end_tag = or_tag cr.thinking_end_tag (bytes "</think>") in
    let message =
      if ltb 0 n && not (is_empty args.reasoning_budget_message)
      then tokenize args.reasoning_budget_message
      else [] in
    record {
      enabled = true;
      budget = some n;
      start_tag = tokenize start_tag;
      end_tag = tokenize end_tag;
      forced = message ++ tokenize end_tag;
      start_in_prompt = ends_with cr.prompt start_tag;
    }

unfoldable pub build_reasoning_budget :
    (Bytes → List ℕ) → Option ℤ → Args → Render → ReasoningBudget
unfolding with_budget chosen_budget
build_reasoning_budget tokenize override args cr =
    with_budget tokenize args cr (chosen_budget args override)
