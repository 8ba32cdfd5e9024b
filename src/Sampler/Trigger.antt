-- ===== src/Sampler/Trigger.antt =====
-- src/sampler.cpp: `onyx_trigger_pattern`, the regular expression that starts a lazy grammar.
pub mod Escape
use onyx_engine.Prelude.{ℕ, Bool, true, false, List, [], ◌∷◌, ◌++◌, contains, ◌==◌, if◌then◌else◌}
use onyx_engine.Prelude.Bytes.{Bytes, bytes}

pub data TriggerKind : Type 0 where
  trigger_word trigger_pattern trigger_pattern_full trigger_token : TriggerKind

pub record Trigger : Type 0 where
  pub kind : TriggerKind
  pub value : Bytes
  pub token : ℕ

-- The characters that a regular expression treats as special; 92 is the backslash.
abbrev pub special : Bytes
special = bytes ".^$|()*+?[]{}" ++ (92 ∷ [])

unfoldable pub escaped : Bytes → Bytes
escaped [] = []
escaped (c ∷ s) = let rest = escaped s in if contains special c then 92 ∷ c ∷ rest else c ∷ rest

-- 94 is '^' and 36 is '$'.
front_anchor : Bytes → Bytes
front_anchor [] = []
front_anchor (c ∷ p) = if c == 94 then [] else 94 ∷ []

back_anchor : Bytes → Bytes
back_anchor [] = []
back_anchor (c ∷ []) = if c == 36 then [] else 36 ∷ []
back_anchor (c ∷ d ∷ p) = back_anchor (d ∷ p)

anchored : Bytes → Bytes
unfolding front_anchor back_anchor
anchored [] = 94 ∷ 36 ∷ []
anchored (c ∷ p) = front_anchor (c ∷ p) ++ ((c ∷ p) ++ back_anchor (c ∷ p))

pattern_of : TriggerKind → Bytes → Bytes
unfolding anchored
pattern_of trigger_word value = escaped value
pattern_of trigger_pattern value = value
pattern_of trigger_pattern_full value = anchored value
pattern_of trigger_token value = []

unfoldable pub onyx_trigger_pattern : Trigger → Bytes
unfolding pattern_of
onyx_trigger_pattern trigger = pattern_of trigger.kind trigger.value
