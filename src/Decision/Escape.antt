-- ===== src/Decision/Escape.antt =====
-- src/decision.cpp: `onyx_decision_escape_special_tokens`. The loop looks at every place behind the
-- text it has done; here it goes from byte to byte, and `skip` bytes are done already.
pub mod Free
use onyx_engine.Prelude.{
  ℕ, zero, suc, ◌+◌, Bool, true, false, not, ◌&&◌, ◌||◌, Option, none, some, List, [], ◌∷◌, ◌++◌,
  length, drop, leb, ◌==◌, if◌then◌else◌,
}
use onyx_engine.Prelude.Bytes.{Bytes, starts}

-- A letter, a digit or '_'.
abbrev pub is_name : ℕ → Bool
is_name c = (leb 65 c && leb c 90) || (leb 97 c && leb c 122) || (leb 48 c && leb c 57) || c == 95

-- The name that a text begins with, and what follows it.
unfoldable pub name_run : Bytes → Bytes × Bytes
name_run [] = ([], [])
name_run (c ∷ s) =
    let (name, rest) = name_run s in if is_name c then (c ∷ name, rest) else ([], c ∷ s)

unfoldable pub closed_name : Bytes × Bytes → Option Bytes
closed_name ([], rest) = none
closed_name (c ∷ name, rest) = if starts (124 ∷ 62 ∷ []) rest then some (c ∷ name) else none

-- The name of the special token "<|name|>" that a text begins with.
unfoldable pub special_at : Bytes → Option Bytes
unfolding closed_name
special_at s = if starts (60 ∷ 124 ∷ []) s then closed_name (name_run (drop 2 s)) else none

-- "<¦name¦>", where "¦" is two bytes of UTF-8
abbrev pub escaped_token : Bytes → Bytes → Bytes
escaped_token name rest = 60 ∷ 194 ∷ 166 ∷ (name ++ (194 ∷ 166 ∷ 62 ∷ rest))

unfoldable pub escape_from : ℕ → Bytes → Bytes
escape_from skip [] = []
escape_from (suc skip) (c ∷ s) = escape_from skip s
escape_from zero (c ∷ s) = elim (special_at (c ∷ s)) [
  | none ↦ c ∷ escape_from zero s
  | some name ↦ escaped_token name (escape_from (length name + 3) s)
]

unfoldable pub onyx_decision_escape_special_tokens : Bytes → Bytes
unfolding escape_from
onyx_decision_escape_special_tokens text = escape_from 0 text
