-- ===== src/Convert/Path.antt =====
-- The operations of `std::filesystem::path` on Unix that src/convert.cpp calls; 47 is '/', 46 is '.'.
use onyx_engine.Prelude.{
  ℕ, suc, ◌-◌, Bool, false, ◌||◌, Option, none, some, [], ◌∷◌, ◌++◌, length, take, drop, ◌==◌,
  if◌then◌else◌,
}
use onyx_engine.Prelude.Bytes.{Bytes, bytes, eqb}

after_slash : Bytes → Option Bytes
after_slash [] = none
after_slash (c ∷ s) = elim (after_slash s) [
  | some name ↦ some name
  | none ↦ if c == 47 then some s else none
]

unfoldable pub filename : Bytes → Bytes
unfolding after_slash
filename path = elim (after_slash path) [ none ↦ path | some name ↦ name ]

last_dot : Bytes → Option ℕ
last_dot [] = none
last_dot (c ∷ s) = elim (last_dot s) [
  | some i ↦ some (suc i)
  | none ↦ if c == 46 then some 0 else none
]

-- A name that begins with its only dot has no extension, and neither has "..".
dot_extension : Bytes → Option ℕ → Bytes
dot_extension name none = []
dot_extension name (some i) = if i == 0 || eqb name (bytes "..") then [] else drop i name

unfoldable pub extension : Bytes → Bytes
unfolding filename last_dot dot_extension
extension path = let name = filename path in dot_extension name (last_dot name)

-- A path without the slashes at its end.
strip_slashes : Bytes → Bytes
strip_slashes [] = []
strip_slashes (c ∷ s) = elim (strip_slashes s) [
  | [] ↦ if c == 47 then [] else c ∷ []
  | d ∷ t ↦ c ∷ d ∷ t
]

or_root : Bytes → Bytes → Bytes
or_root [] parent = []
or_root (c ∷ dir) [] = 47 ∷ []
or_root (c ∷ dir) (d ∷ parent) = d ∷ parent

unfoldable pub parent_path : Bytes → Bytes
unfolding filename strip_slashes or_root
parent_path path =
    let dir = take (length path - length (filename path)) path in or_root dir (strip_slashes dir)

ends_in_slash : Bytes → Bool
ends_in_slash [] = false
ends_in_slash (c ∷ []) = c == 47
ends_in_slash (c ∷ d ∷ s) = ends_in_slash (d ∷ s)

-- `dir / name` for a relative name.
unfoldable pub join : Bytes → Bytes → Bytes
unfolding ends_in_slash
join [] name = name
join (c ∷ dir) name =
    if ends_in_slash (c ∷ dir) then (c ∷ dir) ++ name else (c ∷ dir) ++ (47 ∷ name)
