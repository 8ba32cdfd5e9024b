-- ===== src/Args/Parse/Shown.antt =====
-- How the loop of `onyx_args_parse` (src/args.cpp) ends early.
use onyx_engine.Prelude.{◌≡◌, refl, ◌⊎◌, inl, inr, true, Option, none, some, List, [], ◌∷◌}
use onyx_engine.Prelude.Bytes.{Bytes}
use onyx_engine.Args.Types.{Args, Parsed, parsed, rejected}
use onyx_engine.Args.Parse.{
  Flag, help, version, toggle, value, Read, goes_on, shows, fails, and_then, flag_step, find_flag,
  flags, read_args,
}

abbrev pub Shown : Args → Type 0
Shown out = (out.show_help ≡ true) ⊎ (out.show_version ≡ true)

unfoldable pub Proper : Read → Type 0
Proper (goes_on out) = Unit
Proper (shows out) = Shown out
Proper (fails e) = Unit

and_then-Proper :
    (p : Parsed) (k : Args → Read) → ((o : Args) → Proper (k o)) → Proper (and_then p k)
unfolding and_then Proper
and_then-Proper (rejected e) k h = tt
and_then-Proper (parsed out) k h = h out

ProperValue : Option (Bytes × (Args → Read)) → Type 0
ProperValue none = Unit
ProperValue (some (val, rest)) = (o : Args) → Proper (rest o)

flag_step-Proper :
    (f : Option Flag) (out : Args) (next : Args → Read) (rest : Option (Bytes × (Args → Read)))
    → ((o : Args) → Proper (next o))
    → ProperValue rest
    → Proper (flag_step f out next rest)
unfolding flag_step Proper ProperValue
flag_step-Proper none out next rest h k = tt
flag_step-Proper (some help) out next rest h k = inl refl
flag_step-Proper (some version) out next rest h k = inr refl
flag_step-Proper (some (toggle set)) out next rest h k = h (set out)
flag_step-Proper (some (value set)) out next none h k = tt
flag_step-Proper (some (value set)) out next (some (val, rest)) h k =
    and_then-Proper (set out val) rest k

pub read_args-Proper : (argv : List Bytes) (out : Args) → Proper (read_args argv out)
unfolding read_args Proper ProperValue
read_args-Proper [] out = tt
read_args-Proper (arg ∷ []) out = flag_step-Proper (find_flag arg flags) out _ none (λ o. tt) tt
read_args-Proper (arg ∷ val ∷ argv) out =
    flag_step-Proper (find_flag arg flags) out _ (some (val, λ o. read_args argv o))
      (λ o. read_args-Proper (val ∷ argv) o) (λ o. read_args-Proper argv o)
