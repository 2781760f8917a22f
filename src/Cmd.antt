-- ===== src/Cmd.antt =====
-- pkg/cmd/options.go: options of the command. A completer sets what is made of the flags; the state
-- holds the options beside the world.
use gardener_resource_manage.Prelude.{ℕ, String, Bool, Option, none, some, List, [], ◌∷◌, ◌++◌}
use gardener_resource_manage.Prelude.Tests.{string_eq}
use gardener_resource_manage.Prelude.Dict.{Dict, lookup}
use gardener_resource_manage.Exec.{Exec, pure, ◌>>◌}
pub mod Platform
pub mod Manager
pub mod Source
pub mod Target

-- The default of a flag; a duration is in seconds.
pub data FlagValue : Type 0 where
  bool : Bool → FlagValue
  text : String → FlagValue
  duration number : ℕ → FlagValue

-- pflag.FlagSet as the flags by name; a name that is taken is a panic, `none`.
abbrev pub FlagSet : Type 0
FlagSet = Dict String FlagValue

abbrev pub Flagger : Type 0
Flagger = FlagSet → Option FlagSet

abbrev pub add_var : String × FlagValue → Flagger
add_var (name, default) flags = elim (lookup name flags) [
  | none ↦ some ((name, default) ∷ flags)
  | some taken ↦ none
]

abbrev pub then_flags : Option FlagSet → Flagger → Option FlagSet
then_flags none flagger = none
then_flags (some flags) flagger = flagger flags

-- The calls of BoolVar and the like of one AddFlags.
unfoldable pub add_vars : List (String × FlagValue) → Flagger
add_vars [] flags = some flags
add_vars (var ∷ vars) flags = then_flags (add_var var flags) (add_vars vars)

unfoldable pub add_all_flags : List Flagger → Flagger
add_all_flags [] flags = some flags
add_all_flags (flagger ∷ flaggers) flags = then_flags (flagger flags) (add_all_flags flaggers)

module _ {S : Type 0} where
  unfoldable pub complete_all : List (Exec S (Unit {0})) → Exec S (Unit {0})
  complete_all [] = pure tt
  complete_all (complete ∷ completers) = complete >> complete_all completers

  -- The functions that add something to a manager.
  unfoldable pub add_all_to_manager :
      {M : Type 0} → M → List (M → Exec S (Unit {0})) → Exec S (Unit {0})
  add_all_to_manager mgr [] = pure tt
  add_all_to_manager mgr (add ∷ all) = add mgr >> add_all_to_manager mgr all
