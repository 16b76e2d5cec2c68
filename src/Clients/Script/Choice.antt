-- ===== src/Clients/Script/Choice.antt =====
-- tools/server_diff.py: the scenarios that `main` runs, and what `run` does of each.
use fujinet_intv_golf.Base.{
  ℕ, ◌==◌, not, ◌&&◌, List, [], ◌∷◌, ◌++◌, Option, none, some, if◌then◌else◌, is_empty,
}
use fujinet_intv_golf.Base.Texts.{codes}
use fujinet_intv_golf.Base.Assoc.{lookup}
use fujinet_intv_golf.Wire.{Text}
use fujinet_intv_golf.Clients.Script.{Command, syncs}
use fujinet_intv_golf.Clients.Script.VersionOne.{scenarios}

-- DEFAULT_ORDER_V1 and DEFAULT_ORDER_V2
unfoldable pub default_order : ℕ → List Text
default_order proto =
    if proto == 1
    then codes "roster" ∷ codes "pairing" ∷ codes "relay" ∷ codes "drops" ∷ codes "framing" ∷ []
    else codes "roster"
      ∷ codes "rooms"
      ∷ codes "start"
      ∷ codes "relay"
      ∷ codes "drops"
      ∷ codes "framing"
      ∷ []

-- What `main` goes on to compare, or why it stops.
pub data Choice : Type 0 where
  unknown_scenario : Text → Choice
  seats_not_diffable : Choice
  chosen : List Text → Choice

-- The first name that is not a scenario.
unfoldable pub first_unknown : List Text → List (Text × List Command) → Option Text
unfolding lookup
first_unknown [] table = none
first_unknown (n ∷ names) table = elim (lookup n table) [
  | none ↦ some n
  | some _ ↦ first_unknown names table
]

unfoldable pub choose : ℕ → ℕ → List Text → Choice
unfolding default_order first_unknown scenarios
choose proto seats wanted =
    let names = if is_empty wanted then default_order proto else wanted in
    elim (first_unknown names (scenarios proto seats)) [
      | some n ↦ unknown_scenario n
      | none ↦ if proto == 2 && not (seats == 4) then seats_not_diffable else chosen names
    ]

-- The script of `run`; none is a KeyError.
unfoldable pub script_of : ℕ → ℕ → Text → Option (List Command)
unfolding lookup scenarios
script_of proto seats name = elim (lookup name (scenarios proto seats)) [
  | none ↦ none
  | some acts ↦ some (acts ++ syncs (codes "final") ∷ [])
]
