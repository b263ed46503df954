-- ===== src/Codegen/Renames.antt =====
-- What the generated JavaScript does to the fields of a message (GenerateClient, eddgen.go): a sender
-- puts each field under its alias, a handler puts it back under its name, one statement per field. A
-- JavaScript object is the map of its own properties; `none` is the TypeError of Object.defineProperty
-- when getOwnPropertyDescriptor has found nothing.
pub mod Back
mod Tests
use eddwise.Base.{
  Text, text_key, Dict, get, insert, delete, List, [], ◌∷◌, map, Option, none, some, ◌>>=◌,
}
use eddwise.Design.{Fields}
use eddwise.Codegen.Events.{renamed}

abbrev pub swap : Text × Text → Text × Text
swap (name, alias) = (alias, name)

module _ {V : Type 0} where
  -- Object.defineProperty(o, to, Object.getOwnPropertyDescriptor(o, from)); delete o[from];
  unfoldable pub move_property : Text → Text → Dict Text V → Option (Dict Text V)
  move_property from to o = elim (get from o) [
    | none ↦ none
    | some v ↦ some (delete from (insert to v o))
  ]

  unfoldable pub move_each : List (Text × Text) → Dict Text V → Option (Dict Text V)
  unfolding move_property
  move_each [] o = some o
  move_each ((from, to) ∷ ms) o = move_property from to o >>= move_each ms

  -- The statements of a sender, and those of a handler.
  unfoldable pub sent_fields : Fields → Dict Text V → Option (Dict Text V)
  unfolding renamed move_each
  sent_fields fs o = move_each (renamed fs) o

  unfoldable pub received_fields : Fields → Dict Text V → Option (Dict Text V)
  unfolding renamed move_each
  received_fields fs o = move_each (map swap (renamed fs)) o
