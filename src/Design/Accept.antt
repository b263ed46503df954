-- ===== src/Design/Accept.antt =====
-- Design.Validate (eddgen.go): the checks of a whole design, and the order that it leaves.
pub mod Conditions
pub mod Valid
pub mod Tests
use eddwise.Base.{
  ℕ, Text, codes, text_key, Dict, get, keys, List, [], ◌∷◌, ◌++◌, Option, none, some,
}
use eddwise.Design.{Struct, DesignChannel, struct_name}
use eddwise.Design.Directions.{enabled_map}
use eddwise.Design.Merge.{Design, structs_map}
use eddwise.Design.Sort.{sort_by}
use eddwise.Design.Validate.{
  ValidateError, not_enabled_direction, unknown_enabled, reserved, Verdict, and_then,
  validate_struct,
}

abbrev pub first_error : Option ValidateError → Option ValidateError → Option ValidateError
first_error (some e) next = some e
first_error none next = next

-- "validate if direction of events in channels are ok"; a range over a map is in some order.
unfoldable pub check_marks : Dict Text Struct → List Text → Option ValidateError
check_marks enabled [] = none
check_marks enabled (t ∷ ts) = elim (get t enabled) [
  | none ↦ some (not_enabled_direction t)
  | some _ ↦ check_marks enabled ts
]

-- "validate if enabled type exists"
unfoldable pub check_enabled : Dict Text Struct → List Struct → Option ValidateError
check_enabled m [] = none
check_enabled m (t ∷ ts) = elim (get (struct_name t) m) [
  | none ↦ some (unknown_enabled (struct_name t))
  | some _ ↦ check_enabled m ts
]

unfoldable pub check_enabled_types : Dict Text Struct → List DesignChannel → Option ValidateError
unfolding check_enabled
check_enabled_types m [] = none
check_enabled_types m (ch ∷ chs) =
    first_error (check_enabled m ch.enabled) (check_enabled_types m chs)

-- "resolve type dependencies"
unfoldable pub validate_structs : ℕ → Dict Text Struct → List Struct → Verdict
unfolding validate_struct
validate_structs n m [] = some none
validate_structs n m (s ∷ ss) = and_then (validate_struct n m s) (validate_structs n m ss)

-- "entities named channel + …": the channel's name as the design has it, not its Go name.
abbrev pub reserved_names : Text → List Text
reserved_names name =
    (name ++ codes "Context") ∷ (name ++ codes "DefaultContext") ∷ (name ++ codes "Recv") ∷ []

unfoldable pub check_unused : Dict Text Struct → List Text → Option ValidateError
check_unused m [] = none
check_unused m (t ∷ ts) = elim (get t m) [ none ↦ check_unused m ts | some _ ↦ some (reserved t) ]

unfoldable pub check_reserved : Dict Text Struct → List DesignChannel → Option ValidateError
unfolding check_unused
check_reserved m [] = none
check_reserved m (ch ∷ chs) =
    first_error (check_unused m (reserved_names ch.name)) (check_reserved m chs)

abbrev pub channel_name : DesignChannel → Text
channel_name ch = ch.name

-- The two calls of sort.Slice.
unfoldable pub sort_design : Design → Design
unfolding sort_by
sort_design d = record d {
  structs = sort_by struct_name d.structs;
  channels = sort_by channel_name d.channels;
}

-- The end of Validate. What an error leaves of the design is not read.
unfoldable pub conclude : Design → Verdict → Option (Design × Option ValidateError)
unfolding sort_design
conclude d none = none
conclude d (some (some e)) = some (d, some e)
conclude d (some none) = some (sort_design (structs_map d).0, none)

module _ (order : (A : Type 0) → List A → List A) where
  unfoldable pub check_directions : List DesignChannel → Option ValidateError
  unfolding check_marks enabled_map
  check_directions [] = none
  check_directions (ch ∷ chs) =
      first_error (check_marks (enabled_map ch) (order Text (keys ch.server_to_client))) (
        first_error (check_marks (enabled_map ch) (order Text (keys ch.client_to_server)))
          (check_directions chs))

  -- The checks one after the other, before the sorting.
  unfoldable pub check_design : ℕ → Design → Verdict
  unfolding check_directions check_enabled_types validate_structs check_reserved structs_map
  check_design fuel d =
      let m = (structs_map d).1 in
      and_then (some (first_error (check_directions d.channels) (check_enabled_types m d.channels)))
        (and_then (validate_structs fuel m d.structs) (some (check_reserved m d.channels)))

  -- Design.Validate.
  unfoldable pub validate : ℕ → Design → Option (Design × Option ValidateError)
  unfolding check_design conclude
  validate fuel d = conclude d (check_design fuel d)
