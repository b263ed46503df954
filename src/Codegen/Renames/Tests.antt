-- ===== src/Codegen/Renames/Tests.antt =====
-- A message with renamed fields; and one whose alias is the name of another field.
use eddwise.Base.{
  Text, Text-discrete, ℕ, ℕ_discrete, text_key, codes, Dict, get, insert, delete, At, here, there,
  Distinct, [], ◌∷◌, map, none, some, ◌≡◌, ◌≢◌, refl, subst,
}
use eddwise.Design.{any, Tags, Fields, no_fields, field, primitive, with_array}
use eddwise.Design.Names.{alias_or}
use eddwise.Codegen.Events.{renamed}
use eddwise.Codegen.Renames.{swap, sent_fields, received_fields}
use eddwise.Codegen.Renames.Back.{received_fields-sent_fields}

abbrev aliased : Text → Tags
aliased alias = record { alias = alias; direction = any }

abbrev named : Text → Text → Fields → Fields
named name alias fs = field (aliased alias) name (with_array 0 (primitive (codes "int"))) [] fs

abbrev point : Fields
point =
    named (codes "left") (codes "l")
      (named (codes "top") (codes "t") (named (codes "z") [] no_fields))

abbrev origin : Dict Text ℕ
origin = (codes "left", 1) ∷ (codes "top", 2) ∷ (codes "z", 3) ∷ []

sent_runs : sent_fields point origin ≡ some ((codes "t", 2) ∷ (codes "l", 1) ∷ (codes "z", 3) ∷ [])
unfolding sent_fields renamed alias_or get insert delete Text-discrete ℕ_discrete
sent_runs = refl

-- A field that is absent makes the sender throw.
sent_throws : sent_fields {V = ℕ} point ((codes "left", 1) ∷ (codes "z", 3) ∷ []) ≡ none
unfolding sent_fields renamed alias_or get insert delete Text-discrete ℕ_discrete
sent_throws = refl

-- The alias of `a` is the name of `b`: the value of `b` is lost.
sent_loses :
    sent_fields {V = ℕ}
      (named (codes "a") (codes "b") (named (codes "b") [] no_fields))
      ((codes "a", 1) ∷ (codes "b", 2) ∷ [])
    ≡ some ((codes "b", 1) ∷ [])
unfolding sent_fields renamed alias_or get insert delete Text-discrete ℕ_discrete
sent_loses = refl

abbrev IsFree : Text × Text → Type 0
IsFree (name, alias) = (get name origin ≢ none) × (get alias origin ≡ none)

origin_movable :
    (name alias : Text)
    → At (name, alias) (renamed point)
    → (get name origin ≢ none) × (get alias origin ≡ none)
unfolding renamed alias_or get Text-discrete ℕ_discrete
origin_movable name alias (here p) = subst IsFree p (λ h. cc, refl)
origin_movable name alias (there (here p)) = subst IsFree p (λ h. cc, refl)
origin_movable name alias (there (there m)) = elim m [ ]

renamed-point-Distinct : Distinct (renamed point) × Distinct (map swap (renamed point))
unfolding renamed alias_or get Text-discrete ℕ_discrete
renamed-point-Distinct = ((refl, (refl, tt)), (refl, (refl, tt)))

received_fields-sent_fields_example :
    (sent back : Dict Text ℕ) × (sent_fields point origin ≡ some sent)
    × ((name alias : Text)
        → At (name, alias) (renamed point)
        → (get alias sent ≡ get name origin) × (get name sent ≡ none))
    × (received_fields point sent ≡ some back)
    × ((k : Text) → get k back ≡ get k origin)
received_fields-sent_fields_example =
    received_fields-sent_fields point origin origin_movable renamed-point-Distinct.0
      renamed-point-Distinct.1
