-- ===== src/Design/Annotations.antt =====
-- What the generator reads in a node's tag and comments: ProcessTags and GetComments (eddgen_yml.go).
mod Printed
mod Tests
use eddwise.Base.{
  ℕ, Text, Text-discrete, codes, List, [], ◌∷◌, ◌++◌, Option, none, some, Bool, true, false,
  if◌then◌else◌, ite, ℕ_discrete, ◌||◌,
}
use eddwise.Design.{Direction, any, server_to_client, client_to_server, Tags}

-- strings.Split at commas.
abbrev pub onto_first : ℕ → List Text → List Text
onto_first c [] = (c ∷ []) ∷ []
onto_first c (w ∷ ws) = (c ∷ w) ∷ ws

unfoldable pub split_commas : Text → List Text
split_commas [] = [] ∷ []
split_commas (c ∷ s) =
    let rest = split_commas s in ite (ℕ_discrete c b',') ([] ∷ rest) (onto_first c rest)

-- The key before the first "=", and the value after it.
unfoldable pub key_value : Text → Text × Text
key_value [] = ([], [])
key_value (c ∷ s) = let rest = key_value s in ite (ℕ_discrete c b'=') ([], s) (c ∷ rest.0, rest.1)

unfoldable pub apply_tag : Tags → Text × Text → Tags
apply_tag t (key, value) =
    ite (Text-discrete key (codes "client")) (record t { direction = client_to_server })
      (ite (Text-discrete key (codes "server")) (record t { direction = server_to_client })
        (ite (Text-discrete key (codes "alias")) (record t { alias = value }) t))

unfoldable pub apply_tags : Tags → List Text → Tags
unfolding apply_tag key_value
apply_tags t [] = t
apply_tags t (kvp ∷ kvps) = apply_tags (apply_tag t (key_value kvp)) kvps

abbrev pub no_tags : Tags
no_tags = record { alias = []; direction = any }

-- The text after "!!", if it begins so.
unfoldable pub after_marks : Text → Option Text
after_marks [] = none
after_marks (c ∷ []) = none
after_marks (c ∷ d ∷ s) = ite (ℕ_discrete c b'!') (ite (ℕ_discrete d b'!') (some s) none) none

-- ProcessTags, of the node's tag.
unfoldable pub process_tags : Text → Tags
unfolding split_commas apply_tags after_marks
process_tags raw = elim (after_marks raw) [
  | none ↦ no_tags
  | some s ↦ apply_tags no_tags (split_commas s)
]

-- strings.Trim of "# ".
unfoldable pub is_trimmed : ℕ → Bool
is_trimmed c = ite (ℕ_discrete c b'#') true (ite (ℕ_discrete c b' ') true false)

module _ (test : ℕ → Bool) where
  unfoldable pub trim_left : Text → Text
  trim_left [] = []
  trim_left (c ∷ s) = let rest = trim_left s in if test c then rest else c ∷ s

  unfoldable pub trim_right : Text → Text
  trim_right [] = []
  trim_right (c ∷ s) = elim (trim_right s) [
    | [] ↦ if test c then [] else c ∷ []
    | d ∷ rest ↦ c ∷ d ∷ rest
  ]

unfoldable pub trim : Text → Text
unfolding is_trimmed trim_left trim_right
trim s = trim_right is_trimmed (trim_left is_trimmed s)

-- One comment of a node, after those before it.
unfoldable pub add_comment : Text → Text → Text
unfolding trim
add_comment comment [] = comment
add_comment [] (c ∷ s) = trim (c ∷ s)
add_comment (d ∷ comment) (c ∷ s) = (d ∷ comment) ++ (b' ' ∷ trim (c ∷ s))

-- GetComments, of the node's head, line and foot comment.
unfoldable pub get_comments : Text → Text → Text → Text
unfolding add_comment
get_comments head line foot = add_comment (add_comment (add_comment [] head) line) foot
