-- ===== src/Design/Annotations/Printed.antt =====
-- Tags read back from the way they are written.
use eddwise.Base.{
  Text, Text-discrete, codes, List, [], ◌∷◌, ◌++◌, All, ◌≡◌, ◌≢◌, refl, ap, ◌∙◌, arith, ℕ_discrete,
}
use eddwise.Design.{Direction, any, server_to_client, client_to_server, Tags}
use eddwise.Design.Annotations.{
  onto_first, split_commas, key_value, apply_tag, apply_tags, no_tags, after_marks, process_tags,
}

-- The tag of a node with a direction, an alias, both or neither.
abbrev pub direction_word : Direction → Text
direction_word any = []
direction_word server_to_client = codes "server"
direction_word client_to_server = codes "client"

abbrev pub written : Tags → Text
written t = codes "!!" ++ (direction_word t.direction ++ (b',' ∷ (codes "alias=" ++ t.alias)))

abbrev NoComma : Text → Type 0
NoComma = All (λ c. c ≢ b',')

split_commas-whole : (s : Text) → NoComma s → split_commas s ≡ s ∷ []
unfolding split_commas
split_commas-whole [] h = refl
split_commas-whole (c ∷ s) h = let rest = split_commas-whole s h.1 in ground arith

-- The letters of a word before the first of the pieces.
abbrev onto_word : Text → List Text → List Text
onto_word [] ws = ws
onto_word (c ∷ w) ws = onto_first c (onto_word w ws)

apply_tags-alias :
    (t : Tags) (a : Text)
    → NoComma a
    → apply_tags t (split_commas (codes "alias=" ++ a)) ≡ record t { alias = a }
unfolding apply_tags apply_tag split_commas key_value Text-discrete ℕ_discrete
apply_tags-alias t a h =
    ap (λ ws. apply_tags t (onto_word (codes "alias=") ws)) (split_commas-whole a h)

apply_tags-direction :
    (d : Direction) (s : Text)
    → apply_tags no_tags (split_commas (direction_word d ++ b',' ∷ s))
      ≡ apply_tags (record { alias = []; direction = d }) (split_commas s)
unfolding apply_tags apply_tag split_commas key_value Text-discrete ℕ_discrete
apply_tags-direction any s = refl
apply_tags-direction server_to_client s = refl
apply_tags-direction client_to_server s = refl

-- What is written for a direction and an alias without a comma is read back as that direction and
-- that alias.
pub process_tags-written : (t : Tags) → All (λ c. c ≢ b',') t.alias → process_tags (written t) ≡ t
unfolding process_tags after_marks ℕ_discrete
process_tags-written t h =
    apply_tags-direction t.direction (codes "alias=" ++ t.alias)
    ∙ apply_tags-alias (record { alias = []; direction = t.direction }) t.alias h
