-- ===== src/Design/Fill.antt =====
-- text/template and strings.TrimSpace, as the generator's templates (eddgen.go, structs.go) use them. A
-- template is the list of its lines; "%0", "%1", … stand for its first, second, … action. What an action
-- prints is not read again.
mod Tests
use Prim.Native.String.{String}
use eddwise.Base.{
  ℕ, zero, suc, ◌-◌, Text, codes, List, [], ◌∷◌, ◌++◌, Bool, true, false, if◌then◌else◌, ite,
  ℕ_discrete, dec_le,
}
use eddwise.Design.Annotations.{trim_left, trim_right}
use eddwise.Design.Names.{between}
use eddwise.Design.Sort.{sort_by}

abbrev pub argument : List Text → ℕ → Text
argument [] n = []
argument (a ∷ rest) zero = a
argument (a ∷ rest) (suc n) = argument rest n

unfoldable pub fill_line : List Text → Text → Text
fill_line args [] = []
fill_line args (c ∷ []) = c ∷ []
fill_line args (c ∷ d ∷ s) =
    let action = argument args (d - b'0') ++ fill_line args s in
    let text = c ∷ fill_line args (d ∷ s) in ite (ℕ_discrete c b'%') action text

unfoldable pub fill : List Text → List String → Text
unfolding fill_line
fill args [] = []
fill args (l ∷ ls) = fill_line args (codes l) ++ fill args ls

-- `range`.
unfoldable pub each {ℓ} : {A : Type ℓ} → (A → Text) → List A → Text
each f [] = []
each f (x ∷ xs) = f x ++ each f xs

-- The parts of a template, one after the other.
abbrev pub join : List Text → Text
join [] = []
join (x ∷ xs) = x ++ join xs

-- `if` of a text: the empty one is false.
abbrev pub if_text : Text → Text → Text → Text
if_text [] yes_text no_text = no_text
if_text (c ∷ s) yes_text no_text = yes_text

-- A range over a map with texts for keys is in the order of the keys.
unfoldable pub in_key_order : {A : Type 0} → List (Text × A) → List (Text × A)
unfolding sort_by
in_key_order m = sort_by (λ e. e.0) m

-- strings.TrimSpace, of ASCII spaces.
unfoldable pub is_space : ℕ → Bool
unfolding between
is_space c = if between 9 13 c then true else ite (ℕ_discrete c b' ') true false

unfoldable pub trim_space : Text → Text
unfolding is_space trim_left trim_right
trim_space s = trim_right is_space (trim_left is_space s)
