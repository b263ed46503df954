-- ===== src/Design/Nodes.antt =====
-- MapSlice.UnmarshalYAML (eddgen_yml.go): a YAML mapping as a list of items in the order of the file.
-- Nodes belong to the package yaml; `NodeView` is what the code reads of them.
pub mod Distinct
mod Tests
use eddwise.Base.{
  ℕ, ◌%◌, Text, text_key, Dict, get, insert, List, [], ◌∷◌, Option, none, some, Bool, true,
  if◌then◌else◌, ite, ℕ_discrete, length,
}

pub record NodeView (N : Type 0) : Type 0 where
  pub is_mapping : N → Bool
  pub is_scalar : N → Bool
  pub value : N → Text
  pub content : N → List N
  pub line : N → ℕ
  pub tag : N → Text
  pub head_comment : N → Text
  pub line_comment : N → Text
  pub foot_comment : N → Text

pub data MapError : Type 0 where
  not_a_map odd_content key_not_scalar duplicate_key : ℕ → MapError

abbrev pub MapSlice : Type 0 → Type 0
MapSlice N = List (Text × N)

module _ {N : Type 0} (view : NodeView N) where
  -- The loop, over the keys seen so far; a key without a value does not occur, since the number of
  -- nodes is even.
  unfoldable pub items_of : List N → Dict Text Bool → MapSlice N × Option MapError
  items_of [] unique = ([], none)
  items_of (k ∷ []) unique = ([], none)
  items_of (k ∷ v ∷ rest) unique =
      let more = items_of rest (insert (view.value k) true unique) in
      if view.is_scalar k
      then elim (get (view.value k) unique) [
        | some _ ↦ ([], some (duplicate_key (view.line k)))
        | none ↦ ((view.value k, v) ∷ more.0, more.1)
      ]
      else ([], some (key_not_scalar (view.line k)))

  -- MapSlice.UnmarshalYAML; what it leaves in the slice on an error is not read.
  unfoldable pub unmarshal_yaml : N → MapSlice N × Option MapError
  unfolding items_of
  unmarshal_yaml node =
      if view.is_mapping node
      then ite (ℕ_discrete (length (view.content node) % 2) 0) (items_of (view.content node) [])
          ([], some (odd_content (view.line node)))
      else ([], some (not_a_map (view.line node)))
