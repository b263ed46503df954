-- ===== src/Design/Parsing.antt =====
-- ParseStruct and ParseField (eddgen_yml.go): a YAML node as a struct of a design. The recursion goes
-- down the tree of nodes, on fuel.
pub mod Ends
pub mod Files
pub mod Keyed
pub mod Sound
pub mod Single
mod Written
pub mod Tests
use eddwise.Base.{ℕ, zero, suc, Text, List, [], ◌∷◌, Option, none, some, Bool, true, false, length}
use eddwise.Design.{
  TypeWithAttributes, with_array, nested, Fields, no_fields, field, Struct, struct,
}
use eddwise.Design.Annotations.{process_tags, get_comments}
use eddwise.Design.Directions.{EventError}
use eddwise.Design.Members.{Field}
use eddwise.Design.Nodes.{NodeView, MapError, MapSlice, unmarshal_yaml}
use eddwise.Design.Merge.{MergeError}
use eddwise.Design.Validate.{ValidateError}
use eddwise.Design.Types.{ParsedType, parsed, bad_key, parse_field_string_type}

pub data ParseError : Type 0 where
  map_error : MapError → ParseError
  map_key_not_primitive : Text → ParseError
  unknown_field undecodable unreadable no_files : ParseError
  alias_used : Text → ParseError
  event_error : EventError → Text → ParseError
  merge_error : MergeError → ParseError
  validate_error : ValidateError → ParseError

-- A result, an error, a panic, or the end of the fuel.
pub data Outcome (A : Type 0) : Type 0 where
  no_fuel panicked : Outcome A
  failed : ParseError → Outcome A
  done : A → Outcome A

-- `x, err := f(); if err != nil { return nil, err }`.
infixl 5 ◌>>>◌
abbrev pub ◌>>>◌ : {A B : Type 0} → Outcome A → (A → Outcome B) → Outcome B
no_fuel >>> f = no_fuel
panicked >>> f = panicked
failed e >>> f = failed e
done a >>> f = f a

unfoldable pub typed : Option ParsedType → (TypeWithAttributes → Field) → Outcome Field
typed none f = no_fuel
typed (some (bad_key k)) f = failed (map_key_not_primitive k)
typed (some (parsed t)) f = done (f t)

-- The switch on the kind of a node.
abbrev pub by_kind : Bool → Bool → Outcome Field → Outcome Field → Outcome Field
by_kind true mapping scalar struct_field = scalar
by_kind false true scalar struct_field = struct_field
by_kind false false scalar struct_field = failed unknown_field

module _ {N : Type 0} (view : NodeView N) where
  -- ParseField of a scalar; a type has fewer arrows than bytes.
  unfoldable pub scalar_field : N → Outcome Field
  unfolding parse_field_string_type typed
  scalar_field node =
      typed (parse_field_string_type (suc (length (view.value node))) (view.value node)) (λ t.
        record {
          tags = process_tags (view.tag node);
          name = [];
          type = t;
          doc =
              get_comments (view.head_comment node) (view.line_comment node)
                (view.foot_comment node);
        })

  -- ParseField of a mapping, by the struct that is read from it.
  abbrev pub nested_field : N → Struct → Outcome Field
  nested_field node s = done (record {
    tags = process_tags (view.tag node);
    name = [];
    type = with_array 0 (nested s);
    doc = [];
  })

  module _ (parse : N → Outcome Field) where
    -- The loop of ParseStruct, by ParseField.
    unfoldable pub parse_fields : MapSlice N → Outcome Fields
    parse_fields [] = done no_fields
    parse_fields ((key, node) ∷ items) =
        parse node >>> (λ f. parse_fields items >>> (λ fs. done (field f.tags key f.type f.doc fs)))

    abbrev pub fields_or_error : MapSlice N × Option MapError → Outcome Fields
    fields_or_error (items, some e) = failed (map_error e)
    fields_or_error (items, none) = parse_fields items

    unfoldable pub parse_struct_by : N → Outcome Struct
    unfolding parse_fields unmarshal_yaml
    parse_struct_by node =
        fields_or_error (unmarshal_yaml view node)
        >>> (λ fs. done (struct (process_tags (view.tag node)) [] fs []))

  -- ParseField.
  unfoldable pub parse_field : ℕ → N → Outcome Field
  unfolding scalar_field parse_struct_by
  parse_field zero node = no_fuel
  parse_field (suc n) node =
      by_kind (view.is_scalar node) (view.is_mapping node) (scalar_field node)
        (parse_struct_by (parse_field n) node >>> nested_field node)

  -- ParseStruct.
  unfoldable pub parse_struct : ℕ → N → Outcome Struct
  unfolding parse_field
  parse_struct n = parse_struct_by (parse_field n)
