-- ===== src/Design/Parsing/Written.antt =====
-- A struct that stands in a file is read back from its node.
use eddwise.Base.{
  ℕ, zero, suc, ◌<◌, ◌%◌, ◌≢◌, Bool, Dict, get, insert, get-insert, Text, text_key, keys, values,
  map, List, [], ◌∷◌, Option, none, some, true, false, ◌≡◌, refl, sym, ap, ◌∙◌, subst, arith,
  length,
}
use eddwise.Design.{
  Tags, primitive, nested, ref, map_type, TypeWithAttributes, with_array, Fields, no_fields, field,
  Struct, struct,
}
use eddwise.Design.Annotations.{process_tags, get_comments}
use eddwise.Design.Members.{Field}
use eddwise.Design.Nodes.{NodeView, MapSlice, MapError, items_of, unmarshal_yaml}
use eddwise.Design.Nodes.Distinct.{evens, odds, unmarshal_yaml_lem}
use eddwise.Design.Types.{parsed, parse_field_string_type}
use eddwise.Design.Types.Parse.{notation}
use eddwise.Design.Types.Readback.{Readable, parse-notation}
use eddwise.Design.Parsing.{
  Outcome, done, ◌>>>◌, typed, scalar_field, nested_field, parse_fields, fields_or_error,
  parse_struct_by, by_kind, parse_field, parse_struct,
}

abbrev nameless : Tags → TypeWithAttributes → Text → Field
nameless tags t doc = record { tags = tags; name = []; type = t; doc = doc }

keys-nil : {N : Type 0} (ms : MapSlice N) → keys ms ≡ [] → ms ≡ []
keys-nil [] h = refl
keys-nil (x ∷ ms) h = cc

items-cons :
    {N : Type 0} (ms : MapSlice N) (a : Text) (xs : List Text) (b : N) (bs : List N)
    → keys ms ≡ a ∷ xs
    → values ms ≡ b ∷ bs
    → (later : MapSlice N) × (ms ≡ (a, b) ∷ later) × (keys later ≡ xs) × (values later ≡ bs)
items-cons [] a xs b bs h k = cc
items-cons ((x, y) ∷ ms) a xs b bs h k =
    let first : x ≡ a = cc in
    let second : y ≡ b = cc in
    (ms, ap (λ u. (u, y) ∷ ms) first ∙ ap (λ u. (a, u) ∷ ms) second, cc, cc)

-- No field has this name; no two fields have one name.
abbrev pub Unnamed : Text → Fields → Type 0
Unnamed k no_fields = Unit
Unnamed k (field tags name t doc fs) = (name ≢ k) × Unnamed k fs

abbrev pub NamedApart : Fields → Type 0
NamedApart no_fields = Unit
NamedApart (field tags name t doc fs) = Unnamed name fs × NamedApart fs

-- The names of the fields have not been seen.
abbrev Unseen : Fields → Dict Text Bool → Type 0
Unseen no_fields unique = Unit
Unseen (field tags name t doc fs) unique = (get name unique ≡ none) × Unseen fs unique

Unseen-later :
    (k : Text) (fs : Fields) (unique : Dict Text Bool)
    → Unnamed k fs
    → Unseen fs unique
    → Unseen fs (insert k true unique)
Unseen-later k no_fields unique h u = tt
Unseen-later k (field tags name t doc fs) unique h u =
    (ground (arith, get-insert k name true unique, u.0, h.0), Unseen-later k fs unique h.1 u.1)

all-Unseen : (fs : Fields) → Unseen fs []
unfolding get
all-Unseen no_fields = tt
all-Unseen (field tags name t doc fs) = (refl, all-Unseen fs)

module _ {N : Type 0} (view : NodeView N) where
  -- A scalar that holds a type in its notation, with the field's tags and comments.
  pub record IsLeaf (tags : Tags) (t : TypeWithAttributes) (doc : Text) (node : N) : Type 0 where
    pub scalar : view.is_scalar node ≡ true
    pub notated : notation t ≡ view.value node
    pub readable : Readable t
    pub leaf_tags : process_tags (view.tag node) ≡ tags
    pub leaf_doc :
        get_comments (view.head_comment node) (view.line_comment node) (view.foot_comment node)
        ≡ doc

  module _ (TypeNode : Tags → TypeWithAttributes → Text → N → Type 0) where
    -- The keys and the values of a mapping are the names, as scalars, and the types of the fields, in that
    -- order.
    abbrev pub FieldNodes : Fields → List N → Type 0
    FieldNodes no_fields nodes = nodes ≡ []
    FieldNodes (field tags name t doc fs) nodes =
        (k : N) × (v : N) × (rest : List N) × (nodes ≡ k ∷ v ∷ rest)
        × (view.is_scalar k ≡ true)
        × (view.value k ≡ name)
        × TypeNode tags t doc v
        × FieldNodes fs rest

    pub record IsStructNode (s : Struct) (node : N) : Type 0 where
      pub own_tags : Tags
      pub own_fields : Fields
      pub shape : s ≡ struct own_tags [] own_fields []
      pub tagged : process_tags (view.tag node) ≡ own_tags
      pub mapping : view.is_mapping node ≡ true
      pub apart : NamedApart own_fields
      pub listed : FieldNodes own_fields (view.content node)

    nodes-even : (fs : Fields) (nodes : List N) → FieldNodes fs nodes → length nodes % 2 ≡ 0
    nodes-even no_fields nodes h = subst (λ xs. length xs % 2 ≡ 0) (sym h) (omega arith)
    nodes-even (field tags name t doc fs) nodes (k, v, rest, e, scalar, named, node, more) =
        let inner = nodes-even fs rest more in
        subst (λ xs. length xs % 2 ≡ 0) (sym e) (omega (arith, inner))

    items_of-fine :
        (fs : Fields) (nodes : List N) (unique : Dict Text Bool)
        → FieldNodes fs nodes
        → NamedApart fs
        → Unseen fs unique
        → (items_of view nodes unique).1 ≡ none
    unfolding items_of
    items_of-fine no_fields nodes unique h d u =
        subst (λ xs. (items_of view xs unique).1 ≡ none) (sym h) refl
    items_of-fine (field tags name t doc fs) nodes unique (k, v, rest, e, scalar, named, node, more)
          d u =
        let new : get (view.value k) unique ≡ none =
          subst (λ x. get x unique ≡ none) (sym named) u.0 in
        let unseen : Unseen fs (insert (view.value k) true unique) =
          subst (λ x. Unseen fs (insert x true unique)) (sym named)
            (Unseen-later name fs unique d.0 u.1) in
        let inner = items_of-fine fs rest (insert (view.value k) true unique) more d.1 unseen in
        subst (λ xs. (items_of view xs unique).1 ≡ none) (sym e) (rw (scalar, new, items_of) inner)

    unmarshal_yaml-fine :
        (s : Struct) (node : N) → IsStructNode s node → (unmarshal_yaml view node).1 ≡ none
    unfolding unmarshal_yaml
    unmarshal_yaml-fine s node v =
        let even = nodes-even v.own_fields (view.content node) v.listed in
        let fine =
          items_of-fine v.own_fields (view.content node) [] v.listed v.apart
            (all-Unseen v.own_fields) in
        let mapping = v.mapping in ground arith

  -- A node of a field, nested at most so deep: a scalar, or a mapping without comments.
  abbrev pub TypeNode : ℕ → Tags → TypeWithAttributes → Text → N → Type 0
  TypeNode zero tags t doc node = ⊥
  TypeNode (suc n) tags (with_array a (primitive p)) doc node =
      IsLeaf tags (with_array a (primitive p)) doc node
  TypeNode (suc n) tags (with_array a (ref r)) doc node =
      IsLeaf tags (with_array a (ref r)) doc node
  TypeNode (suc n) tags (with_array a (map_type key t)) doc node =
      IsLeaf tags (with_array a (map_type key t)) doc node
  TypeNode (suc n) tags (with_array a (nested s)) doc node =
      (a ≡ 0)
      × (doc ≡ [])
      × (view.is_scalar node ≡ false)
      × (view.is_mapping node ≡ true)
      × (process_tags (view.tag node) ≡ tags)
      × IsStructNode (TypeNode n) s node

  scalar_field-IsLeaf :
      (tags : Tags) (t : TypeWithAttributes) (doc : Text) (node : N)
      → IsLeaf tags t doc node
      → scalar_field view node ≡ done (nameless tags t doc)
  unfolding scalar_field typed
  scalar_field-IsLeaf tags t doc node v =
      let size : length (notation t) < suc (length (view.value node)) =
        subst (λ s. length (notation t) < suc (length s)) v.notated (omega arith) in
      let read =
        subst (λ s. parse_field_string_type (suc (length (view.value node))) s ≡ some (parsed t))
          v.notated (parse-notation (suc (length (view.value node))) t v.readable size) in
      let doc_of : Text =
        get_comments (view.head_comment node) (view.line_comment node) (view.foot_comment node) in
      ap (λ r. typed r (λ u. nameless (process_tags (view.tag node)) u doc_of)) read
      ∙ ap (λ u. done (nameless u t doc_of)) v.leaf_tags
      ∙ ap (λ u. done (nameless tags t u)) v.leaf_doc

  parse_fields-nodes :
      (P : Tags → TypeWithAttributes → Text → N → Type 0) (parse : N → Outcome Field)
      → ((tags : Tags) (t : TypeWithAttributes) (doc : Text) (node : N)
          → P tags t doc node
          → parse node ≡ done (nameless tags t doc))
      → (fs : Fields) (nodes : List N) (ms : MapSlice N) → FieldNodes P fs nodes
      → keys ms ≡ map view.value (evens nodes)
      → values ms ≡ odds nodes
      → parse_fields view parse ms ≡ done fs
  unfolding parse_fields
  parse_fields-nodes P parse h no_fields nodes ms e ks vs =
      let none_left : ms ≡ [] = keys-nil ms (ks ∙ ap (λ xs. map view.value (evens xs)) e) in
      subst (λ x. parse_fields view parse x ≡ done no_fields) (sym none_left) refl
  parse_fields-nodes P parse h (field tags name t doc fs) nodes ms
        (k, v, rest, e, scalar, named, node, more) ks vs =
      let (later, same, ks', vs') =
        items-cons ms (view.value k) (map view.value (evens rest)) v (odds rest)
          (ks ∙ ap (λ xs. map view.value (evens xs)) e) (vs ∙ ap odds e) in
      let inner = parse_fields-nodes P parse h fs rest later more ks' vs' in
      ap (parse_fields view parse) same
      ∙ ap
          (λ (o : Outcome Field). o >>> (λ f.
            parse_fields view parse later
            >>> (λ gs. done (field f.tags (view.value k) f.type f.doc gs))))
          (h tags t doc v node)
      ∙ ap (λ (o : Outcome Fields). o >>> (λ gs. done (field tags (view.value k) t doc gs))) inner
      ∙ ap (λ x. done (field tags x t doc fs)) named

  fields_or_error-fine :
      (parse : N → Outcome Field) (r : MapSlice N × Option MapError)
      → r.1 ≡ none
      → fields_or_error view parse r ≡ parse_fields view parse r.0
  fields_or_error-fine parse (items, some e) h = cc
  fields_or_error-fine parse (items, none) h = refl

  leaf_case :
      (n : ℕ) (tags : Tags) (t : TypeWithAttributes) (doc : Text) (node : N)
      → IsLeaf tags t doc node
      → parse_field view (suc n) node ≡ done (nameless tags t doc)
  unfolding parse_field
  leaf_case n tags t doc node v =
      ap
        (λ b.
          by_kind b (view.is_mapping node) (scalar_field view node)
            (parse_struct_by view (parse_field view n) node >>> nested_field view node))
        v.scalar
      ∙ scalar_field-IsLeaf tags t doc node v

  parse_struct_by-written :
      (P : Tags → TypeWithAttributes → Text → N → Type 0) (parse : N → Outcome Field)
      → ((tags : Tags) (t : TypeWithAttributes) (doc : Text) (node : N)
          → P tags t doc node
          → parse node ≡ done (nameless tags t doc))
      → (s : Struct) (node : N) → IsStructNode P s node
      → parse_struct_by view parse node ≡ done s
  unfolding parse_struct_by
  parse_struct_by-written P parse h s node v =
      let fine = unmarshal_yaml-fine P s node v in
      let (distinct, ks, vs, even) = unmarshal_yaml_lem view node fine in
      let items : MapSlice N = (unmarshal_yaml view node).0 in
      let fields =
        parse_fields-nodes P parse h v.own_fields (view.content node) items v.listed ks vs in
      ap
        (λ (o : Outcome Fields).
          o >>> (λ fs. done (struct (process_tags (view.tag node)) [] fs [])))
        (fields_or_error-fine parse (unmarshal_yaml view node) fine ∙ fields)
      ∙ ap (λ tags. done (struct tags [] v.own_fields [])) v.tagged
      ∙ ap done (sym v.shape)

  parse_field-written :
      (n : ℕ) (tags : Tags) (t : TypeWithAttributes) (doc : Text) (node : N)
      → TypeNode n tags t doc node
      → parse_field view n node ≡ done (nameless tags t doc)
  unfolding parse_field
  parse_field-written zero tags t doc node v = absurd v
  parse_field-written (suc n) tags (with_array a (primitive p)) doc node v =
      leaf_case n tags _ doc node v
  parse_field-written (suc n) tags (with_array a (ref r)) doc node v = leaf_case n tags _ doc node v
  parse_field-written (suc n) tags (with_array a (map_type key t)) doc node v =
      leaf_case n tags _ doc node v
  parse_field-written (suc n) tags (with_array a (nested s)) doc node
        (e, f, scalar, mapping, tagged, inner) =
      let struct_field =
        parse_struct_by view (parse_field view n) node >>> nested_field view node in
      ap (λ b. by_kind b (view.is_mapping node) (scalar_field view node) struct_field) scalar
      ∙ ap (λ b. by_kind false b (scalar_field view node) struct_field) mapping
      ∙ ap (λ (o : Outcome Struct). o >>> nested_field view node)
          (parse_struct_by-written (TypeNode n) (parse_field view n) (parse_field-written n) s node
            inner)
      ∙ ap (λ u. done (nameless u (with_array 0 (nested s)) [])) tagged
      ∙ ap (λ u. done (nameless tags (with_array u (nested s)) [])) (sym e)
      ∙ ap (λ u. done (nameless tags (with_array a (nested s)) u)) (sym f)

  -- A struct without a name or comment of its own, whose fields have distinct names, at every depth, is read
  -- back with fuel for the depth of the nesting from a mapping whose keys are scalars with these names, in
  -- their order, and whose values are the types with the fields' tags and comments: a nested struct as such
  -- a mapping, without arrays or comment, and any other type as a scalar that holds its notation, where the
  -- names can be written (no plus or point in front of a primitive's name or a key, no arrow within a name).
  pub parse_struct-written :
      (n : ℕ) (s : Struct) (node : N)
      → IsStructNode (TypeNode n) s node
      → parse_struct view n node ≡ done s
  unfolding parse_struct
  parse_struct-written n s node v =
      parse_struct_by-written (TypeNode n) (parse_field view n) (parse_field-written n) s node v
