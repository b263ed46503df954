-- ===== src/Design/GoTypes.antt =====
-- What the templates print of fields and structs in Go: GoType, GoAnnotation, DirectionDoc, GoDoc and
-- GoDef (structs.go), and LowerFirst of an ASCII name. The package regexp, which puts Go names into
-- comments, is the parameter `replace_word`.
mod Tests
use eddwise.Base.{Text, codes, List, [], ◌∷◌, ◌++◌, ◌+◌, if◌then◌else◌, ℕ}
use eddwise.Design.{
  Direction, any, server_to_client, client_to_server, Tags, Kind, primitive, nested, ref, map_type,
  TypeWithAttributes, with_array, Fields, no_fields, field, Struct, struct,
}
use eddwise.Design.Fill.{fill, if_text, trim_space}
use eddwise.Design.JsTypes.{repeat}
use eddwise.Design.Members.{Field}
use eddwise.Design.Names.{go_name, alias_or, between}

-- A field that is marked with a direction is a pointer.
unfoldable pub pointed : Direction → Text → Text
pointed any t = t
pointed server_to_client t = b'*' ∷ t
pointed client_to_server t = b'*' ∷ t

-- Field.GoAnnotation.
abbrev pub omitted : Direction → Text
omitted any = []
omitted server_to_client = codes ",omitempty"
omitted client_to_server = codes ",omitempty"

unfoldable pub go_annotation : Field → Text
unfolding alias_or
go_annotation f =
    codes "`json:"
    ++ (b'"' ∷ alias_or f.tags.alias f.name ++ (omitted f.tags.direction ++ (b'"' ∷ codes "`")))

-- The text of a direction, and Field.DirectionDoc.
abbrev pub direction_text : Direction → Text
direction_text any = []
direction_text server_to_client = codes "ServerToClient"
direction_text client_to_server = codes "ClientToServer"

unfoldable pub direction_doc : Field → Text
direction_doc f = elim f.tags.direction [
  | any ↦ []
  | server_to_client ↦ codes "// " ++ direction_text server_to_client
  | client_to_server ↦ codes "// " ++ direction_text client_to_server
]

module _ (replace_word : Text → Text → Text → Text) where
  -- GoDoc of a field or a struct: its name as a whole word becomes its Go name.
  unfoldable pub go_doc : Text → Text → Text
  unfolding go_name trim_space
  go_doc name doc =
      if_text doc (codes "// " ++ trim_space (replace_word name (go_name name) doc)) []

  -- GoDef: the text before the fields, and a field.
  unfoldable pub def_head : Text → Text → Text
  unfolding go_doc fill
  def_head name doc =
      if_text doc (fill (go_doc name doc ∷ []) ("\n" ∷ "%0\n" ∷ [])) []
      ++ if_text (go_name name) (fill (go_name name ∷ []) ("\n" ∷ "type %0 struct {" ∷ []))
          (codes "struct {")

  unfoldable pub def_field : Field → Text → Text
  unfolding go_doc fill go_annotation direction_doc
  def_field f type =
      if_text f.doc (fill (go_doc f.name f.doc ∷ []) ("\n" ∷ "\t%0" ∷ [])) []
      ++ fill (go_name f.name ∷ type ∷ go_annotation f ∷ direction_doc f ∷ [])
          ("\n" ∷ "\t%0 %1 %2 %3" ∷ [])

  -- GoType of PrimitiveType, NestedType, RefType, MapType and TypeWithAttributes, and Struct.GoDef.
  unfoldable mutual
    unfolding go_name repeat pointed def_head def_field

    pub go_kind : Kind → Text
    go_kind (primitive p) = p
    go_kind (nested s) = go_def s
    go_kind (ref r) = go_name r
    go_kind (map_type key t) = codes "map[" ++ (key ++ (b']' ∷ go_type t))

    pub go_type : TypeWithAttributes → Text
    go_type (with_array n k) = repeat (codes "[]") n ++ go_kind k

    pub go_fields : Fields → Text
    go_fields no_fields = []
    go_fields (field tags name t doc fs) =
        def_field (record { tags = tags; name = name; type = t; doc = doc })
          (pointed tags.direction (go_type t))
        ++ go_fields fs

    pub go_def : Struct → Text
    go_def (struct tags name fs doc) = def_head name doc ++ (go_fields fs ++ codes "\n}")

  -- Field.GoType.
  unfoldable pub field_go_type : Field → Text
  unfolding go_type pointed
  field_go_type f = pointed f.tags.direction (go_type f.type)

-- LowerFirst.
unfoldable pub lower_first : Text → Text
unfolding between
lower_first [] = []
lower_first (c ∷ s) = (if between b'A' b'Z' c then c + 32 else c) ∷ s
