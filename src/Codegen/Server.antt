-- ===== src/Codegen/Server.antt =====
-- GenerateServer (eddgen.go): the Go package of a design, before go/format. Comments of the design go
-- through the package regexp, which is the parameter `replace_word`.
pub mod Given
mod Tests
use eddwise.Base.{ℕ, Text, codes, Dict, List, [], ◌∷◌, ◌++◌, Option, some, ◌>>=◌}
use eddwise.Design.{server_to_client, client_to_server, Struct, struct_name}
use eddwise.Design.Fill.{fill, each, join}
use eddwise.Design.GoTypes.{go_type, go_def}
use eddwise.Design.Members.{Field, top_fields_with_strict_direction, fields_with_strict_direction}
use eddwise.Design.Merge.{Design}
use eddwise.Design.Names.{go_name, struct_protocol_alias}
use eddwise.Codegen.Channel.{channel_assertion, channel_code}

-- A field that only the client sets, given by its path.
unfoldable pub unsent_check : Struct → Text → Text
unsent_check s path = fill (path ∷ go_name (struct_name s) ∷ []) (
    " \n" ∷ "\tif evt.%0 != nil {\n" ∷ "\t\treturn errors.New(\"%1.%0 must not be set\")\n" ∷ "\t}"
    ∷ [])

-- A field that only the server sets.
unfoldable pub invalid_check : Struct → Text → Text
invalid_check s path = fill (path ∷ go_name (struct_name s) ∷ []) (
    " \n" ∷ "\tif evt.%0 != nil {\n" ∷ "\t\treturn errors.New(\"%1.%0 is an invalid field\")\n"
    ∷ "\t}" ∷ [])

module _ (replace_word : Text → Text → Text → Text) where
  -- The setter of a field that only the server sets.
  unfoldable pub setter : Struct → Field → Text
  unfolding go_type
  setter s f =
      fill (go_name (struct_name s) ∷ go_name f.name ∷ f.name ∷ go_type replace_word f.type ∷ []) (
        " \n" ∷ "func (evt *%0) Set%1(%2 %3) *%0 {\n" ∷ "\tevt.%1 = &%2\n" ∷ "\treturn evt\n" ∷ "}"
        ∷ [])

  -- The code of a struct, by the paths of the fields that have a direction.
  unfoldable pub struct_text : Struct → List Text → List Text → Text
  unfolding go_def unsent_check invalid_check setter top_fields_with_strict_direction
  struct_text s unsent invalid = join (
      fill
        (go_def replace_word s
          ∷ go_name (struct_name s)
          ∷ struct_name s
          ∷ struct_protocol_alias s
          ∷ [])
        ("\n" ∷ "%0\n" ∷ "\n" ∷ "func (evt *%1) GetEventName() string {\n" ∷ "\treturn \"%2\"\n"
          ∷ "}\n" ∷ "\n" ∷ "func (evt *%1) ProtocolAlias() string {\n" ∷ "\treturn \"%3\"\n" ∷ "}\n"
          ∷ "\n" ∷ "func (evt *%1) CheckSendFields() error {" ∷ [])
      ∷ each (unsent_check s) unsent
      ∷ fill (go_name (struct_name s) ∷ []) (
          "\n" ∷ "\treturn nil\n" ∷ "}\n" ∷ "\n" ∷ "func (evt *%0) CheckReceivedFields() error {"
          ∷ [])
      ∷ each (invalid_check s) invalid
      ∷ codes "\n\treturn nil\n}"
      ∷ each (setter s) (top_fields_with_strict_direction server_to_client s)
      ∷ codes "\n\n"
      ∷ [])

  -- A struct of the generated package; `none` is an error of the template, from a reference that is
  -- nil, or the end of the fuel.
  unfoldable pub struct_code : ℕ → Dict Text Struct → Struct → Option Text
  unfolding struct_text fields_with_strict_direction
  struct_code fuel m s = do
    unsent ← fields_with_strict_direction fuel m client_to_server s
    invalid ← fields_with_strict_direction fuel m server_to_client s
    some (struct_text s unsent invalid)

  -- The range over the structs, which ends at the first error.
  unfoldable pub structs_code : ℕ → Dict Text Struct → List Struct → Option Text
  unfolding struct_code
  structs_code fuel m [] = some []
  structs_code fuel m (s ∷ ss) = do
    code ← struct_code fuel m s
    rest ← structs_code fuel m ss
    some (code ++ rest)

  -- The package, by the code of its structs.
  unfoldable pub server_text : Design → Text → Text
  unfolding channel_assertion channel_code
  server_text d structs = join (
      fill (d.name ∷ []) (
        "// Code generated by eddwise, DO NOT EDIT.\n" ∷ "\n" ∷ "package %0\n" ∷ "\n" ∷ "import(\n"
        ∷ "\t\"errors\"\n" ∷ "\n" ∷ "\t\"github.com/exelr/eddwise\"\n" ∷ ")\n" ∷ [])
      ∷ each channel_assertion d.channels
      ∷ codes "\n"
      ∷ each channel_code d.channels
      ∷ codes "\n\n// Event structures\n"
      ∷ structs
      ∷ codes "\n"
      ∷ [])

  -- GenerateServer, before go/format.
  unfoldable pub generate_server : ℕ → Dict Text Struct → Design → Option Text
  unfolding server_text structs_code
  generate_server fuel m d = do
    structs ← structs_code fuel m d.structs
    some (server_text d structs)
