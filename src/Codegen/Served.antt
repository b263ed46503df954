-- ===== src/Codegen/Served.antt =====
-- What the Route of a generated channel does (GenerateServer, eddgen.go), as the server calls it. The codec
-- and the application's handlers are `Receiver`.
pub mod Cases
pub mod Handled
mod Tests
use eddwise.Base.{
  ℕ, Text, Text-discrete, codes, Dict, List, [], ◌∷◌, ◌++◌, Option, none, some, Bool, if◌then◌else◌,
  ite,
}
use eddwise.Design.{server_to_client, client_to_server, Struct, struct_name, DesignChannel}
use eddwise.Design.Members.{fields_with_strict_direction}
use eddwise.Design.Names.{go_name, struct_protocol_alias}
use eddwise.Send.{Error, decode_error, app_error}
use eddwise.Server.{State, EventMessage}
use eddwise.Codegen.{events}

-- ErrMissingServerHandler (eddwise.go).
abbrev pub err_missing_server_handler : Text → Text → Error
err_missing_server_handler ch_name [] = app_error (codes "empty event name")
err_missing_server_handler ch_name (c ∷ s) = app_error (
    codes "handler for event '"
    ++ ((c ∷ s) ++ (codes "' on channel '" ++ (ch_name ++ codes "' was not expected"))))

-- `switch evt.Name`, by the cases that the template prints.
unfoldable pub switch_case : Text → List (Text × Struct) → Option (Text × Struct)
switch_case name [] = none
switch_case name ((ev, s) ∷ es) =
    let rest = switch_case name es in
    ite (Text-discrete (struct_protocol_alias s) name) (some (ev, s)) rest

abbrev pub err_invalid_field : Struct → Text → Error
err_invalid_field s path =
    app_error (go_name (struct_name s) ++ (b'.' ∷ (path ++ codes " is an invalid field")))

-- CheckReceivedFields, by the paths that are not nil.
unfoldable pub check_received_fields : Struct → (Text → Bool) → List Text → Option Error
check_received_fields s is_set [] = none
check_received_fields s is_set (path ∷ paths) =
    let rest = check_received_fields s is_set paths in
    if is_set path then some (err_invalid_field s path) else rest

-- The paths that the template lists in the CheckReceivedFields of a struct. `none` is the failure of the
-- template, at a reference that is nil or at the end of the fuel: then there is no generated package.
unfoldable pub invalid_fields : ℕ → Dict Text Struct → Struct → Option (List Text)
unfolding fields_with_strict_direction
invalid_fields depth m s = fields_with_strict_direction depth m server_to_client s

-- Decoding a body as the struct of an event, the pointers of a message, and the handlers of the events.
pub record Receiver (M : Type 0) : Type 0 where
  pub decode : Text → Text → Option M
  pub is_set : M → Text → Bool
  pub handle : Text → ℕ → M → State → State × Option Error

-- `invalid` are the paths in the CheckReceivedFields of each struct of a package that was generated.
module _ {M : Type 0} (recv : Receiver M) (invalid : Struct → List Text) where
  abbrev pub unless_invalid : Option Error → State → State × Option Error → State × Option Error
  unless_invalid (some e) st handled = (st, some e)
  unless_invalid none st handled = handled

  unfoldable pub case_body : Text → Struct → ℕ → Option M → State → State × Option Error
  unfolding check_received_fields
  case_body ev s c none st = (st, some decode_error)
  case_body ev s c (some msg) st =
      unless_invalid (check_received_fields s (recv.is_set msg) (invalid s)) st
        (recv.handle ev c msg st)

  unfoldable pub on_case : Option (Text × Struct) → ℕ → EventMessage → State → State × Option Error
  unfolding case_body
  on_case none c evt st = (st, some (err_missing_server_handler evt.channel evt.name))
  on_case (some (ev, s)) c evt st = case_body ev s c (recv.decode ev evt.body) st

  -- Route.
  unfoldable pub route : DesignChannel → ℕ → EventMessage → State → State × Option Error
  unfolding switch_case on_case events
  route ch c evt st = on_case (switch_case evt.name (events client_to_server ch)) c evt st
