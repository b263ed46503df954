-- ===== src/Codegen/Served/Handled.antt =====
-- A message to a generated channel of a running server.
use eddwise.Base.{
  ℕ, Text, text_key, get, At, All-at, List, [], Option, none, some, true, false, ◌≡◌, ◌≢◌, ◌↔◌,
  refl, ◌∙◌, sym, subst, inl, inr,
}
use eddwise.Design.{server_to_client, client_to_server, Struct, DesignChannel}
use eddwise.Design.Members.{fields_of}
use eddwise.Design.Members.Found.{fields_with_strict_direction-IsRight}
use eddwise.Design.Members.Strict.{StrictIn}
use eddwise.Design.Names.{struct_protocol_alias}
use eddwise.Design.Merge.{Design, structs_map}
use eddwise.Design.Nodes.{NodeView}
use eddwise.Design.Parsing.{done}
use eddwise.Design.Parsing.Files.{RawDesign, RawChannel, parse_yaml}
use eddwise.Send.{Error, decode_error}
use eddwise.Server.{State, Channel, App, EventMessage, room_event_of, process_event}
use eddwise.Server.Routing.{process_event-route}
use eddwise.World.{Env}
use eddwise.Codegen.{events}
use eddwise.Codegen.Routing.Agreed.{IsRouted, parse_yaml-IsRouted, parse_yaml-enabled}
use eddwise.Codegen.Served.{
  err_missing_server_handler, err_invalid_field, switch_case, Receiver, unless_invalid, case_body,
  on_case, route, invalid_fields,
}
use eddwise.Codegen.Served.Cases.{
  Sendable, switch_case-found, switch_case-Sendable, check_received_fields-cases,
}

-- The checks of a package are those that the template has listed.
abbrev pub Printed : ℕ → Design → (Struct → List Text) → Type 0
Printed depth d invalid_paths =
    (s : Struct)
    → At s d.structs
    → invalid_fields depth (structs_map d).1 s ≡ some (invalid_paths s)

module _ {M : Type 0} (recv : Receiver M) (d : Design) (ch : DesignChannel) (c : ℕ)
    (event : EventMessage) (st : State) where
  -- A path leads to a field of the struct that only the server may set, through fields without a mark.
  abbrev pub IsServerOnly : Struct → Text → Type 0
  IsServerOnly s path = StrictIn (structs_map d).1 server_to_client (fields_of s) path

  -- The four answers to a message: no event that clients may send has its name for an alias; its body
  -- is not one of the event's struct; a field is set that only the server may set, which the error names;
  -- no such field is set, and the handler of the event gets it.
  pub data Answered : State × Option Error → Type 0 where
    missing :
        ((ev : Text) (s : Struct) → Sendable ch ev s → struct_protocol_alias s ≢ event.name)
        → Answered (st, some (err_missing_server_handler event.channel event.name))
    undecoded :
        (ev : Text) (s : Struct)
        → Sendable ch ev s
        → struct_protocol_alias s ≡ event.name
        → recv.decode ev event.body ≡ none
        → Answered (st, some decode_error)
    invalid :
        (ev : Text) (s : Struct) (msg : M) (path : Text)
        → Sendable ch ev s
        → struct_protocol_alias s ≡ event.name
        → recv.decode ev event.body ≡ some msg
        → IsServerOnly s path
        → recv.is_set msg path ≡ true
        → Answered (st, some (err_invalid_field s path))
    handled :
        (ev : Text) (s : Struct) (msg : M)
        → Sendable ch ev s
        → struct_protocol_alias s ≡ event.name
        → recv.decode ev event.body ≡ some msg
        → ((path : Text) → IsServerOnly s path → recv.is_set msg path ≡ false)
        → Answered (recv.handle ev c msg st)

  module _ (depth : ℕ) (invalid_paths : Struct → List Text)
      (printed : Printed depth d invalid_paths)
      (enabled : (ev : Text) (s : Struct) → Sendable ch ev s → At s d.structs) where
    listed_iff :
        (ev : Text) (s : Struct)
        → Sendable ch ev s
        → (path : Text) → At path (invalid_paths s) ↔ IsServerOnly s path
    unfolding invalid_fields
    listed_iff ev s sendable =
        fields_with_strict_direction-IsRight (structs_map d).1 server_to_client depth s
          (invalid_paths s) (printed s (enabled ev s sendable))

    case_body-Answered :
        (ev : Text) (s : Struct) (o : Option M)
        → Sendable ch ev s
        → struct_protocol_alias s ≡ event.name
        → recv.decode ev event.body ≡ o
        → Answered (case_body recv invalid_paths ev s c o st)
    unfolding case_body
    case_body-Answered ev s none sendable same decoded = undecoded ev s sendable same decoded
    case_body-Answered ev s (some msg) sendable same decoded =
        let after_check = λ (o : Option Error).
          Answered (unless_invalid recv invalid_paths o st (recv.handle ev c msg st)) in
        elim (check_received_fields-cases s (recv.is_set msg) (invalid_paths s)) [
          | inl (fine, unset) ↦ subst after_check (sym fine) (
              handled ev s msg sendable same decoded (λ path only.
                All-at (λ p. recv.is_set msg p ≡ false) path (invalid_paths s) unset
                  ((listed_iff ev s sendable path).1 only)))
          | inr (path, listed, h, refused) ↦ subst after_check (sym refused) (
              invalid ev s msg path sendable same decoded ((listed_iff ev s sendable path).0 listed)
                h)
        ]

    on_case-Answered :
        IsRouted client_to_server ch
        → (o : Option (Text × Struct)) → switch_case event.name (events client_to_server ch) ≡ o
        → Answered (on_case recv invalid_paths o c event st)
    unfolding on_case
    on_case-Answered routed none h = missing (λ ev s sendable same.
        let found = switch_case-found ch event.name ev s routed sendable same in cc)
    on_case-Answered routed (some (ev, s)) h =
        let (sendable, same) = switch_case-Sendable ch event.name ev s h in
        case_body-Answered ev s (recv.decode ev event.body) sendable same refl

-- A message that is no room request, to a channel of a server whose Route is that of the package generated
-- for a design that is read from one file, where the fields that CheckReceivedFields tests can be listed for
-- each struct, is answered in one of four ways: without a change by ErrMissingServerHandler if its name is no
-- protocol alias of an event that clients may send in the channel, by the decoder's error, or by the error
-- of CheckReceivedFields for a field that is set and that only the server may set; and else, if no such
-- field is set, by the handler of the event whose alias its name is.
pub process_event-generated :
    {N M : Type 0} (view : NodeView N) (decode : N → Option (RawChannel N))
    (files : Text → Option (RawDesign N)) (fuel : ℕ) (path : Text) (d : Design) (ch : DesignChannel)
    (recv : Receiver M) (depth : ℕ) (invalid_paths : Struct → List Text) (app : App) (env : Env)
    (c : ℕ) (raw_event : Text) (event : EventMessage) (channel : Channel) (st : State)
    → parse_yaml view decode files fuel path ≡ done d
    → At ch d.channels
    → ((s : Struct)
        → At s d.structs
        → invalid_fields depth (structs_map d).1 s ≡ some (invalid_paths s))
    → app.decode_event raw_event ≡ some event
    → event.channel ≢ []
    → get event.channel st.server.registered_channels ≡ some channel
    → room_event_of app event ≡ none
    → app.route channel.alias c event st ≡ route recv invalid_paths ch c event st
    → Answered recv d ch c event st (process_event app env c raw_event st)
unfolding route
process_event-generated view decode files fuel path d ch recv depth invalid_paths app env c
      raw_event event channel st read at printed decoded named known no_request serves =
    let routed : IsRouted client_to_server ch =
      All-at (IsRouted client_to_server) ch d.channels
        (parse_yaml-IsRouted view decode files fuel path d client_to_server read) at in
    let run =
      process_event-route app env c raw_event st event channel decoded named known no_request in
    subst (Answered recv d ch c event st) (sym (run ∙ serves)) (
      on_case-Answered recv d ch c event st depth invalid_paths printed
        (λ ev s sendable.
          parse_yaml-enabled view decode files fuel path d ch ev s read at sendable.0)
        routed (switch_case event.name (events client_to_server ch)) refl)
