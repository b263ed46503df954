-- ===== src/Codegen/Channel.antt =====
-- The code of a channel that GenerateServer (eddgen.go) prints, one line of the template to a line.
use eddwise.Base.{Text, codes, [], ◌∷◌}
use eddwise.Design.{server_to_client, client_to_server, Struct, DesignChannel}
use eddwise.Design.Fill.{fill, each, join}
use eddwise.Design.Names.{go_name, struct_protocol_alias}
use eddwise.Codegen.{events, channel_alias}

-- What makes a channel of the generated package an eddwise channel.
unfoldable pub channel_assertion : DesignChannel → Text
channel_assertion ch =
    fill (go_name ch.name ∷ [])
      ("\n" ∷ "var _ eddwise.ImplChannel = (*%0)(nil)\n" ∷ "var _ %0Recv = (*%0)(nil)\n" ∷ [])

-- A method of the receiver interface.
unfoldable pub recv_method : DesignChannel → Text × Struct → Text
recv_method ch (ev, s) = fill (go_name ev ∷ []) ("\n" ∷ "\tOn%0(eddwise.Context, *%0) error" ∷ [])

-- The case of an event in Route.
unfoldable pub route_case : DesignChannel → Text × Struct → Text
route_case ch (ev, s) = fill (ev ∷ struct_protocol_alias s ∷ go_name ev ∷ []) (
    "\n" ∷ "\t// %0\n" ∷ "\tcase \"%1\":\n" ∷ "\t\tvar msg = &%2{}\n"
    ∷ "\t\tif err := ch.server.Codec().Decode(evt.Body, msg); err != nil {\n" ∷ "\t\t\treturn err\n"
    ∷ "\t\t}\n" ∷ "\t\tif err := msg.CheckReceivedFields(); err != nil {\n" ∷ "\t\t\treturn err\n"
    ∷ "\t\t}\n" ∷ "\t\treturn ch.recv.On%2(ctx, msg)" ∷ [])

-- The handler that a channel has by default.
unfoldable pub unhandled_method : DesignChannel → Text × Struct → Text
unhandled_method ch (ev, s) = fill (go_name ch.name ∷ go_name ev ∷ []) (
    "\n" ∷ "func (ch *%0) On%1(eddwise.Context, *%1) error {\n"
    ∷ "\treturn errors.New(\"event '%1' is not handled on server\")\n" ∷ "}\n" ∷ [])

-- SendX.
unfoldable pub send_method : DesignChannel → Text × Struct → Text
send_method ch (ev, s) = fill (go_name ch.name ∷ go_name ev ∷ []) (
    "\n" ∷ "func (ch *%0) Send%1(client eddwise.Client, msg *%1) error {\n"
    ∷ "\treturn client.Send(ch.Alias(), msg)\n" ∷ "}\n" ∷ [])

-- BroadcastX.
unfoldable pub broadcast_method : DesignChannel → Text × Struct → Text
broadcast_method ch (ev, s) = fill (go_name ch.name ∷ go_name ev ∷ []) (
    "\n" ∷ "func (ch *%0) Broadcast%1(clients []eddwise.Client, msg *%1) error {\n"
    ∷ "\treturn eddwise.Broadcast(ch.Alias(), msg, clients)\n" ∷ "}\n" ∷ [])

-- The methods of a channel, up to the cases of Route.
unfoldable pub channel_methods : DesignChannel → Text
channel_methods ch = fill (go_name ch.name ∷ ch.name ∷ channel_alias ch ∷ []) (
    "\n" ∷ "}\n" ∷ "\n" ∷ "type %0 struct {\n" ∷ "\tserver eddwise.Server\n" ∷ "\trecv %0Recv\n"
    ∷ "}\n" ∷ "\n" ∷ "func (ch *%0) Name() string {\n" ∷ "\treturn \"%1\"\n" ∷ "}\n" ∷ "\n"
    ∷ "func (ch *%0) Alias() string {\n" ∷ "\treturn \"%2\"\n" ∷ "}\n" ∷ "\n"
    ∷ "func (ch *%0) Bind(server eddwise.Server) error {\n" ∷ "\tch.server = server\n"
    ∷ "\treturn nil\n" ∷ "}\n" ∷ "\n"
    ∷ "func (ch *%0) SetReceiver(chr eddwise.ImplChannel) error {\n"
    ∷ "\tif _, ok := chr.(%0Recv); !ok {\n"
    ∷ "\t\treturn errors.New(\"unexpected channel type while SetReceiver on '%0' channel\")\n"
    ∷ "\t}\n" ∷ "\tch.recv = chr.(%0Recv)\n" ∷ "\treturn nil\n" ∷ "}\n" ∷ "\n"
    ∷ "func (ch *%0) GetServer() eddwise.Server {\n" ∷ "\treturn ch.server\n" ∷ "}\n" ∷ "\n"
    ∷ "func (ch *%0) Route(ctx eddwise.Context, evt *eddwise.EventMessage) error {\n"
    ∷ "\tswitch evt.Name {\n" ∷ "\tdefault:\n"
    ∷ "\t\treturn eddwise.ErrMissingServerHandler(evt.Channel, evt.Name)\n" ∷ [])

-- The code of a channel.
unfoldable pub channel_code : DesignChannel → Text
unfolding events recv_method route_case unhandled_method send_method broadcast_method
    channel_methods
channel_code ch = join (
    fill (go_name ch.name ∷ []) ("\n" ∷ "type %0Recv interface {" ∷ [])
    ∷ each (recv_method ch) (events client_to_server ch)
    ∷ channel_methods ch
    ∷ each (route_case ch) (events client_to_server ch)
    ∷ codes "\n\t}\n}\n\n"
    ∷ each (unhandled_method ch) (events client_to_server ch)
    ∷ codes "\n\n"
    ∷ each (send_method ch) (events server_to_client ch)
    ∷ codes "\n"
    ∷ each (broadcast_method ch) (events server_to_client ch)
    ∷ codes "\n\n"
    ∷ [])
