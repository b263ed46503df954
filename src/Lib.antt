-- ===== src/Lib.antt =====
-- A verification library for eddwise, a server for websocket applications whose clients send events to
-- channels, and for the generator of its channels from YAML designs.
--
-- The program and its parts. `eddwise.go` holds the server: a registry of channels by alias, a registry
-- of connected clients, the routing of a message to its channel, and the handler of one connection,
-- which authenticates the client (`auth.go`), adds it to the registry, announces it (`user_join.go`),
-- reads messages until the connection fails, and cleans up with deferred calls. A channel may embed a
-- RoomManager (`room.go`) and a ConnManager (`auth.go`), which the server calls through optional
-- interfaces. `internal/eddgen` reads YAML designs, merges and checks them, and prints code.
--
-- Which file models what.
--   Base, Base.Lists, Base.Strings, Base.Maps: shared names; Go maps are association lists `Dict`.
--   Errors, Event: the errors and the events, with their names, aliases and send checks.
--   World: the shared mutable objects. A client is named by its id and a room by its allocation, so
--     that aliasing is equality of numbers; `sent` and `reports` record what was written. `Env` holds
--     what the code calls and does not define: the order of a range over a map and of goroutines, the
--     codec, and whether a write succeeds.
--   Send, Send.Delivery: ClientSocket.Send and Broadcast. Goroutines run in the order that `Env` gives,
--     each Send as a whole, since WriteMx guards it.
--   Room and its children: Room.Join, Room.Left, and all methods of RoomManager.
--   Conn and its children: ConnManager. `none` stands for a nil dereference, which panics.
--   Server and its children: ServerSocket, Register, GetClients, ProcessEvent. A
--     channel is the record of its optional interfaces; `App` holds its own methods, which may change
--     any of the state, and the decoding of messages.
--   States: StateManager, the one state that a client has, with the type assertion of ClientState.
--   Users and its children: ChannelBroadcastUserJoinLeft.
--   Session, Session.Handler, Session.Handler.Clears: CheckAuth, ProcessEventAuth, RevokeAuth, and the
--     connection handler of initWS. The messages that a connection delivers are a list, and the end of
--     the list is the read error.
--   Design and its children, of internal/eddgen: the types of structs.go, and
--     Design.Types, Design.Annotations: ParseFieldStringType, ProcessTags and GetComments;
--     Design.Nodes, Design.Parsing, Design.Parsing.Files: MapSlice, ParseStruct, ParseField, ParseYaml,
--       ParseYamls, ParseAndValidateYamls; `panicked` stands for a nil dereference;
--     Design.Directions, Design.Merge: the events of a channel, GetDirectionEvents, EnabledMap, Merge,
--       StructsMap, ChannelsMap;
--     Design.Validate, Design.Sort, Design.Accept: ValidateType, ValidateStruct, Validate;
--     Design.Names, Design.Members, Design.JsTypes, Design.GoTypes, Design.JsDef: GoName, ProtocolAlias, the
--       fields that the templates ask for, JsType, GoType, GoAnnotation, DirectionDoc, GoDoc, GoDef, JsDef;
--     Design.Fill: how a template prints: its lines are a list of texts in which %0, %1, ... stand for its
--       actions, a range over a map is in the order of the keys.
--     A node of a YAML file is a parameter, with what the code reads of it as `NodeView`.
--   Codegen and its children, of internal/eddgen/eddgen.go, a function per range of a template:
--     Codegen.Channel, Codegen.Server: GenerateServer; Codegen.ServerTest: GenerateServerTest;
--     Codegen.Events, Codegen.Client: GenerateClient; Codegen.Skeleton: SkeletonServer; Codegen.Page:
--       SkeletonClient. The replacement of whole words in comments (regexp) is a parameter.
--     Codegen.Routing, Codegen.Served: the labels of the generated cases, and what the generated Route
--       does with a message in a running server; Codegen.Renames: what the generated JavaScript does to
--       the properties of a message, where an object is the map of its own properties.
--   Command and its children: cmd/edd/main.go; the file system is the parameter `Host`. Command.Expand
--     gives it the templates of Codegen.
--   Samples and the modules named Tests: concrete states, runs, and the theorems applied to them.
--
-- Fuel. ParseFieldStringType recurses on the text after an arrow: more fuel than the text has bytes is
-- enough (Design.Types.Readback). ParseStruct goes down the tree of nodes: the depth of the node is enough
-- (Design.Parsing.Ends). ValidateStruct, and FieldsWithStrictDirection after it, follow references, which
-- need not end: where the references go down a rank, more fuel than the ranks is enough
-- (Design.Validate.Ends, Design.Accept.Valid, Design.Members.Given). GenerateServer ends with the fuel of
-- Validate (Codegen.Server.Given). Nothing else has fuel.
--
-- Bounds. ClientAutoInc wraps around at 2 ^ 64 and is written so. Texts are sequences of bytes;
-- strings.Title and LowerFirst are written for ASCII names.
--
-- What is not modelled: interleavings of two connections' handlers inside one operation, the start and
-- close of the server (calls of fiber), the serializers, the packages go/format and regexp, the mocks,
-- which are test doubles, and the browser client.
pub mod Base
pub mod Event
pub mod Errors
pub mod World
pub mod Send
pub mod Samples
pub mod Room
pub mod Codegen
pub mod Command
pub mod Conn
pub mod Design
pub mod Server
pub mod States
pub mod Users
pub mod Session
