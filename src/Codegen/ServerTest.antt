-- ===== src/Codegen/ServerTest.antt =====
-- GenerateServerTest (eddgen.go): the test doubles of a design's channels.
use eddwise.Base.{Text, codes, [], ◌∷◌}
use eddwise.Design.{client_to_server, Struct, DesignChannel}
use eddwise.Design.Fill.{fill, each, join}
use eddwise.Design.Merge.{Design}
use eddwise.Design.Names.{go_name}
use eddwise.Codegen.{events}

-- OnX of the test double of a channel.
unfoldable pub behave_method : Text → DesignChannel → Text × Struct → Text
behave_method design ch (ev, s) = fill (go_name ch.name ∷ go_name ev ∷ design ∷ []) (
    "\n" ∷ "func (cb *%0Behave) On%1(clientId uint64, evt *%2.%1, f ...func()) {\n"
    ∷ "\tcb.On(clientId,\n" ∷ "\t\tfunc(ctx eddwise.Context) error {\n"
    ∷ "\t\t\treturn cb.Recv().On%1(ctx, evt)\n" ∷ "\t\t}, evt, f...)\n" ∷ "}\n" ∷ [])

-- The test double of a channel.
unfoldable pub behave_code : Text → DesignChannel → Text
unfolding events behave_method
behave_code design ch = join (
    fill (go_name ch.name ∷ design ∷ []) (
      "\n" ∷ "type %0Behave struct {\n" ∷ "\t*mock.ChannelBehave\n" ∷ "}\n" ∷ "\n"
      ∷ "func New%0Behave(t *testing.T) *%0Behave {\n" ∷ "\treturn &%0Behave{\n"
      ∷ "\t\tChannelBehave: mock.NewBehaveChannel(t),\n" ∷ "\t}\n" ∷ "}\n" ∷ "\n"
      ∷ "func (cb *%0Behave) Recv() %1.%0Recv {\n"
      ∷ "\treturn cb.ChannelBehave.Recv().(%1.%0Recv)\n" ∷ "}\n" ∷ "\n" ∷ [])
    ∷ each (behave_method design ch) (events client_to_server ch)
    ∷ codes "\n\n"
    ∷ [])

-- GenerateServerTest, before go/format.
unfoldable pub generate_server_test : Text → Design → Text
unfolding behave_code
generate_server_test module_name d = join (
    fill (d.name ∷ module_name ∷ []) (
      "// Code generated by eddwise, DO NOT EDIT.\n" ∷ "\n" ∷ "package %0behave\n" ∷ "\n"
      ∷ "import (\n" ∷ "\t\"testing\"\n" ∷ "\n" ∷ "\t\"%1/gen/%0\"\n" ∷ "\t\n"
      ∷ "\t\"github.com/exelr/eddwise\"\n" ∷ "\t\"github.com/exelr/eddwise/mock\"\n" ∷ ")\n" ∷ [])
    ∷ each (behave_code d.name) d.channels
    ∷ codes "\n"
    ∷ [])
