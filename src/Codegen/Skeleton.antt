-- ===== src/Codegen/Skeleton.antt =====
-- SkeletonServer (eddgen.go): the three Go files to start from.
use eddwise.Base.{Text, codes, [], ◌∷◌}
use eddwise.Design.{client_to_server, Struct, DesignChannel}
use eddwise.Design.Fill.{fill, each, join}
use eddwise.Design.GoTypes.{lower_first}
use eddwise.Design.Merge.{Design}
use eddwise.Design.Names.{go_name}
use eddwise.Codegen.{events}

-- The registration of a channel in the main program.
unfoldable pub registration : Text → DesignChannel → Text
registration design ch = fill (design ∷ go_name ch.name ∷ []) (
    "\n" ∷ "\tch = %0.New%1Channel()\n" ∷ "\tif err := server.Register(ch); err != nil {\n"
    ∷ "\t\tlog.Fatalln(\"unable to register service %1: \", err)\n" ∷ "\t}\n" ∷ [])

-- The main program.
unfoldable pub skeleton_main : Text → Design → Text
unfolding registration
skeleton_main module_name d = join (
    fill (module_name ∷ d.name ∷ []) (
      "package main\n" ∷ "\n" ∷ "import (\n" ∷ "\t\"log\"\n" ∷ "\n" ∷ "\t\"%0/internal/%1\"\n"
      ∷ "\n" ∷ "\t\"github.com/exelr/eddwise\"\n" ∷ ")\n" ∷ "\n" ∷ "func main() {\n"
      ∷ "\tvar server = eddwise.NewServer()\n" ∷ "\tvar ch eddwise.ImplChannel\n" ∷ [])
    ∷ each (registration d.name) d.channels
    ∷ fill (d.name ∷ []) ("\n" ∷ "\tlog.Fatalln(server.StartWS(\"/%0\", 3000))\n" ∷ "}\n" ∷ [])
    ∷ [])

-- The handler of an event.
unfoldable pub skeleton_handler : Text → DesignChannel → Text × Struct → Text
skeleton_handler design ch (ev, s) =
    fill (go_name ch.name ∷ go_name ev ∷ lower_first ev ∷ design ∷ []) (
      "\n" ∷ "func (ch *%0Channel) On%1 (ctx eddwise.Context, %2 *%3.%1) error {\n"
      ∷ "\tlog.Println(\"received event %1:\", %2, \"from\", ctx.GetClient().GetId() ) \n"
      ∷ "\treturn nil\n" ∷ "}\n" ∷ [])

-- The channel to be filled in.
unfoldable pub skeleton_channel : Text → DesignChannel → Text
unfolding events skeleton_handler
skeleton_channel design ch = join (
    fill (go_name ch.name ∷ design ∷ []) (
      "\n" ∷ "type %0Channel struct {\n" ∷ "\t%1.%0\n" ∷ "}\n" ∷ "\n"
      ∷ "func New%0Channel() *%0Channel {\n" ∷ "\treturn &%0Channel{}\n" ∷ "}\n" ∷ "\n"
      ∷ "func (ch *%0Channel) Connected(c eddwise.Client) error {\n"
      ∷ "\tlog.Println(\"User connected\", c.GetId())\n" ∷ "\treturn nil\n" ∷ "}\n" ∷ "\n"
      ∷ "func (ch *%0Channel) Disconnected(c eddwise.Client) error {\n"
      ∷ "\tlog.Println(\"User disconnected\", c.GetId())\n" ∷ "\treturn nil\n" ∷ "}\n" ∷ "\n" ∷ [])
    ∷ each (skeleton_handler design ch) (events client_to_server ch)
    ∷ codes "\n"
    ∷ [])

-- The package of the channels.
unfoldable pub skeleton_package : Text → Design → Text
unfolding skeleton_channel
skeleton_package module_name d = join (
    fill (d.name ∷ module_name ∷ []) (
      "package %0\n" ∷ "\n" ∷ "import (\n" ∷ "\t\"log\"\n" ∷ "\n" ∷ "\t\"%1/gen/%0\"\n" ∷ "\n"
      ∷ "\t\"github.com/exelr/eddwise\"\n" ∷ ")\n" ∷ "\n" ∷ [])
    ∷ each (skeleton_channel d.name) d.channels
    ∷ codes "\n"
    ∷ [])

-- The test of a channel.
unfoldable pub skeleton_scenario : Text → DesignChannel → Text
skeleton_scenario design ch = fill (go_name ch.name ∷ design ∷ ch.name ∷ []) (
    "\n" ∷ "func TestBasicScenario%0(t *testing.T) {\n" ∷ "\tvar behave = %1behave.New%0Behave(t)\n"
    ∷ "\tbehave.Given(\"an empty %2 channel\", func() eddwise.ImplChannel { return New%0Channel() }, func() {\n"
    ∷ "\t\tvar ch = behave.Recv().(*%0Channel)\n" ∷ "\t\t_ = ch // check ch status in test!\n"
    ∷ "\t\tbehave.ThenClientJoins(1, func() {\n"
    ∷ "\t\t\t// after client joins, something would happen...\n"
    ∷ "\t\t\t// behave.ThenClientShouldReceiveEvent(\"with id 1\", 1, &%1.Welcome{})\n"
    ∷ "\t\t\t// you can also use goconvey.Convey() to test more complex behavioural patterns\n"
    ∷ "\t\t})\n" ∷ "\n" ∷ "\t})\n" ∷ "}\n" ∷ [])

-- The tests of the package.
unfoldable pub skeleton_package_test : Text → Design → Text
unfolding skeleton_scenario
skeleton_package_test module_name d = join (
    fill (d.name ∷ module_name ∷ []) (
      "package %0\n" ∷ "\n" ∷ "import (\n" ∷ "\t\"testing\"\n" ∷ "\n" ∷ "\t\"%1/gen/%0/behave\"\n"
      ∷ "\n" ∷ "\t\"github.com/exelr/eddwise\"\n" ∷ ")\n" ∷ "\n"
      ∷ "//Note: for the best BDD use command 'goconvey'\n" ∷ [])
    ∷ each (skeleton_scenario d.name) d.channels
    ∷ codes "\n"
    ∷ [])
