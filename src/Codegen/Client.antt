-- ===== src/Codegen/Client.antt =====
-- GenerateClient (eddgen.go): the JavaScript module of a design.
use eddwise.Base.{Text, codes, List, [], ◌∷◌, ◌++◌}
use eddwise.Design.{server_to_client, client_to_server, DesignChannel}
use eddwise.Design.Fill.{fill, each, join}
use eddwise.Design.JsDef.{js_def}
use eddwise.Design.Merge.{Design}
use eddwise.Codegen.{events, channel_alias}
use eddwise.Codegen.Events.{fixed_sender, handler_field, client_case, handler_code, sender_code}

-- The methods of a channel, up to the cases of route.
unfoldable pub client_methods : DesignChannel → Text
client_methods ch = fill (ch.name ∷ channel_alias ch ∷ []) (
    "\n" ∷ "\t\tthis._connectedFn = null;\n" ∷ "\t\tthis._disconnectedFn = null;\n" ∷ "\t}\n"
    ∷ "\t/**\n" ∷ "     * @callback connectedCb\n" ∷ "     */\n" ∷ "    /**\n"
    ∷ "     * @function %0Channel#connected\n" ∷ "     * @param {connectedCb} callback\n"
    ∷ "     */\n" ∷ "\tconnected(callback){\n" ∷ "\t\tthis._connectedFn = callback;\n" ∷ "\t}\n"
    ∷ "\n" ∷ "\t/**\n" ∷ "     * @callback disconnectedCb\n" ∷ "     */\n" ∷ "    /**\n"
    ∷ "     * @function %0Channel#disconnected\n" ∷ "     * @param {disconnectedCb} callback\n"
    ∷ "     */\n" ∷ "\tdisconnected(callback){\n" ∷ "\t\tthis._disconnectedFn = callback;\n"
    ∷ "\t}\n" ∷ "\tgetName() {\n" ∷ "\t\treturn \"%0\"\n" ∷ "\t}\n" ∷ "\tgetAlias() {\n"
    ∷ "\t\treturn \"%1\"\n" ∷ "\t}\n" ∷ "\tsetClient(client) {\n" ∷ "\t\tthis.client = client\n"
    ∷ "\t}\n" ∷ "\troute(name, body) {\n" ∷ "\t\tif(super.route(name,body,this.getAlias())){\n"
    ∷ "            return\n" ∷ "        }\n" ∷ "\t\tswitch(name) {\n" ∷ "\t\t\tdefault:\n"
    ∷ "\t\t\t\tconsole.log(\"unexpected event \", name, \"in channel %0\")\n" ∷ "\t\t\t\tbreak\n"
    ∷ [])

-- The class of a channel.
unfoldable pub client_channel_code : DesignChannel → Text
unfolding events fixed_sender handler_field client_case handler_code sender_code client_methods
client_channel_code ch = join (
    fill (ch.name ∷ channel_alias ch ∷ []) (
      "\n" ∷ "class %0Channel extends EddChannel {\n" ∷ "\tconstructor() {\n"
      ∷ "\t\tsuper(\"%1\")\n"
      ∷ "\t\tObject.defineProperty(this, \"getName\", { configurable: false, writable: false, value: this.getName });\n"
      ∷ "\t\tObject.defineProperty(this, \"setClient\", { configurable: false, writable: false, value: this.setClient });\n"
      ∷ "\t\tObject.defineProperty(this, \"route\", { configurable: false, writable: false, value: this.route });\n"
      ∷ [])
    ∷ each (fixed_sender ch) (events client_to_server ch)
    ∷ codes "\n"
    ∷ each (handler_field ch) (events server_to_client ch)
    ∷ client_methods ch
    ∷ each (client_case ch) (events server_to_client ch)
    ∷ codes "\n        }\n    }\n\n"
    ∷ each (handler_code ch) (events server_to_client ch)
    ∷ codes "\n"
    ∷ each (sender_code ch) (events client_to_server ch)
    ∷ codes "\n}\n"
    ∷ [])

-- The names in the braces of the export, of which the first has no comma after it.
unfoldable pub later_exports : List DesignChannel → Text
later_exports [] = []
later_exports (ch ∷ chs) = ch.name ++ (codes "Channel," ++ later_exports chs)

unfoldable pub exports : List DesignChannel → Text
unfolding later_exports
exports [] = []
exports (ch ∷ chs) = ch.name ++ (codes "Channel" ++ later_exports chs)

-- GenerateClient.
unfoldable pub generate_client : Design → Text
unfolding js_def client_channel_code exports
generate_client d = join (
    codes "// Code generated by eddwise, DO NOT EDIT.\n\n"
    ∷ each (λ s. js_def s ++ codes "\n") d.structs
    ∷ fill (d.name ∷ []) ("import {EddChannel} from \"/%0/edd.js\";\n" ∷ [])
    ∷ each client_channel_code d.channels
    ∷ codes "\nexport {"
    ∷ exports d.channels
    ∷ codes "}\n"
    ∷ [])
