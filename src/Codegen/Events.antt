-- ===== src/Codegen/Events.antt =====
-- The parts of the generated JavaScript that belong to one event of a channel (GenerateClient, eddgen.go).
use eddwise.Base.{Text, Text-discrete, List, [], ◌∷◌, ite}
use eddwise.Design.{Fields, no_fields, field, Struct, DesignChannel}
use eddwise.Design.Fill.{fill, each, join}
use eddwise.Design.Members.{fields_of}
use eddwise.Design.Names.{alias_or, struct_protocol_alias}

-- In the constructor: the property of an event that the client sends.
unfoldable pub fixed_sender : DesignChannel → Text × Struct → Text
fixed_sender ch (ev, s) = fill (ev ∷ []) (
    "\n"
    ∷ "\t\tObject.defineProperty(this, \"%0\", { configurable: false, writable: false, value: this.send%0 });"
    ∷ [])

-- In the constructor: the callback of an event that the client receives.
unfoldable pub handler_field : DesignChannel → Text × Struct → Text
handler_field ch (ev, s) = fill (ev ∷ []) ("\n" ∷ "\t\tthis._on%0Fn = null;" ∷ [])

-- The case of an event in route.
unfoldable pub client_case : DesignChannel → Text × Struct → Text
client_case ch (ev, s) =
    fill (ev ∷ struct_protocol_alias s ∷ [])
      ("\n" ∷ "\t\t\t// %0\n" ∷ "\t\t\tcase \"%1\":\n" ∷ "\t\t\t\treturn this.on%0Fn(body)" ∷ [])

-- A field of a received event gets its name back from its alias.
unfoldable pub received_rename : Text → Text → Text
received_rename name alias = fill (name ∷ alias ∷ []) (
    "\n"
    ∷ "\t\tObject.defineProperty(event, \"%0\", Object.getOwnPropertyDescriptor(event, \"%1\")); delete event[\"%1\"];"
    ∷ [])

-- A field of a message to be sent gets its alias in place of its name.
unfoldable pub sent_rename : Text → Text → Text
sent_rename name alias = fill (alias ∷ name ∷ []) (
    "\n"
    ∷ "\t\tObject.defineProperty(message, \"%0\", Object.getOwnPropertyDescriptor(message, \"%1\")); delete message[\"%1\"];"
    ∷ [])

-- `ne $field.Name $field.ProtocolAlias`.
unfoldable pub renamed : Fields → List (Text × Text)
renamed no_fields = []
renamed (field tags name t doc fs) =
    let rest = renamed fs in
    let alias = alias_or tags.alias name in
    ite (Text-discrete name alias) rest ((name, alias) ∷ rest)

unfoldable pub renames : (Text → Text → Text) → Struct → Text
unfolding renamed
renames code s = each (λ (name, alias). code name alias) (renamed (fields_of s))

-- The methods of an event that the client receives.
unfoldable pub handler_code : DesignChannel → Text × Struct → Text
unfolding renames received_rename
handler_code ch (ev, s) = join (
    fill (ch.name ∷ ev ∷ []) (
      "\n" ∷ "\t/**\n" ∷ "\t * @function %0Channel#on%1Fn\n" ∷ "\t * @param {%1} event\n" ∷ "\t*/\n"
      ∷ "    on%1Fn(event) {\n" ∷ "        if(this._on%1Fn == null) {\n"
      ∷ "            console.log(\"unhandled message '%1' received\")\n" ∷ "            return\n"
      ∷ "        }" ∷ [])
    ∷ renames received_rename s
    ∷ fill (ev ∷ ch.name ∷ []) (
        "\n" ∷ "        this._on%0Fn(event)\n" ∷ "    }\n" ∷ "    /**\n"
        ∷ "     * @callback on%0Cb\n" ∷ "     * @param {%0} event\n" ∷ "     */\n" ∷ "    /**\n"
        ∷ "     * @function %1Channel#on%0\n" ∷ "     * @param {on%0Cb} callback\n" ∷ "     */\n"
        ∷ "     on%0(callback) {\n" ∷ "        this._on%0Fn = callback\n" ∷ "    }\n" ∷ [])
    ∷ [])

-- The method of an event that the client sends.
unfoldable pub sender_code : DesignChannel → Text × Struct → Text
unfolding renames sent_rename
sender_code ch (ev, s) = join (
    fill (ch.name ∷ ev ∷ []) (
      "\n" ∷ "    /**\n" ∷ "     * @function %0Channel#send%1\n" ∷ "     * @param {%1} message\n"
      ∷ "     */\n" ∷ "    send%1 = function(message) {" ∷ [])
    ∷ renames sent_rename s
    ∷ fill (struct_protocol_alias s ∷ []) (
        "\n"
        ∷ "        return this.client.send({channel:this.getAlias(), name:\"%0\", body: message});\n"
        ∷ "    }\n" ∷ [])
    ∷ [])
