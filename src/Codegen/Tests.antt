-- ===== src/Codegen/Tests.antt =====
-- Texts that the templates give for a small channel.
use eddwise.Base.{
  Text, get, text_key, none, ◌≢◌, ◌↔◌, arith, codes, [], ◌∷◌, true, ◌≡◌, refl, ℕ_discrete, dec_lt,
  dec_le, Text-discrete, delete, insert,
}
use eddwise.Design.{
  Direction, any, client_to_server, server_to_client, Tags, Struct, struct, Fields, no_fields,
  field, primitive, with_array, DesignChannel,
}
use eddwise.Design.Directions.{empty_channel}
use eddwise.Design.Fill.{fill}
use eddwise.Design.Names.{alias_or, go_name, struct_protocol_alias}
use eddwise.Design.Sort.{text_lt}
use eddwise.Codegen.Unordered.{channel_code-same}
use eddwise.Design.Directions.{enabled_map}
use eddwise.Design.Directions.Sendable.{reverse_marks}
use eddwise.Codegen.{events, channel_alias}
use eddwise.Codegen.Channel.{channel_code, recv_method}
use eddwise.Codegen.Events.{client_case, renamed}
use eddwise.Codegen.Client.{client_channel_code, exports}
use eddwise.Codegen.Page.{send_button}

abbrev plain : Tags
plain = record { alias = []; direction = any }

abbrev short : Tags
short = record { alias = codes "t"; direction = any }

abbrev say_fields : Fields
say_fields =
    field short (codes "text") (with_array 0 (primitive (codes "string"))) []
      (field plain (codes "at") (with_array 0 (primitive (codes "int"))) [] no_fields)

abbrev say : Struct
say = struct plain (codes "say") say_fields []

abbrev ping : Struct
ping = struct (record { alias = codes "p"; direction = any }) (codes "ping") no_fields []

abbrev chat : DesignChannel
chat = record (empty_channel (codes "chat") (codes "c")) {
  enabled = say ∷ ping ∷ [];
  client_to_server = (codes "say", true) ∷ [];
}

events_runs : events server_to_client chat ≡ (codes "ping", ping) ∷ []
unfolding events Text-discrete ℕ_discrete dec_lt delete insert
events_runs = refl

events_sorted : events client_to_server chat ≡ (codes "ping", ping) ∷ (codes "say", say) ∷ []
unfolding events Text-discrete ℕ_discrete dec_lt insert text_lt
events_sorted = refl

channel_alias_runs : channel_alias chat ≡ codes "c"
unfolding channel_alias
channel_alias_runs = refl

recv_method_runs :
    recv_method chat (codes "say_it", say) ≡ codes "\n\tOnSayIt(eddwise.Context, *SayIt) error"
unfolding recv_method fill go_name ℕ_discrete dec_le
recv_method_runs = refl

client_case_runs :
    client_case chat (codes "ping", ping)
    ≡ codes "\n\t\t\t// ping\n\t\t\tcase \"p\":\n\t\t\t\treturn this.onpingFn(body)"
unfolding client_case fill struct_protocol_alias ℕ_discrete
client_case_runs = refl

renamed_runs : renamed say_fields ≡ (codes "text", codes "t") ∷ []
unfolding renamed alias_or Text-discrete ℕ_discrete
renamed_runs = refl

exports_runs :
    exports (chat ∷ empty_channel (codes "a") [] ∷ empty_channel (codes "b") [] ∷ [])
    ≡ codes "chatChannelaChannel,bChannel,"
unfolding exports
exports_runs = refl

send_button_runs :
    send_button chat (codes "ping", ping)
    ≡ codes "\n<button onclick=\"chchat.sendping({})\">Send chat.ping</button>\n"
unfolding send_button fill ℕ_discrete
send_button_runs = refl

abbrev reversed : DesignChannel
reversed = record chat { enabled = ping ∷ say ∷ [] }

swapped_get :
    (k : Text)
    → get k ((codes "ping", ping) ∷ (codes "say", say) ∷ [])
      ≡ get k ((codes "say", say) ∷ (codes "ping", ping) ∷ [])
unfolding get
swapped_get k = elim (Text-discrete (codes "say") k) [
  | yes p ↦ let other : codes "ping" ≢ k = λ q. cc in ground (arith, other)
  | no p ↦ ground arith
]

enabled_alike : (k : Text) → get k (enabled_map chat) ≡ get k (enabled_map reversed)
unfolding enabled_map insert delete Text-discrete ℕ_discrete
enabled_alike k = swapped_get k

marks_alike :
    (direction : Direction) (k : Text)
    → (get k (reverse_marks direction chat) ≡ none)
      ↔ (get k (reverse_marks direction reversed) ≡ none)
marks_alike any k = (λ h. h, λ h. h)
marks_alike server_to_client k = (λ h. h, λ h. h)
marks_alike client_to_server k = (λ h. h, λ h. h)

channel_code-same_example :
    (channel_code chat ≡ channel_code reversed)
    × (client_channel_code chat ≡ client_channel_code reversed)
channel_code-same_example =
    channel_code-same chat (ping ∷ say ∷ []) [] ((codes "say", true) ∷ []) enabled_alike marks_alike
