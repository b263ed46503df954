-- ===== src/Codegen/Page.antt =====
-- SkeletonClient (eddgen.go): the page to start from.
use eddwise.Base.{Text, codes, [], ◌∷◌}
use eddwise.Design.{server_to_client, client_to_server, Struct, DesignChannel}
use eddwise.Design.Fill.{fill, each, join}
use eddwise.Design.GoTypes.{lower_first}
use eddwise.Design.Merge.{Design}
use eddwise.Codegen.{events}

-- The button of an event.
unfoldable pub send_button : DesignChannel → Text × Struct → Text
send_button ch (ev, s) =
    fill (ch.name ∷ ev ∷ [])
      ("\n" ∷ "<button onclick=\"ch%0.send%1({})\">Send %0.%1</button>\n" ∷ [])

unfoldable pub send_buttons : DesignChannel → Text
unfolding events send_button
send_buttons ch =
    join (codes "\n" ∷ each (send_button ch) (events client_to_server ch) ∷ codes "\n" ∷ [])

-- The listener of an event.
unfoldable pub event_listener : DesignChannel → Text × Struct → Text
event_listener ch (ev, s) = fill (ch.name ∷ ev ∷ lower_first ev ∷ []) (
    "\n" ∷ "  ch%0.on%1(function (%2){\n"
    ∷ "      document.getElementById(\"output\").innerHTML += \"[%0] Event '%1' received: \" + JSON.stringify(%2) + \"<br>\"\n"
    ∷ "  })\n" ∷ [])

-- The script of a channel; within the range the dot is the channel.
unfoldable pub channel_script : DesignChannel → Text
unfolding events event_listener
channel_script ch = join (
    fill (ch.name ∷ []) (
      "\n" ∷ "  import {%0Channel} from '../../gen/%0/channel.js'\n" ∷ "\n"
      ∷ "  var ch%0 = new %0Channel()\n" ∷ "  window.ch%0 = ch%0\n" ∷ "\n"
      ∷ "  ch%0.connected(function(){\n"
      ∷ "      document.getElementById(\"output\").innerHTML += \"[%0] <span style='color: darkgreen'>Connected</span><br>\"\n"
      ∷ "  })\n" ∷ "\n" ∷ "  ch%0.disconnected(function(){\n"
      ∷ "      document.getElementById(\"output\").innerHTML += \"[%0] <span style='color: darkred'>Disconnected</span><br>\"\n"
      ∷ "  })\n" ∷ [])
    ∷ each (event_listener ch) (events server_to_client ch)
    ∷ fill (ch.name ∷ []) ("\n" ∷ "  client.register(ch%0)\n" ∷ [])
    ∷ [])

-- SkeletonClient.
unfoldable pub skeleton_client : Design → Text
unfolding send_buttons channel_script
skeleton_client d = join (
    fill (d.name ∷ []) (
      "\n" ∷ "<!DOCTYPE html>\n" ∷ "<html lang=\"en\">\n" ∷ "<head>\n"
      ∷ "    <meta charset=\"UTF-8\">\n" ∷ "    <title>%0</title>\n" ∷ "</head>\n" ∷ "<body>\n"
      ∷ "<div id=\"controls\">\n" ∷ [])
    ∷ each send_buttons d.channels
    ∷ fill (d.name ∷ []) (
        "\n" ∷ "</div>\n" ∷ "<div id=\"output\"></div>\n" ∷ "<script type=\"module\">\n"
        ∷ "  import {EddClient} from '//localhost:3000/%0/edd.js'\n" ∷ "\n"
        ∷ "  var wsUri = \"ws://localhost:3000/%0\"\n" ∷ "  var client = new EddClient(wsUri)\n"
        ∷ [])
    ∷ each channel_script d.channels
    ∷ codes "\n  \n  client.start()\n\n</script>\n</body>\n</html>\n\n"
    ∷ [])
