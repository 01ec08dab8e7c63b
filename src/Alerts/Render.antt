-- ===== src/Alerts/Render.antt =====
-- The title of a message (renderer.go).
use Prim.Native.Char.{Char, code}
use Prim.Native.String.{◌++◌}
use x_ui_aggr.Prelude.{String, ◌==◌, ◌is◌, if◌then◌else◌}
use x_ui_aggr.Prelude.Strings.{trim_space}
use x_ui_aggr.Alerts.Types.{AlertType, cpu, memory, disk, connection, tls, generic, other, Alert}

escape_char : Char → String
escape_char c =
    if code c == b'&'
    then "&amp;"
    else if code c == b'<'
    then "&lt;"
    else if code c == b'>'
    then "&gt;"
    else String.◌∷◌ c ""

unfoldable pub escape_html : String → String
unfolding escape_char
escape_html String.[] = ""
escape_html (String.◌∷◌ c s) = escape_char c ++ escape_html s

titled : String → String → String → String
titled label title kind =
    if trim_space kind is ""
    then "<b>" ++ label ++ title ++ "</b>"
    else "<b>" ++ label ++ title ++ " (" ++ escape_html kind ++ ")</b>"

title_of : Alert → String → AlertType → String
unfolding titled
title_of a title cpu = "<b>High CPU: " ++ title ++ "</b>"
title_of a title memory = "<b>High memory: " ++ title ++ "</b>"
title_of a title disk = "<b>Low disk space: " ++ title ++ "</b>"
title_of a title connection = "<b>Connection issue: " ++ title ++ "</b>"
title_of a title tls = "<b>TLS issue: " ++ title ++ "</b>"
title_of a title generic =
    if a.target_type is "bot"
    then titled "Service check alert: " title a.bot_kind
    else titled "Service alert: " title a.service_kind
title_of a title (other t) = "<b>Alert: " ++ title ++ "</b>"

unfoldable pub render_title : Alert → String
unfolding title_of escape_html
render_title a = title_of a (escape_html a.node_name) a.kind
