-- ===== src/Alerts/Fingerprint.antt =====
-- fingerprintFor and the title of a message (renderer.go).
use Prim.Native.String.{◌++◌}
use x_ui_aggr.Prelude.{String, ◌==◌, ◌is◌, if◌then◌else◌}
use x_ui_aggr.Prelude.Strings.{trim_space, to_lower}
use x_ui_aggr.Alerts.Types.{
  AlertType, cpu, memory, disk, connection, tls, generic, other, Alert, UuidCodec,
}

-- strings.ToLower(strings.TrimSpace(s))
unfoldable pub normal : String → String
unfolding trim_space to_lower
normal s = to_lower (trim_space s)

node_key : UuidCodec → Alert → String
node_key u a = if a.node_id == 0 then "unknown" else u.show a.node_id

fingerprint_of : UuidCodec → Alert → AlertType → String
unfolding node_key normal
fingerprint_of u a connection =
    let component = normal a.target_type in
    "connection|" ++ node_key u a ++ "|" ++ (if component is "" then "connection" else component)
fingerprint_of u a tls = "tls|" ++ node_key u a
fingerprint_of u a cpu = "cpu|" ++ node_key u a ++ "|load1>=" ++ a.threshold
fingerprint_of u a memory = "memory|" ++ node_key u a ++ "|mem>=" ++ a.threshold
fingerprint_of u a disk = "disk|" ++ node_key u a ++ "|disk<=" ++ a.threshold
fingerprint_of u a generic =
    if a.check_id == 0
    then "generic|"
      ++ node_key u a
      ++ "|check:"
      ++ normal a.check_type
      ++ "|target:"
      ++ normal a.target
    else "generic|" ++ node_key u a ++ "|check:" ++ u.show a.check_id
fingerprint_of u a (other t) = to_lower t ++ "|" ++ node_key u a

unfoldable pub fingerprint_for : UuidCodec → Alert → String
unfolding fingerprint_of
fingerprint_for u a = fingerprint_of u a a.kind
