-- ===== src/Agentfs/Tests.antt =====
-- Paths that pass and paths that do not.
use x_ui_aggr.Prelude.{◌≡◌, refl, ◌is◌}
use x_ui_aggr.Prelude.Strings.{trim_space, has_prefix, contains_char, split, join}
use x_ui_aggr.Prelude.Results.{ok, fail}
use x_ui_aggr.Agentfs.{normalize_path, is_blocked, ensure_allowed}
use x_ui_aggr.Agentfs.Clean.{clean, reverse_onto}
use x_ui_aggr.Agentfs.Allowed.{IsAllowed, ensure_allowed-IsAllowed}

passes : ensure_allowed " /etc//./nginx/ " ≡ ok "/etc/nginx"
unfolding ensure_allowed normalize_path is_blocked clean split join reverse_onto has_prefix
    contains_char trim_space ◌is◌
passes = refl

ensure_allowed-IsAllowed_example : IsAllowed "/etc/nginx"
ensure_allowed-IsAllowed_example = ensure_allowed-IsAllowed " /etc//./nginx/ " "/etc/nginx" passes

refuses_proc : ensure_allowed "/.//proc/1/mem" ≡ fail "forbidden"
unfolding ensure_allowed normalize_path is_blocked clean split join reverse_onto has_prefix
    contains_char trim_space ◌is◌
refuses_proc = refl

refuses_dots : ensure_allowed "/etc/../proc" ≡ fail "invalid_path"
unfolding ensure_allowed normalize_path clean split has_prefix contains_char trim_space ◌is◌
refuses_dots = refl
