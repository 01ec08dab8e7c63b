-- ===== src/Alerts/Tests/Callbacks.antt =====
-- Presses of buttons.
use x_ui_aggr.Prelude.{
  ◌≡◌, refl, String, true, false, Option, none, some, [], ◌∷◌, lookup, ◌is◌, ◌+◌, arith,
}
use x_ui_aggr.Prelude.Int.{ℤ, pos}
use x_ui_aggr.Prelude.Strings.{trim_space, contains_char, is_space}
use x_ui_aggr.Alerts.Types.{Alert, AlertState, Incident, World}
use x_ui_aggr.Alerts.Policy.{minute}
use x_ui_aggr.Alerts.Samples.{codec, alert, env, failing_row, world_with, ticks, count_ticks}
use x_ui_aggr.Alerts.Mute.{is_muted}
use x_ui_aggr.Alerts.Callback.{callback, build_keyboard}
use x_ui_aggr.Alerts.Callback.RoundTrip.{IsId, pressed, parse_callback_data-build_keyboard}
use x_ui_aggr.Alerts.Handle.{
  Reads, find_alert, load_state_by_alert_id, acknowledged, handle_callback,
}
use x_ui_aggr.Alerts.Handle.Silence.{after_ack, ack_button_silences}

abbrev no_atoi : String → Option ℤ
no_atoi text = none

abbrev known_alert : Alert
known_alert = record alert { alert_id = " 111 " }

named : (trim_space known_alert.alert_id is "") ≡ false
unfolding trim_space ◌is◌ is_space
named = refl

colonless : contains_char (trim_space known_alert.alert_id) b':' ≡ false
unfolding trim_space contains_char ◌is◌ is_space
colonless = refl

parse_callback_data-build_keyboard_example :
    pressed no_atoi (build_keyboard ticks known_alert "https://panel.example.org/")
    ≡ callback "ack" (trim_space known_alert.alert_id) (pos 0)
      ∷ callback "mute" (trim_space known_alert.alert_id) (pos 0)
      ∷ callback "retry" (trim_space known_alert.alert_id) (pos 0)
      ∷ []
parse_callback_data-build_keyboard_example =
    parse_callback_data-build_keyboard no_atoi ticks known_alert "https://panel.example.org/" named
      colonless

abbrev row : AlertState
row = record (failing_row minute 2 []) { alert_id = some 3; incident_id = some 9 }

abbrev incident : Incident
incident = record {
  id = 9;
  org_id = some 1;
  fingerprint = row.fingerprint;
  alert_type = "generic";
  severity = "critical";
  status = "open";
  node_id = some 2;
  service_id = none;
  bot_id = none;
  check_id = none;
  title = "check failed";
  description = none;
  first_seen = minute;
  last_seen = minute;
  acknowledged_at = none;
  acknowledged_by = none;
  recovered_at = none;
  occurrences = 2;
  last_error = none;
}

abbrev shown : World
shown = record (world_with row) { incidents = (row.fingerprint, incident) ∷ [] }

abbrev reads : Reads
reads = record {
  incident_org = λ id. none;
  node_org = λ id. some 1;
  service_node = λ id. none;
  bot_node = λ id. none;
  settings = λ id. some (pos 15, pos 30);
}

id_111 : IsId "111"
unfolding trim_space contains_char ◌is◌ is_space
id_111 = record { trimmed = refl; colonless = refl }

loads : load_state_by_alert_id codec (env minute) shown "111" ≡ some row
unfolding load_state_by_alert_id find_alert trim_space ◌is◌ is_space count_ticks
loads = refl

has_fingerprint : (trim_space row.fingerprint is "") ≡ false
unfolding trim_space ◌is◌ is_space
has_fingerprint = refl

finds : lookup row.fingerprint shown.states ≡ some row
unfolding lookup ◌is◌
finds = refl

ack_button_silences_example :
    let (reply, err, after) = handle_callback no_atoi codec (env minute) reads "a:111" shown in
    (reply ≡ acknowledged)
    × (lookup row.fingerprint after.incidents
        ≡ after_ack (env minute) row.incident_id (lookup row.fingerprint shown.incidents))
    × ((is_muted (env (minute + 1)) row.fingerprint after).0 ≡ true)
ack_button_silences_example =
    ack_button_silences no_atoi codec (env minute) (env (minute + 1)) reads "111" row.fingerprint
      row shown id_111 loads has_fingerprint finds refl refl refl (omega arith)
