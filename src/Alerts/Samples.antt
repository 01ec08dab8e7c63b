-- ===== src/Alerts/Samples.antt =====
-- Concrete alerts, rows and databases, on which the theorems are tried.
use Prim.Native.Char.{char}
use x_ui_aggr.Prelude.{ℕ, zero, suc, String, ◌≡◌, refl, true, none, some, List, [], ◌∷◌, ap, Option}
use x_ui_aggr.Prelude.Int.{pos}
use x_ui_aggr.Alerts.Types.{Alert, AlertState, World, Env, UuidCodec, generic, critical, items}
use x_ui_aggr.Prelude.{◌is◌, lookup, insert, remove}
use x_ui_aggr.Prelude.Strings.{trim_space}
use x_ui_aggr.Alerts.Policy.{
  default_policy, requires_offline_delay, min_consecutive_fails, fail_delay, recover_after,
}
use x_ui_aggr.Alerts.Fingerprint.{fingerprint_for, normal}
use x_ui_aggr.Alerts.Render.{render_title}
use x_ui_aggr.Alerts.Messages.{
  message_ids_of, send_all, edit_all, recover_all, has_message_thread_for_all_chats,
}
use x_ui_aggr.Alerts.Store.{load_state, ensure_alert_id, update_state, sync_incident, update_row}
use x_ui_aggr.Alerts.Mute.{is_muted}
use x_ui_aggr.Alerts.Engine.{
  maybe_send_alert, prepare, status_of, process, on_ok, on_fail, next_occurrences, fail_started_at,
  is_delayed, is_too_few, is_threaded, numbered, report, deliver, sync_and_update, update_and_sync,
}
use x_ui_aggr.Alerts.Store.Rows.{IsReliable}

-- Ids in unary notation: a text of as many ticks.
unfoldable pub ticks : ℕ → String
ticks zero = ""
ticks (suc n) = String.◌∷◌ (char 49 tt) (ticks n)

unfoldable pub count_ticks : String → ℕ
count_ticks String.[] = 0
count_ticks (String.◌∷◌ c s) = suc (count_ticks s)

count-ticks : (n : ℕ) → count_ticks (ticks n) ≡ n
unfolding ticks count_ticks
count-ticks zero = refl
count-ticks (suc n) = ap suc (count-ticks n)

abbrev parse_ticks : String → Option ℕ
parse_ticks s = some (count_ticks s)

pub parse-ticks : (n : ℕ) → parse_ticks (ticks n) ≡ some n
parse-ticks n = ap some (count-ticks n)

abbrev pub codec : UuidCodec
codec = record { show = ticks; parse = parse_ticks; parse-show = parse-ticks }

abbrev pub chats : List String
chats = "100" ∷ "200" ∷ []

-- The check 3 of a service on node 2.
abbrev pub alert : Alert
alert = record {
  kind = generic;
  org_id = some 1;
  node_id = 2;
  service_id = 0;
  bot_id = 0;
  check_id = 3;
  node_name = "node";
  service_kind = "";
  bot_kind = "";
  check_type = "HTTP";
  target = "";
  target_type = "service";
  status = "fail";
  severity = critical;
  threshold = "";
  error = "timeout";
  alert_id = "";
  incident_id = "";
  fingerprint = "";
  occurrences = 0;
  fail_after_sec = pos 0;
  recover_after_ok = pos 0;
  mute_until = none;
}

abbrev pub fp : String
fp = "generic|11|check:111"

-- A run at this time, with a database and a Telegram that answer.
abbrev pub env : ℕ → Env
env now = record {
  now = now;
  mute_now = now;
  new_id = 5;
  row_id = 6;
  new_incident_id = 7;
  load_ok = true;
  id_ok = true;
  incident_read_ok = true;
  incident_write_ok = true;
  state_write_ok = true;
  mute_read_ok = true;
  send = λ i chat. some (suc i);
  edit = λ i chat id. true;
}

pub env-IsReliable : (now : ℕ) → IsReliable (env now)
env-IsReliable now = record {
  load = refl;
  incident_read = refl;
  incident_write = refl;
  state_write = refl;
}

abbrev pub empty_world : World
empty_world = record { states = []; incidents = []; muted_until = []; calls = [] }

-- A failure that was seen at this time so often, with these message ids.
abbrev pub failing_row : ℕ → ℕ → List (String × ℕ) → AlertState
failing_row seen n ids = record {
  alert_id = some 4;
  fingerprint = fp;
  incident_id = none;
  alert_type = "generic";
  node_id = some 2;
  service_id = none;
  bot_id = none;
  check_type = some "HTTP";
  last_status = some "fail";
  first_seen = seen;
  last_seen = seen;
  occurrences = n;
  ok_streak = 0;
  last_message_ids = items ids;
  muted_until = none;
}

abbrev pub world_with : AlertState → World
world_with row = record { states = (fp, row) ∷ []; incidents = []; muted_until = []; calls = [] }

-- A run of the engine at a time, with all that it calls opened.
unfoldable pub run_at : ℕ → Alert → World → World
unfolding maybe_send_alert prepare status_of fingerprint_for normal load_state ensure_alert_id
    message_ids_of process on_ok on_fail next_occurrences fail_started_at is_delayed is_too_few
    is_threaded numbered report deliver sync_and_update update_and_sync update_state sync_incident
    is_muted send_all edit_all recover_all requires_offline_delay min_consecutive_fails fail_delay
    recover_after ticks count_ticks ◌is◌ update_row lookup insert remove trim_space render_title
    has_message_thread_for_all_chats
run_at now a w = maybe_send_alert codec (env now) default_policy chats true a w
