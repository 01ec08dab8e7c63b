-- ===== src/Alerts/Engine.antt =====
-- maybeSendAlert (service.go): what one sample of a check does to the stored state, the incident
-- and the chats. The function's branches are the functions below, in its order.
pub mod Calls
pub mod Quiet
pub mod Outcome
pub mod Noise
pub mod Stream
pub mod Threads
pub mod Reach
use x_ui_aggr.Prelude.{
  ℕ, ◌+◌, String, Bool, true, false, ◌&&◌, ◌||◌, Option, none, some, List, [], ◌∷◌, Map, ltb, ◌is◌,
  is_empty, if◌then◌else◌,
}
use x_ui_aggr.Alerts.Types.{Alert, AlertState, World, Env, UuidCodec}
use x_ui_aggr.Alerts.Policy.{
  Policy, requires_offline_delay, min_consecutive_fails, fail_delay, recover_after,
}
use x_ui_aggr.Alerts.Fingerprint.{normal, fingerprint_for}
use x_ui_aggr.Alerts.Messages.{
  message_ids_from_json, message_ids_of, has_message_thread_for_all_chats, send_all, edit_all,
  recover_all,
}
use x_ui_aggr.Alerts.Store.{
  load_state, ensure_alert_id, update_state, sync_incident, prev_status_of, is_some,
  incident_uuid_from_alert,
}
use x_ui_aggr.Alerts.Mute.{is_muted, is_before}

-- What the function has computed before it branches: the alert with its status, fingerprint and
-- ids, the row that it loaded, and what it reads from that row.
pub record Sample : Type 0 where
  pub alert : Alert
  pub state : Option AlertState
  pub prev_status : String
  pub prev_message_ids : Map ℕ
  pub prev_ok_streak : ℕ

abbrev last_status_of : Option AlertState → Option String
last_status_of none = none
last_status_of (some state) = state.last_status

abbrev ok_streak_of : Option AlertState → ℕ
ok_streak_of none = 0
ok_streak_of (some state) = state.ok_streak

abbrev occurrences_of : Option AlertState → ℕ
occurrences_of none = 0
occurrences_of (some state) = state.occurrences

abbrev incident_text : UuidCodec → Option AlertState → String → String
incident_text u none text = text
incident_text u (some state) text = elim state.incident_id [ none ↦ text | some id ↦ u.show id ]

unfoldable pub status_of : Bool → Alert → String
unfolding normal
status_of active a =
    let status = normal a.status in
    if status is "" then (if active then "fail" else "ok") else status

unfoldable pub prepare : UuidCodec → Env → Bool → Alert → World → Sample × World
prepare u e active a w =
    let named : Alert = record a { status = status_of active a } in
    let fp = fingerprint_for u named in
    let (state, alert_id, w') = ensure_alert_id u e (load_state e w fp) w in
    (
      record {
        alert = record named {
          fingerprint = fp;
          alert_id = alert_id;
          incident_id = incident_text u state a.incident_id;
        };
        state = state;
        prev_status = prev_status_of (last_status_of state);
        prev_message_ids = message_ids_of state;
        prev_ok_streak = ok_streak_of state;
      },
      w',
    )

module _ (u : UuidCodec) (e : Env) where
  -- The pair of calls `incidentID := s.syncIncident(...); s.updateState(..., incidentID)`.
  unfoldable pub sync_and_update : Alert → Sample → String → Bool → Map ℕ → World → World
  sync_and_update a s status notified ids w =
      let (incident_id, w') = sync_incident e a status s.prev_status w in
      update_state u e a s.state status notified ids 0 incident_id w'

  -- The pair in the other order, with the incident id that the alert carries.
  unfoldable pub update_and_sync : Sample → String → ℕ → World → World
  update_and_sync s status ok_streak w =
      let w' =
        update_state u e s.alert s.state status false s.prev_message_ids ok_streak
          (incident_uuid_from_alert u s.alert) w in
      (sync_incident e s.alert status s.prev_status w').1

  -- The branch of a sample that is ok.
  unfoldable pub on_ok : List String → Sample → World → World
  on_ok chats s w =
      if is_some s.state && s.prev_status is "fail"
      then (if ltb (s.prev_ok_streak + 1) (recover_after s.alert)
          then update_and_sync s "fail" (s.prev_ok_streak + 1) w
          else if is_empty s.prev_message_ids
          then sync_and_update (record s.alert { occurrences = 0 }) s "ok" true [] w
          else (let a : Alert = record s.alert { occurrences = occurrences_of s.state } in
              sync_and_update a s "ok" true [] (record w { calls = recover_all a chats w.calls })))
      else sync_and_update s.alert s "ok" false s.prev_message_ids w

  -- The number of this failure in its stream.
  unfoldable pub next_occurrences : Sample → ℕ
  next_occurrences s =
      if is_some s.state && s.prev_status is "fail"
      then (let n = occurrences_of s.state + 1 in if ltb n 1 then 1 else n)
      else 1

  abbrev first_seen_or : ℕ → Option AlertState → ℕ
  first_seen_or now none = now
  first_seen_or now (some state) = if ltb 0 state.first_seen then state.first_seen else now

  -- The start of the delay window. A time of 0 is the zero time.
  unfoldable pub fail_started_at : Sample → ℕ
  fail_started_at s =
      if s.prev_status is "fail" && (if ltb 0 s.prev_ok_streak then false else true)
      then first_seen_or e.now s.state
      else e.now

  unfoldable pub is_delayed : Policy → Sample → Bool
  is_delayed p s =
      (requires_offline_delay s.alert.kind && is_empty s.prev_message_ids)
      && ltb e.now (fail_started_at s + fail_delay p s.alert)

  unfoldable pub is_too_few : Policy → Sample → Bool
  is_too_few p s =
      is_empty s.prev_message_ids && ltb (next_occurrences s) (min_consecutive_fails p s.alert.kind)

  abbrev was_exactly_fail : Option AlertState → Bool
  was_exactly_fail none = false
  was_exactly_fail (some state) = elim state.last_status [ none ↦ false | some t ↦ t is "fail" ]

  unfoldable pub is_threaded : List String → Sample → Bool
  is_threaded chats s =
      was_exactly_fail s.state
      && (if is_empty s.prev_message_ids
          then false
          else has_message_thread_for_all_chats chats s.prev_message_ids)

  -- The messages: all new, or an edit for each chat that has one.
  unfoldable pub deliver : List String → Sample → Alert → World → World
  deliver chats s a w =
      let (ids, calls) =
        if is_empty s.prev_message_ids
        then send_all e a 0 chats s.prev_message_ids w.calls
        else edit_all e a 0 chats s.prev_message_ids [] w.calls in
      sync_and_update a s s.alert.status true ids (record w { calls = calls })

  -- `if repeatedFailWithoutThread && ... { alert.Occurrences = state.Occurrences }`
  unfoldable pub numbered : Sample → Alert → Alert
  numbered s a =
      if was_exactly_fail s.state && ltb a.occurrences (occurrences_of s.state)
      then record a { occurrences = occurrences_of s.state }
      else a

  -- The end of the branch below: a failure that is to be reported unless it is muted.
  unfoldable pub report : List String → Sample → Alert → World → World
  report chats s a w =
      let again = numbered s a in
      let (muted, w') = is_muted e s.alert.fingerprint w in
      if muted
      then sync_and_update again s s.alert.status false s.prev_message_ids w'
      else deliver chats s again w'

  -- The branch of a sample that is not ok.
  unfoldable pub on_fail : Policy → List String → Sample → World → World
  on_fail p chats s w =
      let a : Alert = record s.alert { occurrences = next_occurrences s } in
      let quiet = sync_and_update a s s.alert.status false s.prev_message_ids w in
      if is_delayed p s
      then quiet
      else if is_too_few p s
      then quiet
      else if is_threaded chats s
      then quiet
      else report chats s a w

  unfoldable pub process : Policy → List String → Sample → World → World
  process p chats s w =
      if is_before e.now s.alert.mute_until
      then update_and_sync s s.alert.status s.prev_ok_streak w
      else if s.alert.status is "ok"
      then on_ok chats s w
      else on_fail p chats s w

  -- `chats` are the AdminChatIDs of the settings.
  unfoldable pub maybe_send_alert : Policy → List String → Bool → Alert → World → World
  maybe_send_alert p chats active a w = let (s, w') = prepare u e active a w in process p chats s w'
