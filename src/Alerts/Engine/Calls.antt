-- ===== src/Alerts/Engine/Calls.antt =====
-- What leaves the calls of Telegram as they were.
use x_ui_aggr.Prelude.{ℕ, String, ◌≡◌, refl, ◌∙◌, Bool, Option, none, some, Map, arith}
use x_ui_aggr.Alerts.Types.{Alert, AlertState, World, Env, UuidCodec}
use x_ui_aggr.Alerts.Store.{ensure_alert_id, update_state, sync_incident}
use x_ui_aggr.Alerts.Mute.{is_muted}
use x_ui_aggr.Alerts.Engine.{Sample, sync_and_update, update_and_sync, prepare}

module _ (u : UuidCodec) (e : Env) where
  pub calls-update_state :
      (a : Alert) (state : Option AlertState) (status : String) (notified : Bool) (ids : Map ℕ)
      (streak : ℕ) (id : Option ℕ) (w : World)
      → (update_state u e a state status notified ids streak id w).calls ≡ w.calls
  unfolding update_state
  calls-update_state a none status notified ids streak id w = ground arith
  calls-update_state a (some state) status notified ids streak id w = ground arith

  pub calls-sync_incident :
      (a : Alert) (status prev : String) (w : World)
      → (sync_incident e a status prev w).1.calls ≡ w.calls
  unfolding sync_incident
  calls-sync_incident a status prev w = ground arith

  pub calls-is_muted : (fp : String) (w : World) → (is_muted e fp w).1.calls ≡ w.calls
  unfolding is_muted
  calls-is_muted fp w = ground arith

  pub calls-ensure_alert_id :
      (state : Option AlertState) (w : World) → (ensure_alert_id u e state w).2.calls ≡ w.calls
  unfolding ensure_alert_id
  calls-ensure_alert_id none w = refl
  calls-ensure_alert_id (some state) w = ground arith

  pub calls-sync_and_update :
      (a : Alert) (s : Sample) (status : String) (notified : Bool) (ids : Map ℕ) (w : World)
      → (sync_and_update u e a s status notified ids w).calls ≡ w.calls
  unfolding sync_and_update
  calls-sync_and_update a s status notified ids w =
      calls-update_state a s.state status notified ids 0 _ _ ∙ calls-sync_incident a status _ w

  pub calls-update_and_sync :
      (s : Sample) (status : String) (streak : ℕ) (w : World)
      → (update_and_sync u e s status streak w).calls ≡ w.calls
  unfolding update_and_sync
  calls-update_and_sync s status streak w =
      calls-sync_incident s.alert status _ _
      ∙ calls-update_state s.alert s.state status _ _ streak _ w

  pub calls-prepare :
      (active : Bool) (a : Alert) (w : World) → (prepare u e active a w).1.calls ≡ w.calls
  unfolding prepare
  calls-prepare active a w = calls-ensure_alert_id _ w
