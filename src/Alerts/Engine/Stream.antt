-- ===== src/Alerts/Engine/Stream.antt =====
-- The samples of one check over time.
use x_ui_aggr.Prelude.{ℕ, suc, ◌<◌, String, ◌≡◌, Bool, List, [], ◌∷◌, lookup}
use x_ui_aggr.Alerts.Types.{Alert, World, Env, UuidCodec}
use x_ui_aggr.Alerts.Policy.{Policy, min_consecutive_fails}
use x_ui_aggr.Alerts.Fingerprint.{fingerprint_for}
use x_ui_aggr.Alerts.Store.Rows.{IsReliable}
use x_ui_aggr.Alerts.Engine.{prepare, status_of, update_and_sync, maybe_send_alert}
use x_ui_aggr.Alerts.Engine.Noise.{IsUnsent}

-- One call of maybeSendAlert: what it meets, whether the check found a problem, and the alert.
pub record Beat : Type 0 where
  pub env : Env
  pub active : Bool
  pub alert : Alert

module _ (u : UuidCodec) (p : Policy) (chats : List String) where
  pub run : List Beat → World → World
  run [] w = w
  run (b ∷ bs) w = run bs (maybe_send_alert u b.env p chats b.active b.alert w)

  abbrev prepared_alert : Beat → World → Alert
  prepared_alert b w = (prepare u b.env b.active b.alert w).0.alert

  abbrev pub beat_status : Beat → String
  beat_status b = status_of b.active b.alert

  -- A beat of the check with this fingerprint, whose alert is counted from 0 as the callers of
  -- maybeSendAlert leave it, over a database that answers.
  abbrev pub IsBeatOf : String → Beat → Type 0
  IsBeatOf fp b =
      IsReliable b.env
      × (fingerprint_for u (record b.alert { status = beat_status b }) ≡ fp)
      × (b.alert.occurrences ≡ 0)

  -- From `k` failures in a row on, no stream of failures in the list reaches the policy's number.
  pub data Spared (fp : String) : ℕ → List Beat → Type 0 where
    over : {k : ℕ} → Spared fp k []
    ok_beat :
        {k : ℕ} {bs : List Beat} (b : Beat)
        → IsBeatOf fp b
        → beat_status b ≡ "ok"
        → Spared fp 0 bs
        → Spared fp k (b ∷ bs)
    fail_beat :
        {k : ℕ} {bs : List Beat} (b : Beat)
        → IsBeatOf fp b
        → beat_status b ≡ "fail"
        → suc k < min_consecutive_fails p b.alert.kind
        → Spared fp (suc k) bs
        → Spared fp k (b ∷ bs)

  -- What a beat leaves: an unsent row again, and no call.
  abbrev Quietly : String → ℕ → Beat → World → Type 0
  Quietly fp n b w =
      let w' = maybe_send_alert u b.env p chats b.active b.alert w in
      IsUnsent n (lookup fp w'.states) × (w'.calls ≡ w.calls)

  module _ (fp : String) (k : ℕ) (b : Beat) (w : World) (of : IsBeatOf fp b) where
    abbrev start : World
    start = (prepare u b.env b.active b.alert w).1

    -- Where a mute of the check sends the sample.
    abbrev muted_end : World
    muted_end =
        let s = (prepare u b.env b.active b.alert w).0 in
        update_and_sync u b.env s s.alert.status s.prev_ok_streak start
