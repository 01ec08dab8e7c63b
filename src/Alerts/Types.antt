-- ===== src/Alerts/Types.antt =====
-- The data of backend/internal/services/alerts/alert.go and of the tables alert_states and
-- incidents in backend/internal/db/models.go. A UUID is a number, 0 is uuid.Nil; a time is a number
-- of nanoseconds. The columns created_at and updated_at are left out: the engine never reads them.
use x_ui_aggr.Prelude.{
  ℕ, String, ◌≡◌, Bool, Option, none, some, List, Map, ◌==◌, ◌is◌, if◌then◌else◌,
}
use x_ui_aggr.Prelude.Strings.{trim_space}
use x_ui_aggr.Prelude.Int.{ℤ}

pub data AlertType : Type 0 where
  cpu memory disk connection tls generic : AlertType
  other : String → AlertType

-- The conversion `string(alert.Type)`.
unfoldable pub type_text : AlertType → String
type_text cpu = "cpu"
type_text memory = "memory"
type_text disk = "disk"
type_text connection = "connection"
type_text tls = "tls"
type_text generic = "generic"
type_text (other t) = t

pub data Severity : Type 0 where
  info warning critical : Severity

unfoldable pub severity_text : Severity → String
severity_text info = "info"
severity_text warning = "warning"
severity_text critical = "critical"

-- `threshold` is the threshold of the metrics as fmt.Sprintf writes it for this type of alert. The
-- fields that only the text of a message shows are left out.
pub record Alert : Type 0 where
  pub kind : AlertType
  pub org_id : Option ℕ
  pub node_id : ℕ
  pub service_id : ℕ
  pub bot_id : ℕ
  pub check_id : ℕ
  pub node_name : String
  pub service_kind : String
  pub bot_kind : String
  pub check_type : String
  pub target : String
  pub target_type : String
  pub status : String
  pub severity : Severity
  pub threshold : String
  pub error : String
  pub alert_id : String
  pub incident_id : String
  pub fingerprint : String
  pub occurrences : ℕ
  pub fail_after_sec : ℤ
  pub recover_after_ok : ℤ
  pub mute_until : Option ℕ

-- A JSON column of message ids, as json.Unmarshal reads it: nothing, a list of chat and message
-- ids, the legacy object, or a text that is neither.
pub data MessageJson : Type 0 where
  blank malformed : MessageJson
  items : Map ℕ → MessageJson
  legacy : Map ℕ → MessageJson

pub record AlertState : Type 0 where
  pub alert_id : Option ℕ
  pub fingerprint : String
  pub incident_id : Option ℕ
  pub alert_type : String
  pub node_id : Option ℕ
  pub service_id : Option ℕ
  pub bot_id : Option ℕ
  pub check_type : Option String
  pub last_status : Option String
  pub first_seen : ℕ
  pub last_seen : ℕ
  pub occurrences : ℕ
  pub ok_streak : ℕ
  pub last_message_ids : MessageJson
  pub muted_until : Option ℕ

pub record Incident : Type 0 where
  pub id : ℕ
  pub org_id : Option ℕ
  pub fingerprint : String
  pub alert_type : String
  pub severity : String
  pub status : String
  pub node_id : Option ℕ
  pub service_id : Option ℕ
  pub bot_id : Option ℕ
  pub check_id : Option ℕ
  pub title : String
  pub description : Option String
  pub first_seen : ℕ
  pub last_seen : ℕ
  pub acknowledged_at : Option ℕ
  pub acknowledged_by : Option String
  pub recovered_at : Option ℕ
  pub occurrences : ℕ
  pub last_error : Option String

-- A call of the Telegram client; the text of the message is a function of the alert.
pub data ClientCall : Type 0 where
  send_alert : String → Alert → ClientCall
  edit_alert : String → ℕ → Alert → ClientCall
  send_recovery : String → Alert → ClientCall

-- What the service keeps: the tables by fingerprint, the mutes in memory, and the calls made so
-- far, the oldest first.
pub record World : Type 0 where
  pub states : Map AlertState
  pub incidents : Map Incident
  pub muted_until : Map ℕ
  pub calls : List ClientCall

-- What one run of a handler meets: the clock, the ids that are drawn, whether each access to the
-- database succeeds, and the answers of Telegram. A service without a database is one for which
-- every access fails.
pub record Env : Type 0 where
  pub now : ℕ
  pub mute_now : ℕ
  pub new_id : ℕ
  pub row_id : ℕ
  pub new_incident_id : ℕ
  pub load_ok : Bool
  pub id_ok : Bool
  pub incident_read_ok : Bool
  pub incident_write_ok : Bool
  pub state_write_ok : Bool
  pub mute_read_ok : Bool
  pub send : ℕ → String → Option ℕ
  pub edit : ℕ → String → ℕ → Bool

-- github.com/google/uuid, as the code relies on it: what String prints, Parse reads back.
pub record UuidCodec : Type 0 where
  pub show : ℕ → String
  pub parse : String → Option ℕ
  pub parse-show : (u : ℕ) → parse (show u) ≡ some u

-- nullableUUID and nullableString
unfoldable pub nullable_uuid : ℕ → Option ℕ
nullable_uuid id = if id == 0 then none else some id

unfoldable pub nullable_string : String → Option String
unfolding trim_space
nullable_string value = if trim_space value is "" then none else some (trim_space value)
