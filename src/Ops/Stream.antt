-- ===== src/Ops/Stream.antt =====
-- backend/internal/services/ops/stream.go: the hub that hands the events of a job to its subscribers.
pub mod Delivery
use x_ui_aggr.Prelude.{
  ℕ, String, Bool, true, false, not, ◌&&◌, List, [], ◌∷◌, ◌++◌, map, length, ltb, ◌==◌, ◌is◌,
  if◌then◌else◌,
}

-- `ts` is the time as newEvent prints it.
pub record Event : Type 0 where
  pub kind : String
  pub job_id : String
  pub ts : String
  pub data_text : String

abbrev pub new_event : String → String → String → String → Event
new_event job_id kind ts data_text = record {
  kind = kind;
  job_id = job_id;
  ts = ts;
  data_text = data_text;
}

abbrev pub event_buffer_size : ℕ
event_buffer_size = 100

-- A channel that Subscribe has made: its buffer, the events that its reader has taken so far, and
-- whether it is closed. It is in the map of the hub exactly as long as it is not closed.
pub record Channel : Type 0 where
  pub id : ℕ
  pub job_id : String
  pub buffer : List Event
  pub taken : List Event
  pub closed : Bool

-- The channels that were ever made, the oldest first.
abbrev pub Hub : Type 0
Hub = List Channel

unfoldable pub subscribe : ℕ → String → Hub → Hub
subscribe id job_id h =
    h ++ record { id = id; job_id = job_id; buffer = []; taken = []; closed = false } ∷ []

-- trySend and, where it fails, unsubscribe.
unfoldable pub try_send : Event → Channel → Channel
try_send e c =
    if ltb (length c.buffer) event_buffer_size
    then record c { buffer = c.buffer ++ e ∷ [] }
    else record c { closed = true }

unfoldable pub publish_to : String → Event → Channel → Channel
publish_to job_id e c = if c.job_id is job_id && not c.closed then try_send e c else c

unfoldable pub publish : String → Event → Hub → Hub
publish job_id e h = map (publish_to job_id e) h

-- The function that Subscribe returns; closing a channel twice has no effect.
unfoldable pub unsubscribe_one : ℕ → Channel → Channel
unsubscribe_one id c = if c.id == id then record c { closed = true } else c

unfoldable pub unsubscribe : ℕ → Hub → Hub
unsubscribe id h = map (unsubscribe_one id) h

-- The reader takes the oldest event of its buffer.
take_from : List Event → Channel → Channel
take_from [] c = c
take_from (e ∷ es) c = record c { buffer = es; taken = c.taken ++ e ∷ [] }

unfoldable pub receive_one : ℕ → Channel → Channel
unfolding take_from
receive_one id c = if c.id == id then take_from c.buffer c else c

unfoldable pub receive : ℕ → Hub → Hub
receive id h = map (receive_one id) h
