-- ===== src/Alerts/Dedup.antt =====
-- dedup.go: the first alert of a fingerprint within a time window.
pub mod Window
use x_ui_aggr.Prelude.{
  ℕ, ◌+◌, String, Bool, true, false, ◌&&◌, Option, none, some, Map, List, [], ◌∷◌, lookup, insert,
  remove_where, ltb, if◌then◌else◌,
}
use x_ui_aggr.Prelude.Strings.{has_prefix}
use x_ui_aggr.Alerts.Types.{Alert}
use x_ui_aggr.Alerts.Store.{update_row}

pub record DedupEntry : Type 0 where
  pub last_sent : ℕ
  pub last_seen : ℕ
  pub occurrences : ℕ
  pub message_ids : Map ℕ
  pub alert_id : String
  pub alert : Alert

-- The entries are pointers: an entry that Track has returned is read again through the map.
pub record Deduper : Type 0 where
  pub ttl : ℕ
  pub entries : Map DedupEntry

abbrev pub new_deduper : ℕ → Deduper
new_deduper ttl = record { ttl = ttl; entries = [] }

fresh_entry : Alert → ℕ → DedupEntry
fresh_entry a now = record {
  last_sent = now;
  last_seen = now;
  occurrences = 1;
  message_ids = [];
  alert_id = a.alert_id;
  alert = a;
}

seen_entry : Alert → ℕ → DedupEntry → DedupEntry
seen_entry a now entry = record entry {
  occurrences = entry.occurrences + 1;
  last_seen = now;
  alert = a;
}

-- `now.Sub(entry.lastSent) > d.ttl`
abbrev is_stale : ℕ → ℕ → DedupEntry → Bool
is_stale ttl now entry = ltb (entry.last_sent + ttl) now

unfoldable pub track_entry : ℕ → Alert → ℕ → Option DedupEntry → Bool × DedupEntry
unfolding fresh_entry seen_entry
track_entry ttl a now none = (true, fresh_entry a now)
track_entry ttl a now (some entry) =
    if is_stale ttl now entry then (true, fresh_entry a now) else (false, seen_entry a now entry)

unfoldable pub track : Alert → ℕ → Deduper → Bool × Deduper
unfolding track_entry
track a now d =
    let (fresh, entry) = track_entry d.ttl a now (lookup a.fingerprint d.entries) in
    (fresh, record d { entries = insert a.fingerprint entry d.entries })

merge_ids : Map ℕ → Map ℕ → Map ℕ
merge_ids [] out = out
merge_ids ((chat, id) ∷ ids) out = merge_ids ids (insert chat id out)

pub record_send : String → Map ℕ → Deduper → Deduper
unfolding merge_ids update_row
record_send fingerprint ids d = record d {
  entries =
      update_row fingerprint
        (λ entry. record entry { message_ids = merge_ids ids entry.message_ids }) d.entries;
}

pub update_alert : String → Alert → Deduper → Deduper
unfolding update_row
update_alert fingerprint a d = record d {
  entries = update_row fingerprint (λ entry. record entry { alert = a }) d.entries;
}

ids_of : Option DedupEntry → Option (Map ℕ)
ids_of none = none
ids_of (some entry) = some entry.message_ids

pub message_ids : String → Deduper → Option (Map ℕ)
unfolding ids_of
message_ids fingerprint d = ids_of (lookup fingerprint d.entries)

pub clear_by_prefix : String → Deduper → Deduper
clear_by_prefix prefix d = record d {
  entries = remove_where (λ key. has_prefix key prefix) d.entries;
}
