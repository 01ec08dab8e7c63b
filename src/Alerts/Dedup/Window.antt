-- ===== src/Alerts/Dedup/Window.antt =====
-- Within the window of a fingerprint its alerts are counted and not reported again.
use x_ui_aggr.Prelude.{
  ℕ, suc, ◌+◌, ◌≤◌, String, ◌≡◌, refl, ap, ◌∙◌, true, false, Option, none, some, List, [], ◌∷◌, All,
  arith, lookup, lookup-insert, str_eq_iff, str_eq_refl, Bool-cases, inl, inr, ◌is◌, if◌then◌else◌,
}
use x_ui_aggr.Alerts.Types.{Alert}
use x_ui_aggr.Alerts.Dedup.{DedupEntry, Deduper, track, track_entry}

pub track_all : List (Alert × ℕ) → Deduper → Deduper
track_all [] d = d
track_all ((a, now) ∷ rest) d = track_all rest (track a now d).1

-- How many alerts of the list have the fingerprint.
abbrev pub count : String → List (Alert × ℕ) → ℕ
count fp [] = 0
count fp ((a, now) ∷ rest) = (if a.fingerprint is fp then 1 else 0) + count fp rest

-- The window that was opened at `sent`, with `n` alerts counted so far.
pub record InWindow (fp : String) (sent n : ℕ) (d : Deduper) : Type 0 where
  pub entry : DedupEntry
  pub stored : lookup fp d.entries ≡ some entry
  pub last_sent : entry.last_sent ≡ sent
  pub occurrences : entry.occurrences ≡ n

ttl-track : (a : Alert) (now : ℕ) (d : Deduper) → (track a now d).1.ttl ≡ d.ttl
unfolding track
ttl-track a now d = refl

track_entry-within :
    (sent n ttl : ℕ) (a : Alert) (now : ℕ) (entry : DedupEntry)
    → now ≤ sent + ttl
    → entry.last_sent ≡ sent
    → entry.occurrences ≡ n
    → ((track_entry ttl a now (some entry)).0 ≡ false)
      × ((track_entry ttl a now (some entry)).1.last_sent ≡ sent)
      × ((track_entry ttl a now (some entry)).1.occurrences ≡ suc n)
unfolding track_entry
track_entry-within sent n ttl a now entry h e k = ground arith

track-InWindow :
    (fp : String) (sent n : ℕ) (a : Alert) (now : ℕ) (d : Deduper)
    → now ≤ sent + d.ttl
    → InWindow fp sent n d
    → InWindow fp sent ((if a.fingerprint is fp then 1 else 0) + n) (track a now d).1
unfolding track
track-InWindow fp sent n a now d h v = elim (Bool-cases (a.fingerprint is fp)) [
  | inl same ↦
      let found : lookup a.fingerprint d.entries ≡ some v.entry =
        rw ((str_eq_iff a.fingerprint fp).0 same) v.stored in
      let (_, sent', count') =
        track_entry-within sent n d.ttl a now v.entry h v.last_sent v.occurrences in
      record {
        entry = (track_entry d.ttl a now (some v.entry)).1;
        stored = rw (lookup-insert, same, found) refl;
        last_sent = sent';
        occurrences = rw same (omega (arith, count'));
      }
  | inr other ↦ record {
    entry = v.entry;
    stored = rw (lookup-insert, other) v.stored;
    last_sent = v.last_sent;
    occurrences = rw other (omega (arith, v.occurrences));
  }
]

-- While the times of the alerts stay within the time to live of the last report, an alert of the
-- same fingerprint is not reported again, and the entry counts exactly the alerts of its
-- fingerprint, whatever other alerts come between.
pub suppressed_within_ttl :
    (fp : String) (sent n : ℕ) (alerts : List (Alert × ℕ)) (d : Deduper) (a : Alert) (now : ℕ)
    → InWindow fp sent n d
    → All (λ (x : Alert × ℕ). x.1 ≤ sent + d.ttl) alerts
    → a.fingerprint ≡ fp
    → now ≤ sent + d.ttl
    → ((track a now (track_all alerts d)).0 ≡ false)
      × InWindow fp sent (count fp alerts + n) (track_all alerts d)
unfolding track_all track
suppressed_within_ttl fp sent n [] d a now v h same now_in =
    let found : lookup a.fingerprint d.entries ≡ some v.entry = rw same v.stored in
    (
      ap (λ (o : Option DedupEntry). (track_entry d.ttl a now o).0) found
          ∙ (track_entry-within sent n d.ttl a now v.entry now_in v.last_sent v.occurrences).0,
      record {
        entry = v.entry;
        stored = v.stored;
        last_sent = v.last_sent;
        occurrences = omega (arith, v.occurrences);
      },
    )
suppressed_within_ttl fp sent n ((b, t) ∷ rest) d a now v h same now_in =
    let ttl = ttl-track b t d in
    let (quiet, w) =
      suppressed_within_ttl fp sent ((if b.fingerprint is fp then 1 else 0) + n) rest
        (track b t d).1 a now (track-InWindow fp sent n b t d h.0 v) (rw ttl h.1) same
        (rw ttl now_in) in
    (
      quiet,
      record {
        entry = w.entry;
        stored = w.stored;
        last_sent = w.last_sent;
        occurrences = omega (arith, w.occurrences);
      },
    )

track_entry-fresh :
    (ttl : ℕ) (a : Alert) (now : ℕ) (o : Option DedupEntry)
    → (track_entry ttl a now o).0 ≡ true
    → ((track_entry ttl a now o).1.last_sent ≡ now) × ((track_entry ttl a now o).1.occurrences ≡ 1)
unfolding track_entry
track_entry-fresh ttl a now none h = (refl, refl)
track_entry-fresh ttl a now (some entry) h = ground arith

-- An alert that is reported opens a window of its fingerprint that counts it alone.
pub reported_opens_window :
    (a : Alert) (now : ℕ) (d : Deduper)
    → (track a now d).0 ≡ true
    → InWindow a.fingerprint now 1 (track a now d).1
unfolding track
reported_opens_window a now d h =
    let o = lookup a.fingerprint d.entries in
    let (sent, counted) = track_entry-fresh d.ttl a now o h in
    record {
      entry = (track_entry d.ttl a now o).1;
      stored = rw (lookup-insert, str_eq_refl a.fingerprint) refl;
      last_sent = sent;
      occurrences = counted;
    }
