-- ===== src/Alerts/Mute.antt =====
-- setMute and isMuted (service.go): mutes in memory, with the column muted_until behind them.
use x_ui_aggr.Prelude.{
  ℕ, ◌+◌, String, Bool, true, false, Option, none, some, lookup, insert, remove, ltb, ◌is◌,
  if◌then◌else◌,
}
use x_ui_aggr.Prelude.Strings.{trim_space}
use x_ui_aggr.Alerts.Types.{AlertState, World, Env}
use x_ui_aggr.Alerts.Store.{update_row}

-- `duration` is that of the mute, which the handlers take from a number of minutes.
unfoldable pub set_mute : Env → String → ℕ → World → World
unfolding update_row
set_mute e fingerprint duration w =
    if trim_space fingerprint is ""
    then w
    else (let until = e.now + duration in
        record w {
          muted_until = insert fingerprint until w.muted_until;
          states =
              if e.state_write_ok
              then update_row fingerprint (λ row. record row { muted_until = some until }) w.states
              else w.states;
        })

-- `now < until` for an optional time.
abbrev pub is_before : ℕ → Option ℕ → Bool
is_before now none = false
is_before now (some until) = ltb now until

-- The database is asked where the memory holds no mute that lasts; what it answers is kept.
unfoldable pub ask_row : Env → String → Option AlertState → World → Bool × World
ask_row e fingerprint none w = (false, w)
ask_row e fingerprint (some row) w = elim row.muted_until [
  | none ↦ (false, w)
  | some until ↦
      if ltb e.mute_now until
      then (true, record w { muted_until = insert fingerprint until w.muted_until })
      else (false, w)
]

unfoldable pub is_muted : Env → String → World → Bool × World
unfolding ask_row
is_muted e fingerprint w =
    if trim_space fingerprint is ""
    then (false, w)
    else if is_before e.mute_now (lookup fingerprint w.muted_until)
    then (true, w)
    else (let w' : World = record w { muted_until = remove fingerprint w.muted_until } in
        if e.mute_read_ok
        then ask_row e fingerprint (lookup fingerprint w.states) w'
        else (false, w'))
