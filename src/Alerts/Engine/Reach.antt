-- ===== src/Alerts/Engine/Reach.antt =====
-- What the loops over the chats call, call by call.
use mathlib.Core.List.{append-nil, append_assoc}
use x_ui_aggr.Prelude.{
  ap, arith, is_empty, false, true, ◌⊎◌, ℕ, suc, String, ◌≡◌, refl, sym, ◌∙◌, Option, none, some,
  List, [], ◌∷◌, ◌++◌, Map, lookup, ltb, Bool-cases, inl, inr,
}
use x_ui_aggr.Alerts.Types.{Alert, Env, ClientCall, send_alert, edit_alert, send_recovery}
use x_ui_aggr.Alerts.Messages.{send_all, edit_or_send, edit_all, recover_all}

-- One new message to each chat, in their order.
abbrev pub sends : Alert → List String → List ClientCall
sends a [] = []
sends a (chat ∷ chats) = send_alert chat a ∷ sends a chats

abbrev pub recoveries : Alert → List String → List ClientCall
recoveries a [] = []
recoveries a (chat ∷ chats) = send_recovery chat a ∷ recoveries a chats

-- The calls that bring the alert to each chat, in their order: an edit of the message that the chat
-- has, after a failed edit also a new message, and a new message where it has none. `i` counts the
-- chats, as Telegram's answers are given for them.
pub data Reports (e : Env) (a : Alert) (old : Map ℕ)
    : ℕ → List String → List ClientCall → Type 0 where
  no_chats : {i : ℕ} → Reports e a old i [] []
  sent :
      {i : ℕ} {chats : List String} {calls : List ClientCall} (chat : String)
      → (lookup chat old ≡ none) ⊎ (lookup chat old ≡ some 0)
      → Reports e a old (suc i) chats calls
      → Reports e a old i (chat ∷ chats) (send_alert chat a ∷ calls)
  edited :
      {i : ℕ} {chats : List String} {calls : List ClientCall} (chat : String) (id : ℕ)
      → lookup chat old ≡ some id
      → e.edit i chat id ≡ true
      → Reports e a old (suc i) chats calls
      → Reports e a old i (chat ∷ chats) (edit_alert chat id a ∷ calls)
  sent_again :
      {i : ℕ} {chats : List String} {calls : List ClientCall} (chat : String) (id : ℕ)
      → lookup chat old ≡ some id
      → e.edit i chat id ≡ false
      → Reports e a old (suc i) chats calls
      → Reports e a old i (chat ∷ chats) (edit_alert chat id a ∷ send_alert chat a ∷ calls)

pub sends-Reports :
    (e : Env) (a : Alert) (old : Map ℕ) (i : ℕ) (chats : List String)
    → is_empty old ≡ true
    → Reports e a old i chats (sends a chats)
unfolding lookup
sends-Reports e a old i [] h = no_chats
sends-Reports e a [] i (chat ∷ chats) h =
    sent chat (inl refl) (sends-Reports e a [] (suc i) chats h)
sends-Reports e a (x ∷ old) i (chat ∷ chats) h = absurd cc

pub recover_all-calls :
    (a : Alert) (chats : List String) (calls : List ClientCall)
    → recover_all a chats calls ≡ calls ++ recoveries a chats
unfolding recover_all
recover_all-calls a [] calls = sym (append-nil calls)
recover_all-calls a (chat ∷ chats) calls =
    recover_all-calls a chats (calls ++ send_recovery chat a ∷ [])
    ∙ append_assoc calls (send_recovery chat a ∷ []) (recoveries a chats)

module _ (e : Env) (a : Alert) where
  pub send_all-calls :
      (i : ℕ) (chats : List String) (ids : Map ℕ) (calls : List ClientCall)
      → (send_all e a i chats ids calls).1 ≡ calls ++ sends a chats
  unfolding send_all
  send_all-calls i [] ids calls = sym (append-nil calls)
  send_all-calls i (chat ∷ chats) ids calls =
      send_all-calls (suc i) chats _ (calls ++ send_alert chat a ∷ [])
      ∙ append_assoc calls (send_alert chat a ∷ []) (sends a chats)

  -- One round: the calls that it adds, in front of those of the later rounds.
  edit_or_send-Reports :
      (i : ℕ) (chat : String) (found : Option ℕ) (old ids : Map ℕ) (calls : List ClientCall)
      → lookup chat old ≡ found
      → (new : List ClientCall) × ((edit_or_send e a i chat found ids calls).1 ≡ calls ++ new)
        × ((chats : List String) (rest : List ClientCall)
            → Reports e a old (suc i) chats rest
            → Reports e a old i (chat ∷ chats) (new ++ rest))
  unfolding edit_or_send
  edit_or_send-Reports i chat none old ids calls h =
      (send_alert chat a ∷ [], refl, λ chats rest r. sent chat (inl h) r)
  edit_or_send-Reports i chat (some id) old ids calls h = elim (Bool-cases (ltb 0 id)) [
    | inr zero_id ↦
        let is_zero : id ≡ 0 = ground arith in
        (
          send_alert chat a ∷ [],
          rw zero_id refl,
          λ chats rest r. sent chat (inr (h ∙ ap (λ n. some n) is_zero)) r,
        )
    | inl known ↦ elim (Bool-cases (e.edit i chat id)) [
      | inl works ↦ (
        edit_alert chat id a ∷ [],
        rw (known, works) refl,
        λ chats rest r. edited chat id h works r,
      )
      | inr fails ↦ (
        edit_alert chat id a ∷ send_alert chat a ∷ [],
        rw (known, fails) (append_assoc calls (edit_alert chat id a ∷ []) (send_alert chat a ∷ [])),
        λ chats rest r. sent_again chat id h fails r,
      )
    ]
  ]

  pub edit_all-Reports :
      (i : ℕ) (chats : List String) (old ids : Map ℕ) (calls : List ClientCall)
      → (new : List ClientCall) × ((edit_all e a i chats old ids calls).1 ≡ calls ++ new)
        × Reports e a old i chats new
  unfolding edit_all
  edit_all-Reports i [] old ids calls = ([], sym (append-nil calls), no_chats)
  edit_all-Reports i (chat ∷ chats) old ids calls =
      let found = lookup chat old in
      let round = edit_or_send e a i chat found ids calls in
      let (first, eq, extend) = edit_or_send-Reports i chat found old ids calls refl in
      let (rest, eq', r) = edit_all-Reports (suc i) chats old round.0 round.1 in
      (
        first ++ rest,
        eq' ∙ ap (λ c. c ++ rest) eq ∙ append_assoc calls first rest,
        extend chats rest r,
      )
