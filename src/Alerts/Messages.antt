-- ===== src/Alerts/Messages.antt =====
-- The message ids of an alert, one for each chat, and the loops that send and edit messages
-- (service.go).
use x_ui_aggr.Prelude.{
  ℕ, suc, String, Bool, true, false, ◌&&◌, ◌||◌, Option, none, some, List, [], ◌∷◌, ◌++◌, Map,
  lookup, insert, ltb, ◌==◌, ◌is◌, is_empty, if◌then◌else◌,
}
use x_ui_aggr.Prelude.Strings.{trim_space}
use x_ui_aggr.Alerts.Types.{
  Alert, AlertState, MessageJson, blank, malformed, items, legacy, ClientCall, send_alert,
  edit_alert, send_recovery, Env,
}

insert_items : Map ℕ → Map ℕ → Map ℕ
insert_items [] out = out
insert_items ((chat, id) ∷ list) out =
    insert_items list (if trim_space chat is "" || id == 0 then out else insert chat id out)

unfoldable pub message_ids_from_json : MessageJson → Map ℕ
unfolding insert_items
message_ids_from_json blank = []
message_ids_from_json malformed = []
message_ids_from_json (items list) = insert_items list []
message_ids_from_json (legacy ids) = ids

keep_items : Map ℕ → Map ℕ
keep_items [] = []
keep_items ((chat, id) ∷ ids) =
    let rest = keep_items ids in
    if trim_space chat is "" || id == 0 then rest else (chat, id) ∷ rest

unfoldable pub message_ids_to_json : Map ℕ → MessageJson
unfolding keep_items
message_ids_to_json ids = items (keep_items ids)

-- messageIDsFromJSONOrEmpty
unfoldable pub message_ids_of : Option AlertState → Map ℕ
unfolding message_ids_from_json
message_ids_of none = []
message_ids_of (some state) = message_ids_from_json state.last_message_ids

has_thread : Map ℕ → String → Bool
has_thread ids chat = elim (lookup chat ids) [ none ↦ false | some id ↦ ltb 0 id ]

threads_cover : List String → Map ℕ → Bool
unfolding has_thread
threads_cover [] ids = true
threads_cover (chat ∷ chats) ids =
    (trim_space chat is "" || has_thread ids chat) && threads_cover chats ids

unfoldable pub has_message_thread_for_all_chats : List String → Map ℕ → Bool
unfolding threads_cover
has_message_thread_for_all_chats chats ids =
    if is_empty chats || is_empty ids then false else threads_cover chats ids

-- A new message to one chat: the id that Telegram gives it is recorded.
send_one : Env → ℕ → String → Map ℕ → Map ℕ
send_one e i chat ids = elim (e.send i chat) [ none ↦ ids | some id ↦ insert chat id ids ]

-- The loop that sends a new message to each chat. `i` counts the rounds.
unfoldable pub send_all :
    Env → Alert → ℕ → List String → Map ℕ → List ClientCall → Map ℕ × List ClientCall
unfolding send_one
send_all e a i [] ids calls = (ids, calls)
send_all e a i (chat ∷ chats) ids calls =
    send_all e a (suc i) chats (send_one e i chat ids) (calls ++ send_alert chat a ∷ [])

-- One round of the other loop: edit the message of the chat, and send a new one if there is none
-- or the edit fails. `found` is the id before the loop, `ids` are those of `updatedMessageIDs`.
unfoldable pub edit_or_send :
    Env → Alert → ℕ → String → Option ℕ → Map ℕ → List ClientCall → Map ℕ × List ClientCall
unfolding send_one
edit_or_send e a i chat none ids calls = (send_one e i chat ids, calls ++ send_alert chat a ∷ [])
edit_or_send e a i chat (some id) ids calls =
    if ltb 0 id
    then (if e.edit i chat id then (insert chat id ids, calls ++ edit_alert chat id a ∷ []) else (
      send_one e i chat ids,
      (calls ++ edit_alert chat id a ∷ []) ++ send_alert chat a ∷ [],
    ))
    else (send_one e i chat ids, calls ++ send_alert chat a ∷ [])

unfoldable pub edit_all :
    Env → Alert → ℕ → List String → Map ℕ → Map ℕ → List ClientCall → Map ℕ × List ClientCall
unfolding edit_or_send
edit_all e a i [] old ids calls = (ids, calls)
edit_all e a i (chat ∷ chats) old ids calls =
    let (ids', calls') = edit_or_send e a i chat (lookup chat old) ids calls in
    edit_all e a (suc i) chats old ids' calls'

-- sendRecovery
unfoldable pub recover_all : Alert → List String → List ClientCall → List ClientCall
recover_all a [] calls = calls
recover_all a (chat ∷ chats) calls = recover_all a chats (calls ++ send_recovery chat a ∷ [])
