-- ===== src/Ops/Stream/Delivery.antt =====
-- A subscriber gets the events of its job in order.
use x_ui_aggr.Prelude.{
  and_false, if_true, if_false, ℕ, zero, suc, ◌≡◌, ◌≤◌, refl, sym, ap, ◌∙◌, subst, String, true,
  false, not, ◌&&◌, Option, none, some, List, [], ◌∷◌, ◌++◌, map, length, length-append, ltb,
  ltb→lt, ◌==◌, ◌is◌, if◌then◌else◌, ◌⊎◌, inl, inr, Bool-cases, arith,
}
use mathlib.Core.List.{append_assoc, append-nil}
use x_ui_aggr.Ops.Stream.{
  Event, Channel, Hub, event_buffer_size, subscribe, publish, unsubscribe, receive, publish_to,
  try_send, unsubscribe_one, receive_one, take_from,
}

pub data Action : Type 0 where
  subscribing : ℕ → String → Action
  publishing : String → Event → Action
  unsubscribing receiving : ℕ → Action

abbrev pub act : Action → Hub → Hub
act (subscribing id job) h = subscribe id job h
act (publishing job e) h = publish job e h
act (unsubscribing id) h = unsubscribe id h
act (receiving id) h = receive id h

abbrev pub act_all : List Action → Hub → Hub
act_all [] h = h
act_all (a ∷ rest) h = act_all rest (act a h)

-- What an action does to one channel.
touch : Action → Channel → Channel
touch (subscribing id job) c = c
touch (publishing job e) c = publish_to job e c
touch (unsubscribing id) c = unsubscribe_one id c
touch (receiving id) c = receive_one id c

abbrev pub channel_at : Hub → ℕ → Option Channel
channel_at [] i = none
channel_at (c ∷ h) zero = some c
channel_at (c ∷ h) (suc i) = channel_at h i

channel_at-append :
    (h : Hub) (i : ℕ) (c d : Channel)
    → channel_at h i ≡ some c
    → channel_at (h ++ d ∷ []) i ≡ some c
channel_at-append [] i c d k = absurd cc
channel_at-append (x ∷ h) zero c d k = k
channel_at-append (x ∷ h) (suc i) c d k = channel_at-append h i c d k

map_option : (Channel → Channel) → Option Channel → Option Channel
map_option f none = none
map_option f (some c) = some (f c)

channel_at-map :
    (f : Channel → Channel) (h : Hub) (i : ℕ) (c : Channel)
    → channel_at h i ≡ some c
    → channel_at (map f h) i ≡ some (f c)
unfolding map_option
channel_at-map f [] i c k = absurd cc
channel_at-map f (x ∷ h) zero c k = ap (map_option f) k
channel_at-map f (x ∷ h) (suc i) c k = channel_at-map f h i c k

channel_at-act :
    (a : Action) (h : Hub) (i : ℕ) (c : Channel)
    → channel_at h i ≡ some c
    → channel_at (act a h) i ≡ some (touch a c)
unfolding touch subscribe publish unsubscribe receive
channel_at-act (subscribing id job) h i c k = channel_at-append h i c _ k
channel_at-act (publishing job e) h i c k = channel_at-map (publish_to job e) h i c k
channel_at-act (unsubscribing id) h i c k = channel_at-map (unsubscribe_one id) h i c k
channel_at-act (receiving id) h i c k = channel_at-map (receive_one id) h i c k

-- The events that the actions publish for a job.
abbrev pub events_of : String → List Action → List Event
events_of job [] = []
events_of job (publishing other e ∷ rest) =
    if job is other then e ∷ events_of job rest else events_of job rest
events_of job (_ ∷ rest) = events_of job rest

-- Open with a buffer in bounds and these events so far, or closed.
abbrev pub Got : String → List Event → Channel → Type 0
Got job es c =
    (c.closed ≡ true)
    ⊎ ((c.job_id ≡ job) × (c.taken ++ c.buffer ≡ es) × (length c.buffer ≤ event_buffer_size))

try_send-Got :
    (job : String) (es : List Event) (e : Event) (c : Channel)
    → c.job_id ≡ job
    → c.taken ++ c.buffer ≡ es
    → Got job (es ++ e ∷ []) (try_send e c)
unfolding try_send
try_send-Got job es e c j k = elim (Bool-cases (ltb (length c.buffer) event_buffer_size)) [
  | inl h ↦ rw h (
      inr (
        j,
        sym (append_assoc c.taken c.buffer (e ∷ [])) ∙ ap (λ l. l ++ e ∷ []) k,
        omega (arith, ltb→lt _ _ h, length-append c.buffer (e ∷ [])),
      ))
  | inr h ↦ rw h (inl refl)
]

publish_to-Got :
    (job other : String) (es : List Event) (e : Event) (c : Channel)
    → c.closed ≡ false
    → c.job_id ≡ job
    → c.taken ++ c.buffer ≡ es
    → length c.buffer ≤ event_buffer_size
    → Got job (es ++ events_of job (publishing other e ∷ [])) (publish_to other e c)
unfolding publish_to
publish_to-Got job other es e c opened j k b = elim (Bool-cases (job is other)) [
  | inl same ↦
      let sent : publish_to other e c ≡ try_send e c =
        if_true (c.job_id is other && not c.closed) (try_send e c) c (rw (j, same, opened) refl) in
      subst (λ d. Got job (es ++ events_of job (publishing other e ∷ [])) d) (sym sent)
        (rw same (try_send-Got job es e c j k))
  | inr other_job ↦
      let kept : publish_to other e c ≡ c =
        if_false (c.job_id is other && not c.closed) (try_send e c) c (rw (j, other_job) refl) in
      subst (λ d. Got job (es ++ events_of job (publishing other e ∷ [])) d) (sym kept)
        (rw other_job (inr (j, k ∙ sym (append-nil es), b)))
]

take_from-Got :
    (job : String) (es : List Event) (buffer : List Event) (c : Channel)
    → c.job_id ≡ job
    → c.taken ++ buffer ≡ es
    → length buffer ≤ event_buffer_size
    → c.buffer ≡ buffer
    → Got job es (take_from buffer c)
unfolding take_from
take_from-Got job es [] c j k b same = inr (j, rw same k, rw same b)
take_from-Got job es (e ∷ buffer) c j k b same =
    inr (j, append_assoc c.taken (e ∷ []) buffer ∙ k, omega (arith, b))

closed-take_from : (buffer : List Event) (c : Channel) → (take_from buffer c).closed ≡ c.closed
unfolding take_from
closed-take_from [] c = refl
closed-take_from (e ∷ buffer) c = refl

closed-touch : (a : Action) (c : Channel) → c.closed ≡ true → (touch a c).closed ≡ true
unfolding touch publish_to unsubscribe_one receive_one
closed-touch (subscribing id job) c h = h
closed-touch (publishing job e) c h =
    ap (λ (x : Channel). x.closed)
      (if_false (c.job_id is job && not c.closed) (try_send e c) c
        (rw h (and_false (c.job_id is job))))
    ∙ h
closed-touch (unsubscribing id) c h = elim (Bool-cases (c.id == id)) [
  | inl same ↦ rw same refl
  | inr other ↦ rw other h
]
closed-touch (receiving id) c h = elim (Bool-cases (c.id == id)) [
  | inl same ↦ rw same (closed-take_from c.buffer c ∙ h)
  | inr other ↦ rw other h
]

Got-nil : (job : String) (es : List Event) (c : Channel) → Got job es c → Got job (es ++ []) c
Got-nil job es c h = subst (λ l. Got job l c) (sym (append-nil es)) h

open-touch-Got :
    (a : Action) (job : String) (es : List Event) (c : Channel)
    → c.closed ≡ false
    → c.job_id ≡ job
    → c.taken ++ c.buffer ≡ es
    → length c.buffer ≤ event_buffer_size
    → Got job (es ++ events_of job (a ∷ [])) (touch a c)
unfolding touch unsubscribe_one receive_one
open-touch-Got (subscribing id other) job es c opened j k b = Got-nil job es c (inr (j, k, b))
open-touch-Got (publishing other e) job es c opened j k b =
    publish_to-Got job other es e c opened j k b
open-touch-Got (unsubscribing id) job es c opened j k b = elim (Bool-cases (c.id == id)) [
  | inl same ↦ rw same (inl refl)
  | inr other ↦ rw other (Got-nil job es c (inr (j, k, b)))
]
open-touch-Got (receiving id) job es c opened j k b = elim (Bool-cases (c.id == id)) [
  | inl same ↦
      rw same (Got-nil job es (take_from c.buffer c) (take_from-Got job es c.buffer c j k b refl))
  | inr other ↦ rw other (Got-nil job es c (inr (j, k, b)))
]

touch-Got :
    (a : Action) (job : String) (es : List Event) (c : Channel)
    → Got job es c
    → Got job (es ++ events_of job (a ∷ [])) (touch a c)
touch-Got a job es c (inl h) = inl (closed-touch a c h)
touch-Got a job es c (inr (j, k, b)) = elim (Bool-cases c.closed) [
  | inl h ↦ inl (closed-touch a c h)
  | inr h ↦ open-touch-Got a job es c h j k b
]

events_of-cons :
    (job : String) (a : Action) (rest : List Action)
    → events_of job (a ∷ []) ++ events_of job rest ≡ events_of job (a ∷ rest)
events_of-cons job (subscribing id other) rest = refl
events_of-cons job (publishing other e) rest = elim (Bool-cases (job is other)) [
  | inl h ↦ rw h refl
  | inr h ↦ rw h refl
]
events_of-cons job (unsubscribing id) rest = refl
events_of-cons job (receiving id) rest = refl

-- Whatever subscribers come, read and go, a channel of the hub whose buffer holds at most a hundred
-- events is closed in the end, or what its reader has taken and what its buffer holds are, in
-- order, the events that it had and then all that were published for its job.
pub delivered_in_order :
    (actions : List Action) (h : Hub) (i : ℕ) (c : Channel) (es : List Event)
    → channel_at h i ≡ some c
    → Got c.job_id es c
    → (d : Channel) × (channel_at (act_all actions h) i ≡ some d)
      × Got c.job_id (es ++ events_of c.job_id actions) d
delivered_in_order actions h i c es found got = go actions h c es found got
  where
    go :
        (actions : List Action) (h : Hub) (x : Channel) (es : List Event)
        → channel_at h i ≡ some x
        → Got c.job_id es x
        → (d : Channel) × (channel_at (act_all actions h) i ≡ some d)
          × Got c.job_id (es ++ events_of c.job_id actions) d
    go [] h x es found got = (x, found, Got-nil c.job_id es x got)
    go (a ∷ rest) h x es found got =
        let (d, there, end) =
          go rest (act a h) (touch a x) (es ++ events_of c.job_id (a ∷ []))
            (channel_at-act a h i x found) (touch-Got a c.job_id es x got) in
        (
          d,
          there,
          subst (λ l. Got c.job_id l d)
              (append_assoc es (events_of c.job_id (a ∷ [])) (events_of c.job_id rest)
                ∙ ap (λ l. es ++ l) (events_of-cons c.job_id a rest))
              end,
        )
