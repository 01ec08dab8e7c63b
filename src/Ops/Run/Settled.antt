-- ===== src/Ops/Run/Settled.antt =====
-- After a run of a job every one of its items has an outcome.
use x_ui_aggr.Prelude.{
  ==_refl, and_false, if_true, if_false, ℕ, ◌+◌, ◌≡◌, refl, sym, ap, ◌∙◌, subst, String, Bool, true,
  false, ◌&&◌, ◌||◌, Option, none, some, List, [], ◌∷◌, ◌==◌, ltb, if◌then◌else◌, is_empty, any,
  All, arith, ◌⊎◌, inl, inr, Bool-cases, Option-cases,
}
use x_ui_aggr.Prelude.Int.{pos}
use x_ui_aggr.Prelude.Results.{Result, ok, fail}
use x_ui_aggr.Ops.Types.{OpsJob, OpsJobItem, Node, Store, Status, queued, success, failed}
use x_ui_aggr.Ops.Schedule.{is_queued, is_running}
use x_ui_aggr.Ops.Run.{
  ItemEnv, Outcome, Answer, outcome, outcome_of, run_on_node, execute_item, run_items, run_job,
  queued_items, is_waiting, update_items, start_item, finish_item, job_status_from_failures, done,
  broken, is_skipped, is_installed, note_version, dispatch,
}

-- The row belongs to the job and has no outcome yet.
abbrev pub is_open : ℕ → OpsJobItem → Bool
is_open job x = x.job_id == job && (is_queued x.status || is_running x.status)

abbrev has_item : ℕ → List OpsJobItem → Bool
has_item id xs = any (λ x. x.id == id) xs

-- A row without outcome is still in the channel.
abbrev IsLeft : ℕ → List OpsJobItem → OpsJobItem → Type 0
IsLeft job items x = (is_open job x ≡ false) ⊎ (has_item x.id items ≡ true)

-- An outcome's status says whether it carries an error.
abbrev Agrees : Outcome → Type 0
Agrees o =
    ((o.status ≡ success) × (o.error ≡ none))
    ⊎ ((o.status ≡ failed) × ((msg : String) × (o.error ≡ some msg)))

done-Agrees : (text : String) → Agrees (done text)
done-Agrees text = inl (refl, refl)

outcome_of-Agrees : (a : Answer) → Agrees (outcome_of a)
unfolding outcome_of
outcome_of-Agrees a = elim (Option-cases a.error) [
  | inl h ↦ rw h (inl (refl, refl))
  | inr (msg, h) ↦ rw h (inr (refl, (msg, refl)))
]

run_on_node-Agrees : (e : ItemEnv) (job : OpsJob) (node : Node) → Agrees (run_on_node e job node)
unfolding run_on_node
run_on_node-Agrees e job node = elim (Bool-cases (is_skipped job node)) [
  | inl h ↦ rw h (inl (refl, refl))
  | inr h ↦ elim (Bool-cases (is_installed e job node)) [
    | inl k ↦ rw (h, k) (inl (refl, refl))
    | inr k ↦ rw (h, k) (outcome_of-Agrees (note_version e job.kind (dispatch e job.kind)))
  ]
]

waited-Agrees :
    (text : String) (o : Option String)
    → Agrees (elim o [ none ↦ done text | some msg ↦ broken text (pos 1) msg ])
waited-Agrees text none = inl (refl, refl)
waited-Agrees text (some msg) = inr (refl, (msg, refl))

loaded-Agrees :
    (e : ItemEnv) (job : OpsJob) (r : Result Node)
    → Agrees (elim r [ ok node ↦ run_on_node e job node | fail msg ↦ broken "" (pos 1) msg ])
loaded-Agrees e job (ok node) = run_on_node-Agrees e job node
loaded-Agrees e job (fail msg) = inr (refl, (msg, refl))

outcome-Agrees : (e : ItemEnv) (job : OpsJob) → Agrees (outcome e job)
unfolding outcome
outcome-Agrees e job = elim (Bool-cases job.params.dry_run) [
  | inl h ↦ rw h (waited-Agrees e.dry_run_log e.cancelled)
  | inr h ↦ rw h (loaded-Agrees e job e.node)
]

settled_is_closed : (o : Outcome) → Agrees o → (is_queued o.status || is_running o.status) ≡ false
settled_is_closed o (inl (s, _)) = rw s refl
settled_is_closed o (inr (s, _)) = rw s refl

or_true : (b : Bool) → (b || true) ≡ true
or_true true = refl
or_true false = refl

All-closed :
    (job : ℕ) (rows : List OpsJobItem)
    → All (IsLeft job []) rows
    → All (λ (x : OpsJobItem). is_open job x ≡ false) rows
All-closed job [] h = tt
All-closed job (x ∷ rows) (inl closed, h) = (closed, All-closed job rows h)
All-closed job (x ∷ rows) (inr found, h) = absurd cc

still_left :
    (a b : ℕ) (closed rest : Bool)
    → (a == b) ≡ false
    → (closed ≡ false) ⊎ ((b == a || rest) ≡ true)
    → (closed ≡ false) ⊎ (rest ≡ true)
still_left a b closed true h l = inr refl
still_left a b closed false h l = ground arith

-- What the two updates do to a row.
updated-row :
    (e : ItemEnv) (job : OpsJob) (item : OpsJobItem) (items : List OpsJobItem) (x : OpsJobItem)
    → IsLeft job.id (item ∷ items) x
    → let begun = if x.id == item.id then start_item e x else x in
      IsLeft job.id items
        (if begun.id == item.id then finish_item e (outcome e job) begun else begun)
updated-row e job item items x l = elim (Bool-cases (x.id == item.id)) [
  | inl same ↦
      let closed = settled_is_closed (outcome e job) (outcome-Agrees e job) in
      rw (same, same) (inl (rw closed (and_false (x.job_id == job.id))))
  | inr other ↦ rw (other, other) (still_left x.id item.id _ _ other l)
]

update_items-IsLeft :
    (e : ItemEnv) (job : OpsJob) (item : OpsJobItem) (items rows : List OpsJobItem)
    → All (IsLeft job.id (item ∷ items)) rows
    → All (IsLeft job.id items) (
        update_items item.id
          (finish_item e (outcome e job))
          (update_items item.id (start_item e) rows))
unfolding update_items
update_items-IsLeft e job item items [] h = tt
update_items-IsLeft e job item items (x ∷ rows) h =
    (updated-row e job item items x h.0, update_items-IsLeft e job item items rows h.1)

execute_item-rows :
    (e : ItemEnv) (job : OpsJob) (item : OpsJobItem) (rows : List OpsJobItem)
    → e.start_ok ≡ true
    → e.finish_ok ≡ true
    → (execute_item e job item rows).1
      ≡ update_items item.id
          (finish_item e (outcome e job))
          (update_items item.id (start_item e) rows)
unfolding execute_item
execute_item-rows e job item rows s f =
    if_true e.finish_ok _ _ f
    ∙ ap (update_items item.id (finish_item e (outcome e job))) (if_true e.start_ok _ _ s)

abbrev pub Writes : (OpsJobItem → ItemEnv) → Type 0
Writes env = (x : OpsJobItem) → ((env x).start_ok ≡ true) × ((env x).finish_ok ≡ true)

run_items-IsLeft :
    (env : OpsJobItem → ItemEnv) (job : OpsJob) (items rows : List OpsJobItem)
    → Writes env
    → All (IsLeft job.id items) rows
    → All (IsLeft job.id []) (run_items env job items rows).1
unfolding run_items
run_items-IsLeft env job [] rows w h = h
run_items-IsLeft env job (item ∷ items) rows w h =
    let same = execute_item-rows (env item) job item rows (w item).0 (w item).1 in
    run_items-IsLeft env job items (execute_item (env item) job item rows).1 w (
      subst (λ r. All (IsLeft job.id items) r) (sym same)
        (update_items-IsLeft (env item) job item items rows h))

widen :
    (job : ℕ) (y : OpsJobItem) (items rows : List OpsJobItem)
    → All (IsLeft job items) rows
    → All (IsLeft job (y ∷ items)) rows
widen job y items [] h = tt
widen job y items (x ∷ rows) (inl closed, h) = (inl closed, widen job y items rows h)
widen job y items (x ∷ rows) (inr found, h) =
    (inr (rw found (or_true (y.id == x.id))), widen job y items rows h)

waits_or_closed :
    (job : ℕ) (x : OpsJobItem)
    → is_waiting job x ≡ false
    → (is_open job x ≡ false) ⊎ (x.status ≡ queued)
    → is_open job x ≡ false
waits_or_closed job x h (inl closed) = closed
waits_or_closed job x h (inr q) = rw q (rw q at h)

-- The open rows of the job are its queued items.
queued_items-IsLeft :
    (job : ℕ) (rows : List OpsJobItem)
    → All (λ (x : OpsJobItem). (is_open job x ≡ false) ⊎ (x.status ≡ queued)) rows
    → All (IsLeft job (queued_items job rows)) rows
unfolding queued_items
queued_items-IsLeft job [] h = tt
queued_items-IsLeft job (x ∷ rows) h =
    let ih = queued_items-IsLeft job rows h.1 in
    elim (Bool-cases (is_waiting job x)) [
      | inl w ↦
          subst (λ items. All (IsLeft job items) (x ∷ rows))
            (sym (if_true (is_waiting job x) _ _ w))
            (inr (rw (==_refl x.id) refl), widen job x (queued_items job rows) rows ih)
      | inr w ↦
          subst (λ items. All (IsLeft job items) (x ∷ rows))
            (sym (if_false (is_waiting job x) _ _ w)) (inl (waits_or_closed job x w h.0), ih)
    ]

abbrev is_failed : Status → Bool
is_failed failed = true
is_failed _ = false

-- How many of the items have an outcome that is a failure.
abbrev pub failures : (OpsJobItem → ItemEnv) → OpsJob → List OpsJobItem → ℕ
failures env job [] = 0
failures env job (x ∷ xs) =
    (if is_failed (outcome (env x) job).status then 1 else 0) + failures env job xs

broke-failed :
    (o : Outcome) → Agrees o → elim o.error [ none ↦ false | some msg ↦ true ] ≡ is_failed o.status
broke-failed o (inl (s, e)) = rw (s, e) refl
broke-failed o (inr (s, (msg, e))) = rw (s, e) refl

run_items-failures :
    (env : OpsJobItem → ItemEnv) (job : OpsJob) (items rows : List OpsJobItem)
    → (run_items env job items rows).0 ≡ failures env job items
unfolding run_items execute_item
run_items-failures env job [] rows = refl
run_items-failures env job (item ∷ items) rows =
    let broke = broke-failed (outcome (env item) job) (outcome-Agrees (env item) job) in
    let ih = run_items-failures env job items (execute_item (env item) job item rows).1 in
    rw (broke, ih) refl

ended_status :
    (text : ℕ → String) (env : OpsJobItem → ItemEnv) (finished : ℕ) (job : OpsJob)
    (items : List OpsJobItem)
    → let (status, error) = job_status_from_failures text (failures env job items) in
      let ended : OpsJob =
        if is_empty items
        then record job { status = success; finished_at = some finished }
        else record job { status = status; error = error; finished_at = some finished } in
      ended.status ≡ (if ltb 0 (failures env job items) then failed else success)
unfolding job_status_from_failures
ended_status text env finished job [] = refl
ended_status text env finished job (x ∷ xs) =
    elim (Bool-cases (ltb 0 (failures env job (x ∷ xs)))) [ inl h ↦ rw h refl | inr h ↦ rw h refl ]

-- If the updates of the rows succeed, and no item of the job was under way before, then after the
-- run no item of the job is queued or running. The job has failed exactly if the outcome of one of
-- its queued items is a failure, and has succeeded otherwise.
pub run_job-settles :
    (text : ℕ → String) (env : OpsJobItem → ItemEnv) (finished : ℕ) (save_ok : Bool) (job : OpsJob)
    (st : Store)
    → Writes env
    → All (λ (x : OpsJobItem). (is_open job.id x ≡ false) ⊎ (x.status ≡ queued)) st.items
    → let (ended, after) = run_job text env finished true save_ok job st in
      All (λ (x : OpsJobItem). is_open job.id x ≡ false) after.items
      × (ended.status
          ≡ (if ltb 0 (failures env job (queued_items job.id st.items)) then failed else success))
unfolding run_job
run_job-settles text env finished save_ok job st w h =
    let items = queued_items job.id st.items in
    let left = run_items-IsLeft env job items st.items w (queued_items-IsLeft job.id st.items h) in
    let n = run_items-failures env job items st.items in
    (All-closed job.id _ left, rw n (ended_status text env finished job items))
