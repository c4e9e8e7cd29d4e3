-- ===== src/Plugins/WorkRegistry/Transitions.antt =====
-- The states of a task: what Transition does, and what it never does.
use agent_native_os.Prelude.{
  ℕ, ◌<◌, String, true, false, ◌≡◌, ◌≢◌, ◌↔◌, refl, sym, ap, ◌∙◌, inl, inr, ◌⊎◌, some, arith, ◌==◌,
  text_comparable, str_eq_iff, eqb_iff, Bool-cases, Option-cases, if◌then◌else◌, nat_comparable,
}
use agent_native_os.Prelude.Int64.{incr, modulus}
use agent_native_os.Prelude.Map.{lookup, insert, lookup-insert, lookup-insert_self}
use agent_native_os.Prelude.Result.{Result, ok, err, Result-cases}
use agent_native_os.Plugins.EventLog.{
  Write, written, append, not_opened, torn, no_newline, not_synced, LogError,
}
use agent_native_os.Plugins.WorkRegistry.Store.{
  Status, planned, in_progress, in_review, done, failed, Status-Comparable, status_eq_iff, Task,
  Change, transitioned, Tables, Store, conflict, illegal_transition, apply, legal_transition, View,
  view, log_then, transition, other, answer, ApplyError,
}

-- The steps that the source allows, one by one.
pub data Step : Status → Status → Type 0 where
  start : Step planned in_progress
  submit : Step in_progress in_review
  approve : Step in_review done
  give_up : {s : Status} → s ≢ done → s ≢ failed → Step s failed

step_of_legal : (from to : Status) → legal_transition from to ≡ true → Step from to
unfolding legal_transition
step_of_legal planned in_progress e = start
step_of_legal in_progress in_review e = submit
step_of_legal in_review done e = approve
step_of_legal planned failed e = give_up (λ q. cc) (λ q. cc)
step_of_legal in_progress failed e = give_up (λ q. cc) (λ q. cc)
step_of_legal in_review failed e = give_up (λ q. cc) (λ q. cc)
step_of_legal (other t) failed e = give_up (λ q. cc) (λ q. cc)
step_of_legal from to e = absurd (ground arith)

legal_of_step : {from to : Status} → Step from to → legal_transition from to ≡ true
unfolding legal_transition
legal_of_step start = refl
legal_of_step submit = refl
legal_of_step approve = refl
legal_of_step (give_up {s} h k) = ground (arith, h, k, status_eq_iff s done, status_eq_iff s failed)

-- The test accepts a pair of states exactly when it is one of the allowed steps: PLANNED to
-- IN_PROGRESS to IN_REVIEW to DONE, and from any state but DONE and FAILED to FAILED.
pub legal_transition_iff : (from to : Status) → (legal_transition from to ≡ true) ↔ Step from to
legal_transition_iff from to = (step_of_legal from to, legal_of_step)

append-ok :
    (w : Write) (c : Change) (s : Store)
    → (append apply w c s).0 ≡ ok tt
    → (tables : Tables) × (apply c s.0.state ≡ ok tables)
      × ((append apply w c s).1.0 ≡ record { state = tables; seq = incr s.0.seq })
unfolding append
append-ok not_opened c s e = cc
append-ok torn c s e = cc
append-ok no_newline c s e = cc
append-ok not_synced c s e = cc
append-ok written c s e = elim (Result-cases (apply c s.0.state)) [
  | inl (tables, q) ↦ (tables, q, rw (q, append))
  | inr (x, q) ↦ cc (rw (q, append) at e)
]

answer-ok :
    {A : Type 0} (f : Store → A) (o : Result (LogError ApplyError) (Unit {0}) × Store) {a : A}
    → (answer f o).0 ≡ ok a
    → (o.0 ≡ ok tt) × (a ≡ f o.1) × ((answer f o).1 ≡ o.1)
answer-ok f (err x, s) e = cc
answer-ok f (ok tt, s) e = (refl, cc, refl)

-- What a call that appends a record has done if it succeeds.
pub log_then-ok :
    {A : Type 0} (w : Write) (c : Change) (f : Store → A) (s : Store) {a : A}
    → (log_then w c f s).0 ≡ ok a
    → (tables : Tables) × (apply c s.0.state ≡ ok tables)
      × ((log_then w c f s).1.0 ≡ record { state = tables; seq = incr s.0.seq })
      × (a ≡ f (log_then w c f s).1)
unfolding log_then
log_then-ok w c f s e =
    let (finished, result, same) = answer-ok f (append apply w c s) e in
    let (tables, accepted, next) = append-ok w c s finished in
    (tables, accepted, ap (λ x. x.0) same ∙ next, result ∙ sym (ap f same))

-- What a successful transition is.
pub record IsMoved (wc_id : String) (to : Status) (expected : ℕ) (s s' : Tables) (v : View)
    : Type 0 where
  pub task_id : String
  pub task : Task
  pub context : lookup wc_id s.task_by_wc ≡ some task_id
  pub found : lookup task_id s.tasks ≡ some task
  pub current : task.version ≡ expected
  pub allowed : Step task.status to
  pub moved :
      (j : String)
      → lookup j s'.tasks ≡ (
          if task_id == j
          then some (record task { status = to; version = incr expected })
          else lookup j s.tasks)
  pub contexts : s'.wcs ≡ s.wcs
  pub owners : s'.task_by_wc ≡ s.task_by_wc
  pub keys : s'.idem ≡ s.idem
  pub returned :
      v ≡ (some (record task { status = to; version = incr expected }), lookup wc_id s.wcs)

module _ (w : Write) (wc_id : String) (to : Status) (expected : ℕ) (s : Store) where
  -- The checks of a call that gets as far as the log.
  record IsAccepted : Type 0 where
    task_id : String
    task : Task
    context : lookup wc_id s.0.state.task_by_wc ≡ some task_id
    found : lookup task_id s.0.state.tasks ≡ some task
    current : task.version ≡ expected
    allowed : legal_transition task.status to ≡ true
    runs :
        transition w wc_id to expected s
        ≡ log_then w (transitioned wc_id task.status to (incr task.version)) (view task_id wc_id) s

  transition-IsAccepted : {v : View} → (transition w wc_id to expected s).0 ≡ ok v → IsAccepted
  unfolding transition
  transition-IsAccepted e = elim (Option-cases (lookup wc_id s.0.state.task_by_wc)) [
    | inl missing ↦ absurd (cc (rw (missing, transition) at e))
    | inr (task_id, context) ↦ elim (Option-cases (lookup task_id s.0.state.tasks)) [
      | inl missing ↦ absurd (cc (rw (context, missing, transition) at e))
      | inr (task, found) ↦ elim (Bool-cases (task.version == expected)) [
        | inr stale ↦ absurd (cc (rw (context, found, stale, transition) at e))
        | inl current ↦ elim (Bool-cases (legal_transition task.status to)) [
          | inr illegal ↦ absurd (cc (rw (context, found, current, illegal, transition) at e))
          | inl allowed ↦ record {
            task_id = task_id;
            task = task;
            context = context;
            found = found;
            current = (eqb_iff task.version expected).0 current;
            allowed = allowed;
            runs = rw (context, found, current, allowed, transition);
          }
        ]
      ]
    ]
  ]

apply-transitioned :
    (wc_id task_id : String) (task : Task) (from to : Status) (version : ℕ) (s : Tables)
    {tables : Tables}
    → lookup wc_id s.task_by_wc ≡ some task_id
    → lookup task_id s.tasks ≡ some task
    → apply (transitioned wc_id from to version) s ≡ ok tables
    → record s { tasks = insert task_id (record task { status = to; version = version }) s.tasks }
      ≡ tables
unfolding apply
apply-transitioned wc_id task_id task from to version s context found e =
    cc (rw (context, found, apply) at e)

-- If Transition succeeds, the task was at the expected version and the step is an allowed one; in
-- the new maps the task alone has changed, to the asked state and the next version, and it is what
-- the call returns.
pub transition-IsMoved :
    (w : Write) (wc_id : String) (to : Status) (expected : ℕ) (s : Store) (v : View)
    → (transition w wc_id to expected s).0 ≡ ok v
    → IsMoved wc_id to expected s.0.state (transition w wc_id to expected s).1.0.state v
transition-IsMoved w wc_id to expected s v e =
    let a = transition-IsAccepted w wc_id to expected s e in
    let (tables, accepted, next, result) =
      log_then-ok w _ (view a.task_id wc_id) s (rw a.runs at e) in
    let made =
      apply-transitioned wc_id a.task_id a.task _ to _ s.0.state a.context a.found accepted in
    let new : (transition w wc_id to expected s).1.0.state ≡ tables =
      ap (λ o. o.1.0.state) a.runs ∙ ap (λ x. x.state) next in
    record {
      task_id = a.task_id;
      task = a.task;
      context = a.context;
      found = a.found;
      current = a.current;
      allowed = step_of_legal a.task.status to a.allowed;
      moved = λ j. rw (new, ← made, lookup-insert, a.current);
      contexts = rw (new, ← made);
      owners = rw (new, ← made);
      keys = rw (new, ← made);
      returned =
          result
          ∙ ap {B = View} (λ x. (lookup a.task_id x.state.tasks, lookup wc_id x.state.wcs)) next
          ∙ rw (← made, lookup-insert_self, a.current);
    }

incr_ne : (x : ℕ) → x < modulus → (incr x == x) ≡ false
incr_ne x h = ground arith

-- No lost update: after a transition that succeeded for an expected version, a 64-bit word, any other
-- one for the same context and the same expected version is refused with a conflict and writes
-- nothing.
pub second_transition_conflicts :
    (w w' : Write) (wc_id : String) (to to' : Status) (expected : ℕ) (s : Store) (v : View)
    → expected < modulus
    → (transition w wc_id to expected s).0 ≡ ok v
    → let s' = (transition w wc_id to expected s).1 in
      transition w' wc_id to' expected s' ≡ (err conflict, s')
unfolding transition
second_transition_conflicts w w' wc_id to to' expected s v range e =
    let m = transition-IsMoved w wc_id to expected s v e in
    let s' = (transition w wc_id to expected s).1 in
    let context : lookup wc_id s'.0.state.task_by_wc ≡ some m.task_id =
      ap (lookup wc_id) m.owners ∙ m.context in
    let found : lookup m.task_id s'.0.state.tasks
        ≡ some (record m.task { status = to; version = incr expected }) =
      m.moved m.task_id ∙ rw ((str_eq_iff m.task_id m.task_id).1 refl) in
    refused w' wc_id to' expected s' m.task_id _ context found (incr_ne expected range)
  where
    refused :
        (w' : Write) (wc_id : String) (to' : Status) (expected : ℕ) (s' : Store) (task_id : String)
        (task : Task)
        → lookup wc_id s'.0.state.task_by_wc ≡ some task_id
        → lookup task_id s'.0.state.tasks ≡ some task
        → (task.version == expected) ≡ false
        → transition w' wc_id to' expected s' ≡ (err conflict, s')
    refused w' wc_id to' expected s' task_id task context found stale =
        rw (context, found, stale, transition)

-- DONE and FAILED are final: for a context whose task is in one of these states, every transition is
-- refused, with a conflict or as illegal, and writes nothing.
pub final_states :
    (w : Write) (wc_id : String) (to : Status) (expected : ℕ) (s : Store) (task_id : String)
    (task : Task)
    → lookup wc_id s.0.state.task_by_wc ≡ some task_id
    → lookup task_id s.0.state.tasks ≡ some task
    → (task.status ≡ done) ⊎ (task.status ≡ failed)
    → (transition w wc_id to expected s ≡ (err conflict, s))
      ⊎ (transition w wc_id to expected s ≡ (err illegal_transition, s))
unfolding transition
final_states w wc_id to expected s task_id task context found final =
    elim (Bool-cases (task.version == expected)) [
      | inr stale ↦ inl (rw (context, found, stale, transition))
      | inl current ↦ inr (rw (context, found, current, no_step task.status to final, transition))
    ]
  where
    no_step :
        (from to : Status) → (from ≡ done) ⊎ (from ≡ failed) → legal_transition from to ≡ false
    no_step from to (inl e) = rw e (unfold legal_transition in ground arith)
    no_step from to (inr e) = rw e (unfold legal_transition in ground arith)
