-- ===== src/Plugins/WorkRegistry/Creation.antt =====
-- CreateTask answers a repeated request with the task of the first.
use agent_native_os.Prelude.{
  String, true, false, ◌≡◌, ◌≢◌, refl, sym, ap, ◌∙◌, none, some, ◌==◌, text_comparable, str_eq_iff,
  if◌then◌else◌, arith,
}
use agent_native_os.Prelude.Map.{lookup, insert, lookup-insert_self}
use agent_native_os.Prelude.Result.{ok}
use agent_native_os.Plugins.EventLog.{Write}
use agent_native_os.Plugins.WorkRegistry.Store.{
  CreateInput, created, Tables, Store, View, view, apply, new_task, new_context, find_idem,
  log_then, create_task, Task, WorkContext,
}
use agent_native_os.Plugins.WorkRegistry.Transitions.{log_then-ok}
use agent_native_os.Plugins.WorkRegistry.Later.{IsLater, IsHeld, IsLater-IsHeld}

-- The maps after a task is created.
abbrev stored : Task → WorkContext → String → Tables → Tables
stored task wc key s = record s {
  tasks = insert task.id task s.tasks;
  wcs = insert wc.id wc s.wcs;
  task_by_wc = insert wc.id task.id s.task_by_wc;
  idem = if key == "" then s.idem else insert key task.id s.idem;
}

find_idem-none : (key : String) (s : Tables) → lookup key s.idem ≡ none → find_idem key s ≡ none
unfolding find_idem
find_idem-none key s e = ground arith

find_idem-some :
    (key : String) (s : Tables) {id : String}
    → key ≢ ""
    → lookup key s.idem ≡ some id
    → find_idem key s ≡ some id
unfolding find_idem
find_idem-some key s keyed e = ground (arith, str_eq_iff key "", e)

first_request :
    (task_id wc_id : String) (w : Write) (input : CreateInput) (s : Store)
    → find_idem input.idempotency_key s.0.state ≡ none
    → create_task task_id wc_id w input s
      ≡ log_then w
          (created
            (new_task task_id wc_id input)
            (new_context task_id wc_id input)
            input.idempotency_key)
          (λ s'. (view task_id wc_id s', false))
          s
unfolding create_task
first_request task_id wc_id w input s e = rw (e, create_task)

repeated_request :
    (task_id wc_id : String) (w : Write) (input : CreateInput) (s : Store) (old_id : String)
    (task : Task)
    → find_idem input.idempotency_key s.0.state ≡ some old_id
    → lookup old_id s.0.state.tasks ≡ some task
    → create_task task_id wc_id w input s ≡ (ok (view old_id task.work_context_id s, true), s)
unfolding create_task
repeated_request task_id wc_id w input s old_id task e found = ground (arith, e, found)

apply-created :
    (task : Task) (wc : WorkContext) (key : String) (s tables : Tables)
    → apply (created task wc key) s ≡ ok tables
    → stored task wc key s ≡ tables
unfolding apply
apply-created task wc key s tables e = cc

view-stored :
    (task : Task) (wc : WorkContext) (key : String) (t : Tables) (s' : Store)
    → s'.0.state ≡ stored task wc key t
    → view task.id wc.id s' ≡ (some task, some wc)
view-stored task wc key t s' e =
    rw e (rw (lookup-insert_self task.id task t.tasks, lookup-insert_self wc.id wc t.wcs) refl)

IsHeld-stored :
    (task : Task) (wc : WorkContext) (key : String) (t : Tables) (s' : Store)
    → key ≢ ""
    → s'.0.state ≡ stored task wc key t
    → IsHeld key task.id task.work_context_id s'.0.state
IsHeld-stored task wc key t s' keyed e =
    let given : (key == "") ≡ false = ground (arith, keyed, str_eq_iff key "") in
    record {
      task = task;
      named = ap (λ m. lookup key m.idem) e ∙ rw given (lookup-insert_self key task.id t.idem);
      found = ap (λ m. lookup task.id m.tasks) e ∙ lookup-insert_self task.id task t.tasks;
      owner = refl;
    }

repeated-held :
    (key task_id wc_id new_id new_wc : String) (w : Write) (input : CreateInput) (s : Store)
    → key ≢ ""
    → input.idempotency_key ≡ key
    → IsHeld key task_id wc_id s.0.state
    → create_task new_id new_wc w input s ≡ (ok (view task_id wc_id s, true), s)
repeated-held key task_id wc_id new_id new_wc w input s keyed same h =
    let seen : find_idem input.idempotency_key s.0.state ≡ some task_id =
      ap (λ k. find_idem k s.0.state) same ∙ find_idem-some key s.0.state keyed h.named in
    repeated_request new_id new_wc w input s task_id h.task seen h.found
    ∙ ap (λ c. (ok (view task_id c s, true), s)) h.owner

-- A request with a new, non-empty idempotency key that succeeds stores its task and its context. In
-- every store that creations with other task names, transitions and attached evidence make of that
-- store, whether they succeed or not, the task is still there and belongs to this context; and a
-- request with the key, whatever else it asks and whatever names it is given, returns this task
-- and this context as they are then, says that it is a repetition, and changes nothing.
pub create_task_idempotent :
    (task_id wc_id new_id new_wc : String) (w w' : Write) (input input' : CreateInput)
    (s later : Store) (v : View)
    → input.idempotency_key ≢ ""
    → lookup input.idempotency_key s.0.state.idem ≡ none
    → input'.idempotency_key ≡ input.idempotency_key
    → (create_task task_id wc_id w input s).0 ≡ ok (v, false)
    → IsLater task_id (create_task task_id wc_id w input s).1 later
    → (v ≡ (some (new_task task_id wc_id input), some (new_context task_id wc_id input)))
      × ((t : Task) × (lookup task_id later.0.state.tasks ≡ some t) × (t.work_context_id ≡ wc_id))
      × (create_task new_id new_wc w' input' later ≡ (ok (view task_id wc_id later, true), later))
create_task_idempotent task_id wc_id new_id new_wc w w' input input' s later v keyed new_key same e
      after =
    let runs = first_request task_id wc_id w input s (find_idem-none _ s.0.state new_key) in
    let (tables, accepted, next, result) = log_then-ok w _ _ s (rw runs at e) in
    let made = apply-created _ _ input.idempotency_key s.0.state tables accepted in
    let task = new_task task_id wc_id input in
    let wc = new_context task_id wc_id input in
    let s' = (create_task task_id wc_id w input s).1 in
    let state : s'.0.state ≡ stored task wc input.idempotency_key s.0.state =
      ap (λ o. o.1.0.state) runs ∙ ap (λ x. x.state) next ∙ sym made in
    let shown = view-stored task wc input.idempotency_key s.0.state s' state in
    let given : v ≡ (some task, some wc) =
      ap (λ p. p.0) result ∙ ap (λ o. view task_id wc_id o.1) (sym runs) ∙ shown in
    let held =
      IsLater-IsHeld input.idempotency_key task_id wc_id keyed s' after
        (IsHeld-stored task wc input.idempotency_key s.0.state s' keyed state) in
    (
      given,
      (held.task, held.found, held.owner),
      repeated-held input.idempotency_key task_id wc_id new_id new_wc w' input' later keyed same
          held,
    )
