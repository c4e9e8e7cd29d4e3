-- ===== src/Plugins/WorkRegistry/Tests.antt =====
-- The work registry's theorems at a store that holds one task.
use agent_native_os.Prelude.{
  true, false, ◌≡◌, refl, ap, text_comparable, str_eq_iff, inl, ◌↔◌, ◌⊎◌, none, some, [], ◌∷◌,
  arith,
}
use agent_native_os.Prelude.Map.{lookup, insert}
use agent_native_os.Prelude.Result.{ok, err}
use agent_native_os.Kernel.Protocol.{Envelope, command}
use agent_native_os.Kernel.Registry.Fence.{contents}
use agent_native_os.Kernel.Fencing.{FenceEnv, with_write_fence, write_if_current}
use agent_native_os.Kernel.Fencing.Stale.{HoldsLease}
use agent_native_os.Plugins.WorkRegistry.Handlers.{create_handler}
use agent_native_os.Plugins.WorkRegistry.Writers.{Command, creating, serve, serve-HoldsLease}
use agent_native_os.Plugins.EventLog.{
  written, torn, not_synced, append, load, replay_lines, io_error, corrupt_line,
}
use agent_native_os.Plugins.EventLog.Recovery.{
  append-IsDurable, append_failure, torn_append_unloadable,
}
use agent_native_os.Plugins.WorkRegistry.Store.{
  CreateInput, Change, created, Tables, Store, apply, no_tables, new_task, new_context, find_idem,
  log_then, create_task, transition, legal_transition, planned, in_progress, done, failed, Task,
  View, view, conflict, illegal_transition,
}
use agent_native_os.Plugins.WorkRegistry.Transitions.{
  legal_transition_iff, transition-IsMoved, IsMoved, second_transition_conflicts, final_states,
  Step,
}
use agent_native_os.Plugins.WorkRegistry.Later
use agent_native_os.Plugins.WorkRegistry.Later.{unchanged, moving}
use agent_native_os.Plugins.WorkRegistry.Creation.{create_task_idempotent}

abbrev request : CreateInput
request = record {
  title = "parser";
  goal = "read the input";
  scope = "";
  repo = "os";
  acceptance = [];
  idempotency_key = "k1";
}

abbrev empty : Store
empty = (record { state = no_tables; seq = 0 }, record { lines = []; unfinished = none })

abbrev with_task : Task → Tables
with_task task = record {
  tasks = (task.id, task) ∷ [];
  wcs = ("wc", new_context "t" "wc" request) ∷ [];
  task_by_wc = ("wc", "t") ∷ [];
  idem = ("k1", "t") ∷ [];
}

abbrev one_task : Tables
one_task = with_task (new_task "t" "wc" request)

abbrev creation : Change
creation = created (new_task "t" "wc" request) (new_context "t" "wc" request) "k1"

abbrev stored_task : Store
stored_task = (record { state = one_task; seq = 1 }, record { lines = []; unfinished = none })

abbrev first_view : View
first_view = (some (new_task "t" "wc" request), some (new_context "t" "wc" request))

creates : (create_task "t" "wc" written request empty).0 ≡ ok (first_view, false)
unfolding create_task find_idem lookup log_then append apply insert
creates = refl

abbrev started : Task
started = record (new_task "t" "wc" request) { status = in_progress; version = 2 }

starts :
    (transition written "wc" in_progress 1 stored_task).0
    ≡ ok (some started, some (new_context "t" "wc" request))
unfolding transition lookup legal_transition log_then append apply insert
starts = refl

applies : apply creation no_tables ≡ ok one_task
unfolding apply insert
applies = refl

loads : load apply no_tables empty.1 ≡ ok empty.0
unfolding load replay_lines
loads = refl

legal_transition_iff_example : (legal_transition planned failed ≡ true) ↔ Step planned failed
legal_transition_iff_example = legal_transition_iff planned failed

transition-IsMoved_example :
    IsMoved "wc" in_progress 1 one_task
      (transition written "wc" in_progress 1 stored_task).1.0.state
      (some started, some (new_context "t" "wc" request))
transition-IsMoved_example = transition-IsMoved written "wc" in_progress 1 stored_task _ starts

second_transition_conflicts_example :
    let s' = (transition written "wc" in_progress 1 stored_task).1 in
    transition written "wc" failed 1 s' ≡ (err conflict, s')
second_transition_conflicts_example =
    second_transition_conflicts written written "wc" in_progress failed 1 stored_task _
      (ground arith) starts

abbrev finished : Store
finished = (
  record { state = with_task (record started { status = done; version = 4 }); seq = 4 },
  record { lines = []; unfinished = none },
)

task_of_context : lookup "wc" finished.0.state.task_by_wc ≡ some "t"
unfolding lookup
task_of_context = refl

task_is_done :
    lookup "t" finished.0.state.tasks ≡ some (record started { status = done; version = 4 })
unfolding lookup
task_is_done = refl

final_states_example :
    (transition written "wc" failed 4 finished ≡ (err conflict, finished))
    ⊎ (transition written "wc" failed 4 finished ≡ (err illegal_transition, finished))
final_states_example =
    final_states written "wc" failed 4 finished "t" _ task_of_context task_is_done (inl refl)

new_key : lookup "k1" empty.0.state.idem ≡ none
unfolding lookup
new_key = refl

-- Another task is created with no key, and the first one is started, between the two requests.
abbrev meanwhile : Store
meanwhile =
    (transition written "wc" in_progress 1
      (create_task "t2" "wc2" written (record request { idempotency_key = "" })
        (create_task "t" "wc" written request empty).1).1).1

create_task_idempotent_example :
    (first_view ≡ (some (new_task "t" "wc" request), some (new_context "t" "wc" request)))
    × ((t : Task) × (lookup "t" meanwhile.0.state.tasks ≡ some t) × (t.work_context_id ≡ "wc"))
    × (create_task "u" "wd" torn (record request { title = "other" }) meanwhile
        ≡ (ok (view "t" "wc" meanwhile, true), meanwhile))
create_task_idempotent_example =
    create_task_idempotent "t" "wc" "u" "wd" written torn request
      (record request { title = "other" }) empty meanwhile first_view
      (ground (arith, str_eq_iff "k1" "")) new_key refl creates
      (moving written "wc" in_progress 1 (
        Later.creating "t2" "wc2" written (record request { idempotency_key = "" })
          (ground (arith, str_eq_iff "t2" "t")) unchanged))

append-IsDurable_example :
    let (result, (s', file')) = append apply written creation empty in
    (result ≡ ok tt)
    × (s' ≡ record { state = one_task; seq = 1 })
    × (file'.unfinished ≡ none)
    × (load apply no_tables file' ≡ ok s')
append-IsDurable_example =
    append-IsDurable apply no_tables creation empty.0 empty.1 one_task refl applies (ground arith)
      loads

append_failure_example :
    let (result, (s', file')) = append apply not_synced creation empty in
    (result ≡ err io_error)
    × (s' ≡ empty.0)
    × ((load apply no_tables file' ≡ ok empty.0)
        ⊎ (load apply no_tables file' ≡ ok (record { state = one_task; seq = 1 })))
append_failure_example =
    append_failure apply no_tables not_synced creation empty.0 empty.1 one_task (λ q. cc) refl
      applies (ground arith) loads

torn_append_unloadable_example :
    let (broken, torn_world) = append apply torn creation empty in
    let (result, (s', file')) = append apply written creation torn_world in
    (broken ≡ err io_error) × (result ≡ ok tt) × (load apply no_tables file' ≡ err corrupt_line)
torn_append_unloadable_example =
    torn_append_unloadable apply no_tables creation creation empty.0 empty.1 one_task refl applies
      loads

abbrev envelope : Envelope
envelope = record {
  protocol = 1;
  message_id = "m1";
  kind = command;
  capability = "work.create";
  major = 1;
  contract = "work.create@1";
  caller = "";
  principal = "";
  actor_chain = [];
  delegation_id = "";
  provider_hint = "";
  service = "work";
  authority = "main";
  fencing_epoch = 2;
  reply_to = "";
  reply_runtime = "";
  target_runtime = "";
  trace_id = "";
  correlation_id = "";
  causation_id = "";
  deadline = "";
  idempotency_key = "k1";
  stream_id = "";
  payload = "";
}

abbrev writer : FenceEnv
writer = record {
  root = "/fence";
  runtime_id = "rt-2";
  io = true;
  read = λ name.
      contents (record { service = "work"; authority = "main"; runtime_id = "rt-2"; epoch = 2 });
}

abbrev call : Command
call = creating "t" "wc" (
    some (record {
      title = "parser";
      goal = "read the input";
      scope = "";
      repo = "os";
      acceptance_criteria = [];
    }))

call_writes : (serve writer written envelope call empty).0.seq ≡ 1
unfolding create_handler with_write_fence write_if_current create_task find_idem lookup log_then
    append apply insert
call_writes = refl

serve-HoldsLease_example : HoldsLease writer envelope
serve-HoldsLease_example =
    serve-HoldsLease writer written envelope call empty
      (λ q. ground (arith, call_writes, ap (λ s. s.0.seq) q))
