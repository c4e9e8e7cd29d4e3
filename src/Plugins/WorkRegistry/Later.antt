-- ===== src/Plugins/WorkRegistry/Later.antt =====
-- What becomes of the task of one idempotency key in plugins/work-registry/store.go.
use agent_native_os.Prelude.{
  ℕ, [], ◌∷◌, ◌++◌, subst, inl, inr, eq_of_==, Bool-cases, Option-cases, String, false, ◌≡◌, ◌≢◌,
  refl, sym, ap, ◌∙◌, none, some, ◌==◌, text_comparable, nat_comparable, str_eq_iff, if◌then◌else◌,
  arith,
}
use agent_native_os.Prelude.Map.{Map, lookup, insert, lookup-insert}
use agent_native_os.Prelude.Result.{Result, ok, err, Result-cases}
use agent_native_os.Prelude.Int64.{incr}
use agent_native_os.Plugins.WorkRegistry.Store.{
  CreateInput, created, Tables, Store, apply, new_task, new_context, find_idem, log_then,
  create_task, Task, WorkContext,
}
use agent_native_os.Plugins.WorkRegistry.Store.{
  Change, transitioned, evidence_attached, transition, attach_evidence, Status, EvidenceRef, answer,
  ApplyError, legal_transition,
}
use agent_native_os.Plugins.EventLog.{
  Write, append, not_opened, torn, no_newline, not_synced, written, LogError,
}

-- The stores that a store becomes by creations that are given names of their own, whatever their keys,
-- by transitions and by evidence, whether they succeed or not.
pub data IsLater (task_id : String) (s : Store) : Store → Type 0 where
  unchanged : IsLater task_id s s
  creating :
      (new_id wc_id : String) (w : Write) (input : CreateInput) {o : Store}
      → new_id ≢ task_id
      → IsLater task_id s o
      → IsLater task_id s (create_task new_id wc_id w input o).1
  moving :
      (w : Write) (wc_id : String) (to : Status) (version : ℕ) {o : Store}
      → IsLater task_id s o
      → IsLater task_id s (transition w wc_id to version o).1
  attaching :
      (ev_id now : String) (w : Write) (wc_id : String) (ev : EvidenceRef) (version : ℕ) {o : Store}
      → IsLater task_id s o
      → IsLater task_id s (attach_evidence ev_id now w wc_id ev version o).1

-- The key stands for the task, and the task belongs to the context.
pub record IsHeld (key task_id wc_id : String) (m : Tables) : Type 0 where
  pub task : Task
  pub named : lookup key m.idem ≡ some task_id
  pub found : lookup task_id m.tasks ≡ some task
  pub owner : task.work_context_id ≡ wc_id

insert_elsewhere :
    {A : Type 0} (k id : String) (x : A) (m : Map String A)
    → k ≢ id
    → lookup id (insert k x m) ≡ lookup id m
insert_elsewhere k id x m other =
    let apart : (k == id) ≡ false = ground (arith, other, str_eq_iff k id) in
    lookup-insert k id x m ∙ rw apart

append_keeps :
    (P : Tables → Type 0) (w : Write) (d : Change) (s : Store)
    → ((m' : Tables) → apply d s.0.state ≡ ok m' → P m')
    → P s.0.state
    → P (append apply w d s).1.0.state
unfolding append
append_keeps P not_opened d s step p = p
append_keeps P torn d s step p = p
append_keeps P no_newline d s step p = p
append_keeps P not_synced d s step p = p
append_keeps P written d s step p = elim (Result-cases (apply d s.0.state)) [
  | inl (state, accepted) ↦ rw (accepted, append) (step state accepted)
  | inr (x, refused) ↦ rw (refused, append) p
]

answer-store :
    {A : Type 0} (f : Store → A) (o : Result (LogError ApplyError) (Unit {0}) × Store)
    → (answer f o).1 ≡ o.1
answer-store f (err e, s) = refl
answer-store f (ok tt, s) = refl

log_then_keeps :
    {A : Type 0} (P : Tables → Type 0) (w : Write) (d : Change) (f : Store → A) (s : Store)
    → ((m' : Tables) → apply d s.0.state ≡ ok m' → P m')
    → P s.0.state
    → P (log_then w d f s).1.0.state
unfolding log_then
log_then_keeps P w d f s step p =
    subst (λ o. P o.0.state) (sym (answer-store f _)) (append_keeps P w d s step p)

module _ (key task_id wc_id : String) (named_key : key ≢ "") where
  created-IsHeld :
      (task : Task) (wc : WorkContext) (other : String) (m m' : Tables)
      → task.id ≢ task_id
      → find_idem other m ≡ none
      → apply (created task wc other) m ≡ ok m'
      → IsHeld key task_id wc_id m
      → IsHeld key task_id wc_id m'
  unfolding apply find_idem
  created-IsHeld task wc other m m' apart fresh e h =
      let next : record m {
        tasks = insert task.id task m.tasks;
        wcs = insert wc.id wc m.wcs;
        task_by_wc = insert wc.id task.id m.task_by_wc;
        idem = if other == "" then m.idem else insert other task.id m.idem;
      }
          ≡ m' =
        cc in
      subst (IsHeld key task_id wc_id) next (record {
        task = h.task;
        named = elim (Bool-cases (other == "")) [
          | inl blank ↦ rw blank h.named
          | inr given ↦
              let differs : other ≢ key = λ same. absurd (cc (rw given at fresh, h.named, same)) in
              rw given (insert_elsewhere other key task.id m.idem differs ∙ h.named)
        ];
        found = insert_elsewhere task.id task_id task m.tasks apart ∙ h.found;
        owner = h.owner;
      })

  moved-IsHeld :
      (wc : String) (from to : Status) (version : ℕ) (m m' : Tables)
      → apply (transitioned wc from to version) m ≡ ok m'
      → IsHeld key task_id wc_id m
      → IsHeld key task_id wc_id m'
  unfolding apply
  moved-IsHeld wc from to version m m' e h = elim (Option-cases (lookup wc m.task_by_wc)) [
    | inl nothing ↦ absurd (cc (rw (nothing, apply) at e))
    | inr (id, there) ↦ elim (Option-cases (lookup id m.tasks)) [
      | inl missing ↦ absurd (cc (rw (there, missing, apply) at e))
      | inr (t, found) ↦
          let t' = record t { status = to; version = version } in
          let next : record m { tasks = insert id t' m.tasks } ≡ m' =
            cc (rw (there, found, apply) at e) in
          subst (IsHeld key task_id wc_id) next (elim (Bool-cases (id == task_id)) [
            | inl same ↦
                let one : t ≡ h.task = cc (found, h.found, eq_of_== id task_id same) in
                record {
                  task = t';
                  named = h.named;
                  found = lookup-insert id task_id t' m.tasks ∙ rw same;
                  owner = ap (λ x. x.work_context_id) one ∙ h.owner;
                }
            | inr other ↦ record {
              task = h.task;
              named = h.named;
              found = rw (lookup-insert id task_id t' m.tasks, other) h.found;
              owner = h.owner;
            }
          ])
    ]
  ]

  attached-IsHeld :
      (wc : String) (ev : EvidenceRef) (m m' : Tables)
      → apply (evidence_attached wc ev) m ≡ ok m'
      → IsHeld key task_id wc_id m
      → IsHeld key task_id wc_id m'
  unfolding apply
  attached-IsHeld wc ev m m' e h = elim (Option-cases (lookup wc m.wcs)) [
    | inl nothing ↦ absurd (cc (rw (nothing, apply) at e))
    | inr (c, there) ↦
        let next : record m {
          wcs =
              insert wc
                (record c { evidence_refs = c.evidence_refs ++ ev ∷ []; version = incr c.version })
                m.wcs;
        }
            ≡ m' =
          cc (rw (there, apply) at e) in
        subst (IsHeld key task_id wc_id) next
          (record { task = h.task; named = h.named; found = h.found; owner = h.owner })
  ]

  create_task-IsHeld :
      (new_id new_wc : String) (w : Write) (input : CreateInput) (s : Store)
      → new_id ≢ task_id
      → IsHeld key task_id wc_id s.0.state
      → IsHeld key task_id wc_id (create_task new_id new_wc w input s).1.0.state
  unfolding create_task
  create_task-IsHeld new_id new_wc w input s apart h =
      elim (Option-cases (find_idem input.idempotency_key s.0.state)) [
        | inl fresh ↦
            rw (fresh, create_task)
              (log_then_keeps _ w _ _ s
                (λ m' e.
                  created-IsHeld (new_task new_id new_wc input) (new_context new_id new_wc input)
                    input.idempotency_key s.0.state m' apart fresh e h)
                h)
        | inr (old_id, seen) ↦ elim (Option-cases (lookup old_id s.0.state.tasks)) [
          | inl missing ↦ rw (seen, missing, create_task) h
          | inr (t, found) ↦ rw (seen, found, create_task) h
        ]
      ]

  transition-IsHeld :
      (w : Write) (wc : String) (to : Status) (version : ℕ) (s : Store)
      → IsHeld key task_id wc_id s.0.state
      → IsHeld key task_id wc_id (transition w wc to version s).1.0.state
  unfolding transition
  transition-IsHeld w wc to version s h = elim (Option-cases (lookup wc s.0.state.task_by_wc)) [
    | inl nothing ↦ rw (nothing, transition) h
    | inr (id, there) ↦ elim (Option-cases (lookup id s.0.state.tasks)) [
      | inl missing ↦ rw (there, missing, transition) h
      | inr (t, found) ↦ elim (Bool-cases (t.version == version)) [
        | inr stale ↦ rw (there, found, stale, transition) h
        | inl current ↦ elim (Bool-cases (legal_transition t.status to)) [
          | inr illegal ↦ rw (there, found, current, illegal, transition) h
          | inl legal ↦
              rw (there, found, current, legal, transition)
                (log_then_keeps _ w _ _ s
                  (λ m' e. moved-IsHeld wc t.status to (incr t.version) s.0.state m' e h) h)
        ]
      ]
    ]
  ]

  attach_evidence-IsHeld :
      (ev_id now : String) (w : Write) (wc : String) (ev : EvidenceRef) (version : ℕ) (s : Store)
      → IsHeld key task_id wc_id s.0.state
      → IsHeld key task_id wc_id (attach_evidence ev_id now w wc ev version s).1.0.state
  unfolding attach_evidence
  attach_evidence-IsHeld ev_id now w wc ev version s h =
      elim (Option-cases (lookup wc s.0.state.wcs)) [
        | inl nothing ↦ rw (nothing, attach_evidence) h
        | inr (c, there) ↦ elim (Bool-cases (c.version == version)) [
          | inr stale ↦ rw (there, stale, attach_evidence) h
          | inl current ↦
              rw (there, current, attach_evidence)
                (log_then_keeps _ w _ _ s (λ m' e. attached-IsHeld wc _ s.0.state m' e h) h)
        ]
      ]

  pub IsLater-IsHeld :
      (s : Store) {o : Store}
      → IsLater task_id s o
      → IsHeld key task_id wc_id s.0.state
      → IsHeld key task_id wc_id o.0.state
  IsLater-IsHeld s unchanged h = h
  IsLater-IsHeld s (creating new_id new_wc w input {o = o} apart later) h =
      create_task-IsHeld new_id new_wc w input o apart (IsLater-IsHeld s later h)
  IsLater-IsHeld s (moving w wc to version {o = o} later) h =
      transition-IsHeld w wc to version o (IsLater-IsHeld s later h)
  IsLater-IsHeld s (attaching ev_id now w wc ev version {o = o} later) h =
      attach_evidence-IsHeld ev_id now w wc ev version o (IsLater-IsHeld s later h)
