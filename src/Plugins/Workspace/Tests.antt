-- ===== src/Plugins/Workspace/Tests.antt =====
-- A context with two workspaces, and a git that always succeeds.
use agent_native_os.Prelude.{
  String, true, ◌≡◌, refl, ap, inl, ◌↔◌, none, some, List, [], ◌∷◌, text_comparable, str_eq_iff,
  arith,
}
use mathlib.Core.List.{Memᴰ}
use mathlib.Core.List.Memᴰ
use agent_native_os.Prelude.Map.{lookup, insert, values}
use agent_native_os.Prelude.Text.{str_lt}
use agent_native_os.Prelude.Result.{ok}
use agent_native_os.Kernel.Protocol.{Envelope, command}
use agent_native_os.Kernel.Registry.Fence.{contents}
use agent_native_os.Kernel.Fencing.{FenceEnv, with_write_fence, write_if_current}
use agent_native_os.Kernel.Fencing.Stale.{HoldsLease}
use agent_native_os.Plugins.Reply.{answered, rejection}
use agent_native_os.Plugins.EventLog.{written, append, load, replay_lines, LogFile}
use agent_native_os.Plugins.EventLog.Live.{IsLive, loaded, appended}
use agent_native_os.Plugins.Workspace.Git.{
  Host, ensure_repo, resolve_commit, add_worktree, remove_worktree,
}
use agent_native_os.Plugins.Workspace.Store.{
  WorkspaceRef, Refs, Store, Change, allocated, apply, record_released, record_allocated, get_by_id,
  get_by_context, ref_less,
}
use agent_native_os.Plugins.Workspace.Unordered.{get_by_context-unordered}
use agent_native_os.Plugins.Workspace.Handlers.{
  release_handler, release, allocate_handler, allocate,
}
use agent_native_os.Plugins.Workspace.Release.{Told, released_once}
use agent_native_os.Plugins.Workspace.Later.{unchanged}
use agent_native_os.Plugins.Workspace.Later
use agent_native_os.Plugins.Workspace.Allocation.{allocating, serve, serve_workspace-HoldsLease}

abbrev workspace : String → String → WorkspaceRef
workspace id allocated_at = record {
  id = id;
  work_context_id = "wc";
  repo = "/repo";
  path = "/data";
  branch = "b";
  base_commit = "c0";
  status = "ALLOCATED";
  release_policy = "";
  allocated_at = allocated_at;
  released_at = "";
}

abbrev old : WorkspaceRef
old = workspace "w1" "t1"

abbrev recent : WorkspaceRef
recent = workspace "w2" "t2"

abbrev both : Refs
both = ("w1", old) ∷ ("w2", recent) ∷ []

abbrev turned : Refs
turned = ("w2", recent) ∷ ("w1", old) ∷ []

abbrev blank_file : LogFile Change
blank_file = record { lines = []; unfinished = none }

abbrev stored : Store
stored =
    (append apply written (allocated recent)
      (append apply written (allocated old) (record { state = []; seq = 0 }, blank_file)).1).1

stored_both : stored.0.state ≡ both
unfolding append apply insert
stored_both = refl

stored-IsLive : IsLive apply [] stored
unfolding load replay_lines
stored-IsLive =
    appended written (allocated recent)
      (appended written (allocated old) (loaded blank_file (record { state = []; seq = 0 }) refl))

same_workspaces : (x : WorkspaceRef) → Memᴰ x (values stored.0.state) ↔ Memᴰ x (values turned)
unfolding values append apply insert
same_workspaces x = (swapped, swapped)
  where
    swapped : {a b : WorkspaceRef} → Memᴰ x (a ∷ b ∷ []) → Memᴰ x (b ∷ a ∷ [])
    swapped (Memᴰ.head e) = Memᴰ.tail (Memᴰ.head e)
    swapped (Memᴰ.tail (Memᴰ.head e)) = Memᴰ.head e
    swapped (Memᴰ.tail (Memᴰ.tail m)) = absurd (Memᴰ.not-nil m)

get_by_context-unordered_example : get_by_context "wc" stored.0.state ≡ get_by_context "wc" turned
get_by_context-unordered_example =
    get_by_context-unordered "wc" stored turned stored-IsLive same_workspaces

chosen : get_by_context "wc" both ≡ some recent
unfolding get_by_context ref_less values str_lt
chosen = refl

abbrev git : Host (List String)
git = record { run = λ repo args w. (ok "c0", repo ∷ w); make_parent = λ path w. (true, w) }

abbrev envelope : Envelope
envelope = record {
  protocol = 1;
  message_id = "m1";
  kind = command;
  capability = "workspace.release";
  major = 1;
  contract = "";
  caller = "";
  principal = "";
  actor_chain = [];
  delegation_id = "";
  provider_hint = "";
  service = "workspace";
  authority = "main";
  fencing_epoch = 2;
  reply_to = "";
  reply_runtime = "";
  target_runtime = "";
  trace_id = "";
  correlation_id = "";
  causation_id = "";
  deadline = "";
  idempotency_key = "";
  stream_id = "";
  payload = "";
}

abbrev writer : FenceEnv
writer = record {
  root = "/fence";
  runtime_id = "rt-2";
  io = true;
  read = λ name.
      contents
        (record { service = "workspace"; authority = "main"; runtime_id = "rt-2"; epoch = 2 });
}

abbrev one : Store
one = (record { state = ("w1", old) ∷ []; seq = 1 }, blank_file)

abbrev over : WorkspaceRef
over = record old { status = "RELEASED"; release_policy = "delete"; released_at = "t3" }

releases :
    (release_handler git writer "t3" written envelope
      (some (record { workspace_id = "w1"; policy = "delete" }))
      one
      (one, [])).0
    ≡ answered over
unfolding release_handler release remove_worktree record_released get_by_id with_write_fence
    write_if_current lookup append apply insert
releases = refl

-- Another workspace is allocated between the two releases.
abbrev meanwhile : Store
meanwhile =
    (record_allocated written recent
      (release_handler git writer "t3" written envelope
        (some (record { workspace_id = "w1"; policy = "delete" })) one (one, [])).1.0).1

released_once_example :
    Told "w1" "delete" over meanwhile
    × (release_handler git writer "t4" written envelope
          (some (record { workspace_id = "w1"; policy = "preserve" }))
          meanwhile
          (meanwhile, [])
        ≡ (rejection "CONFLICT", (meanwhile, [])))
released_once_example =
    released_once git writer writer "t3" "t4" written written envelope envelope
      (record { workspace_id = "w1"; policy = "delete" }) "preserve" one meanwhile (one, [])
      (meanwhile, []) over unchanged releases
      (Later.allocating written recent (ground (arith, str_eq_iff "w2" "w1")) unchanged) (inl refl)

allocates :
    (serve git writer "t1" written envelope
      (allocating "w9" "/data/w9"
        (some (record { work_context_id = "wc"; repo = "/repo"; base_ref = "" })))
      (one, [])).0.0.seq
    ≡ 2
unfolding allocate_handler ensure_repo resolve_commit add_worktree allocate record_allocated
    with_write_fence write_if_current append apply insert
allocates = refl

serve_workspace-HoldsLease_example : HoldsLease writer envelope
serve_workspace-HoldsLease_example =
    serve_workspace-HoldsLease git writer "t1" written envelope
      (allocating "w9" "/data/w9"
        (some (record { work_context_id = "wc"; repo = "/repo"; base_ref = "" })))
      (one, []) (λ q. ground (arith, allocates, ap (λ s. s.0.seq) q))
