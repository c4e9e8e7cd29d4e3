-- ===== src/Plugins/Workspace/Release.antt =====
-- A workspace is released once, and a release that reads the store after another was answered is
-- told the same.
use agent_native_os.Prelude.{
  String, true, false, not, ◌&&◌, ◌||◌, ◌≡◌, ◌≢◌, refl, sym, ap, ◌∙◌, subst, ◌⊎◌, inl, inr, Option,
  none, some, ◌==◌, text_comparable, str_eq_iff, eq_of_==, arith, if◌then◌else◌, Bool-cases,
  Option-cases,
}
use agent_native_os.Prelude.Map.{lookup, lookup-insert_self}
use agent_native_os.Prelude.Result.{Result, ok, err}
use agent_native_os.Kernel.Protocol.{Envelope}
use agent_native_os.Kernel.Fencing.{
  FenceEnv, FenceFault, missing_metadata, no_root, lock_failed, unreadable_lease, malformed_lease,
  stale_writer, inner, with_write_fence,
}
use agent_native_os.Kernel.Fencing.Stale.{fence-ok}
use agent_native_os.Plugins.Reply.{answered, rejection}
use agent_native_os.Plugins.EventLog.{
  Write, append, LogError, not_opened, torn, no_newline, not_synced, written,
}
use agent_native_os.Plugins.Workspace.Git.{Host, remove_worktree}
use agent_native_os.Plugins.Workspace.Store.{
  WorkspaceRef, ReleasedData, Store, StoreError, ApplyError, released, as_released, apply,
  after_release, record_released, get_by_id,
}
use agent_native_os.Plugins.Workspace.Handlers.{
  ReleaseRequest, WriteError, git_failed, store_failed, write_error_reply, write_reply, recorded,
  cleared, release, release_found, release_handler,
}
use agent_native_os.Plugins.Workspace.Later.{IsLater, IsLater-keeps}

-- What the store holds of a workspace that is released under a policy.
abbrev pub Told : String → String → WorkspaceRef → Store → Type 0
Told id policy v s =
    (lookup id s.0.state ≡ some v) × (v.status ≡ "RELEASED") × (v.release_policy ≡ policy)

append-released :
    (w : Write) (d : ReleasedData) (s : Store)
    → (append apply w (released d) s).0 ≡ ok tt
    → (ref : WorkspaceRef) × (lookup d.workspace_id (append apply w (released d) s).1.0.state
        ≡ some (as_released d ref))
unfolding append apply
append-released not_opened d s e = cc
append-released torn d s e = cc
append-released no_newline d s e = cc
append-released not_synced d s e = cc
append-released written d s e = elim (Option-cases (lookup d.workspace_id s.0.state)) [
  | inl nothing ↦ absurd (cc (rw (nothing, append, apply) at e))
  | inr (ref, found) ↦ (
    ref,
    rw (found, append, apply) (lookup-insert_self d.workspace_id (as_released d ref) s.0.state),
  )
]

after_release-Told :
    (id policy now : String) (o : Result (LogError ApplyError) (Unit {0}) × Store)
    {v : WorkspaceRef}
    → (o.0 ≡ ok tt
        → (ref : WorkspaceRef) × (lookup id o.1.0.state
            ≡ some (
                as_released
                  (record { workspace_id = id; policy = policy; released_at = now })
                  ref)))
    → (after_release id o).0 ≡ ok v
    → Told id policy v (after_release id o).1
after_release-Told id policy now (err x, s) found e = cc
after_release-Told id policy now (ok tt, s) {v} found e =
    let (ref, there) = found refl in
    let same : as_released (record { workspace_id = id; policy = policy; released_at = now }) ref
        ≡ v =
      cc (rw there at e) in
    (there ∙ ap some same, ap (λ x. x.status) (sym same), ap (λ x. x.release_policy) (sym same))

record_released-Told :
    (w : Write) (now id policy : String) (s : Store) {v : WorkspaceRef}
    → (record_released w now id policy s).0 ≡ ok v
    → Told id policy v (record_released w now id policy s).1
unfolding record_released
record_released-Told w now id policy s e = elim (Option-cases (lookup id s.0.state)) [
  | inl nothing ↦ absurd (cc (rw (nothing, record_released) at e))
  | inr (ref, found) ↦
      rw (found, record_released)
        (after_release-Told id policy now _ (append-released w _ s)
          (rw (found, record_released) at e))
]

module _ {W : Type 0} (host : Host W) where
  recorded-Told :
      (id policy : String) (o : Result StoreError WorkspaceRef × Store) (world : W)
      {v : WorkspaceRef}
      → (o.0 ≡ ok v → Told id policy v o.1)
      → (recorded host o world).0 ≡ ok v
      → Told id policy v (recorded host o world).1.0
  recorded-Told id policy (err x, s) world told e = cc
  recorded-Told id policy (ok u, s) world told e = told cc

  cleared-Told :
      (write : Write) (now : String) (ref : WorkspaceRef) (q : ReleaseRequest) (s : Store)
      (o : Result (Unit {0}) (Unit {0}) × W) {v : WorkspaceRef}
      → (cleared host write now ref q s o).0 ≡ ok v
      → Told q.workspace_id q.policy v (cleared host write now ref q s o).1.0
  cleared-Told write now ref q s (err x, world) e = cc
  cleared-Told write now ref q s (ok tt, world) e =
      recorded-Told q.workspace_id q.policy _ _
        (record_released-Told write now q.workspace_id q.policy s) e

  release-runs :
      (write : Write) (now : String) (ref : WorkspaceRef) (q : ReleaseRequest) (s : Store)
      (world : W)
      → (release host write now ref q (s, world)
          ≡ cleared host write now ref q s (remove_worktree host ref.repo ref.path world))
        ⊎ (release host write now ref q (s, world)
            ≡ recorded host (record_released write now q.workspace_id q.policy s) world)
  unfolding release
  release-runs write now ref q s world = elim (Bool-cases (q.policy == "delete")) [
    | inl gone ↦ inl (rw (gone, release))
    | inr kept ↦ inr (rw (kept, release))
  ]

  release-Told :
      (write : Write) (now : String) (ref : WorkspaceRef) (q : ReleaseRequest) (sw : Store × W)
      {v : WorkspaceRef}
      → (release host write now ref q sw).0 ≡ ok v
      → Told q.workspace_id q.policy v (release host write now ref q sw).1.0
  release-Told write now ref q (s, world) {v} e =
      let Tells : Result WriteError WorkspaceRef × (Store × W) → Type 0 =
        λ o. o.0 ≡ ok v → Told q.workspace_id q.policy v o.1.0 in
      elim (release-runs write now ref q s world) [
        | inl runs ↦ subst Tells (sym runs) (cleared-Told write now ref q s _) e
        | inr runs ↦
            subst Tells (sym runs)
              (recorded-Told q.workspace_id q.policy _ world
                (record_released-Told write now q.workspace_id q.policy s))
              e
      ]

  not_answered : (x : FenceFault WriteError) {v : WorkspaceRef} → write_error_reply x ≢ answered v
  not_answered missing_metadata e = cc
  not_answered no_root e = cc
  not_answered lock_failed e = cc
  not_answered unreadable_lease e = cc
  not_answered malformed_lease e = cc
  not_answered stale_writer e = cc
  not_answered (inner git_failed) e = cc
  not_answered (inner store_failed) e = cc

  write_reply-answered :
      {S : Type 0} (o : Result (FenceFault WriteError) WorkspaceRef × S) {v : WorkspaceRef}
      → (write_reply o).0 ≡ answered v
      → (o.0 ≡ ok v) × ((write_reply o).1 ≡ o.1)
  write_reply-answered (ok u, s) e = (cc, refl)
  write_reply-answered (err x, s) e = absurd (not_answered x e)

  release_found-Told :
      (env : FenceEnv) (now : String) (w : Write) (e : Envelope) (q : ReleaseRequest)
      (sw : Store × W) (found : Option WorkspaceRef) {v : WorkspaceRef}
      → lookup q.workspace_id sw.0.0.state ≡ found
      → (release_found host env now w e q sw found).0 ≡ answered v
      → Told q.workspace_id q.policy v (release_found host env now w e q sw found).1.0
  release_found-Told env now w e q sw none there h = cc
  release_found-Told env now w e q sw (some ref) {v} there h =
      elim (Bool-cases (ref.status == "RELEASED")) [
        | inl over ↦ elim (Bool-cases (ref.release_policy == q.policy)) [
          | inl same ↦
              let one : ref ≡ v = cc (rw (over, same) at h) in
              rw over (
                there ∙ ap some one,
                ap (λ x. x.status) (sym one) ∙ eq_of_== ref.status "RELEASED" over,
                ap (λ x. x.release_policy) (sym one) ∙ eq_of_== ref.release_policy q.policy same,
              )
          | inr other ↦ absurd (cc (rw (over, other) at h))
        ]
        | inr open_still ↦
            let fenced = with_write_fence env e (release host w now ref q) sw in
            let (run, kept) = write_reply-answered fenced (rw open_still at h) in
            let (done, after) = fence-ok env e (release host w now ref q) sw run in
            rw open_still (
              subst (λ o. Told q.workspace_id q.policy v o.0) (sym (kept ∙ after))
                (release-Told w now ref q sw done))
      ]

  handler-Told :
      (env : FenceEnv) (now : String) (w : Write) (e : Envelope) (q : ReleaseRequest) (seen : Store)
      (sw : Store × W) {v : WorkspaceRef}
      → IsLater q.workspace_id seen sw.0
      → (release_handler host env now w e (some q) seen sw).0 ≡ answered v
      → Told q.workspace_id q.policy v (release_handler host env now w e (some q) seen sw).1.0
        × (q.workspace_id ≢ "")
  unfolding release_handler get_by_id
  handler-Told env now w e q seen sw later h =
      elim (Bool-cases
        (q.workspace_id == "" || (not (q.policy == "preserve") && not (q.policy == "delete")))) [
          | inl bad ↦ absurd (cc (rw (bad, release_handler) at h))
          | inr fine ↦
              rw (fine, release_handler)
                (
                  release_found-Told env now w e q sw (lookup q.workspace_id seen.0.state)
                      (IsLater-keeps q.workspace_id seen later) (rw (fine, release_handler) at h),
                  ground (arith, fine, str_eq_iff q.workspace_id ""),
                )
        ]

  again :
      (env : FenceEnv) (now : String) (w : Write) (e : Envelope) (q : ReleaseRequest) (seen : Store)
      (sw : Store × W) (policy : String) (v : WorkspaceRef)
      → Told q.workspace_id policy v seen
      → q.workspace_id ≢ ""
      → (q.policy ≡ "preserve") ⊎ (q.policy ≡ "delete")
      → release_handler host env now w e (some q) seen sw
        ≡ (if policy == q.policy then answered v else rejection "CONFLICT", sw)
  unfolding release_handler get_by_id
  again env now w e q seen sw policy v (found, over, under) named valid =
      let fine : (q.workspace_id == ""
            || (not (q.policy == "preserve") && not (q.policy == "delete")))
          ≡ false =
        ground (
          arith,
          named,
          valid,
          str_eq_iff q.workspace_id "",
          str_eq_iff q.policy "preserve",
          str_eq_iff q.policy "delete",
        ) in
      let closed : (v.status == "RELEASED") ≡ true = (str_eq_iff v.status "RELEASED").1 over in
      rw (fine, found, closed, under, release_handler)

  -- If no release of a workspace is written between the read and the write of one that is answered, the
  -- store then holds the workspace as released under the policy that was asked for; and while no
  -- release of it that had read before is written, whatever else happens to the store, it holds
  -- it so, and every release of it with a valid policy that reads the store then changes nothing
  -- when it comes to write: it is answered with the same workspace if the policy is the same, and
  -- is a conflict otherwise.
  pub released_once :
      (env env' : FenceEnv) (now now' : String) (w w' : Write) (e e' : Envelope)
      (q : ReleaseRequest) (policy : String) (seen seen' : Store) (sw sw' : Store × W)
      (v : WorkspaceRef)
      → IsLater q.workspace_id seen sw.0
      → (release_handler host env now w e (some q) seen sw).0 ≡ answered v
      → IsLater q.workspace_id (release_handler host env now w e (some q) seen sw).1.0 seen'
      → (policy ≡ "preserve") ⊎ (policy ≡ "delete")
      → Told q.workspace_id q.policy v seen'
        × (release_handler host env' now' w' e' (some (record q { policy = policy })) seen' sw'
            ≡ (if q.policy == policy then answered v else rejection "CONFLICT", sw'))
  released_once env env' now now' w w' e e' q policy seen seen' sw sw' v between h later valid =
      let ((found, over, under), named) = handler-Told env now w e q seen sw between h in
      let told : Told q.workspace_id q.policy v seen' =
        (IsLater-keeps q.workspace_id _ later ∙ found, over, under) in
      (
        told,
        again env' now' w' e' (record q { policy = policy }) seen' sw' q.policy v told named valid,
      )
