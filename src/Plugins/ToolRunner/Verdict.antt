-- ===== src/Plugins/ToolRunner/Verdict.antt =====
-- What the outcome of a run says, and that the run is kept.
use agent_native_os.Prelude.Int64.{sle}
use agent_native_os.Prelude.{
  ℕ, zero, suc, String, Option, none, List, [], ◌∷◌, false, ◌≡◌, ◌↔◌, refl, sym, ap, ◌∙◌, subst,
  some, text_comparable, nat_comparable, str_eq_iff, arith, inl, inr, Bool-cases,
}
use agent_native_os.Prelude.Map.{lookup-insert_self}
use agent_native_os.Prelude.Result.{Result, ok, err}
use agent_native_os.Prelude.Effect.{step_runs}
use agent_native_os.Kernel.Protocol.{Envelope}
use agent_native_os.Kernel.Fencing.{FenceEnv, FenceFault, with_write_fence}
use agent_native_os.Kernel.Fencing.Stale.{fence-ok}
use agent_native_os.Plugins.Reply.{answered}
use agent_native_os.Plugins.EventLog.{
  Write, append, LogError, not_opened, torn, no_newline, not_synced, written,
}
use agent_native_os.Plugins.Archive.{ApplyError, record_one, get_by_id}
use agent_native_os.Plugins.Archive
use agent_native_os.Plugins.ToolRunner.Runner.{
  CmdResult, Command, Ran, effective_timeout, result_of, judged, command_of, run_command,
  failed_to_run, exit_or_minus_one,
}
use agent_native_os.Plugins.ToolRunner.Store.{ToolRun, Store, record_run, get_run}
use agent_native_os.Plugins.ToolRunner.Handlers.{
  ToolRunRequest, ToolDeps, Stamp, outcome_of, tool_run, outside, keep_run, recorded, run_tool,
  run_reply, tool_run_handler, is_bad_request, or_empty,
}

module _ {W : Type 0} (deps : ToolDeps W) where
  -- The process that the system ran in a world, and what the record and the store say of it.
  pub record IsVerdict (q : ToolRunRequest) (tr : ToolRun) (world : W) (s : Store) : Type 0 where
    pub cmd : Command
    pub ran : Ran
    pub executed : (deps.system.exec cmd world).0 ≡ ran
    pub words : cmd.argv ≡ q.command
    pub in_dir : cmd.dir ≡ q.workspace_path
    pub limit : cmd.timeout_ms ≡ tr.timeout_ms
    pub exited : (code : ℕ) → ran.exit_code ≡ some code → tr.exit_code ≡ code
    pub passed : (tr.outcome ≡ "PASS") ↔ ((ran.exit_code ≡ some 0) × (ran.timed_out ≡ false))
    pub kept : get_run tr.id s.0.state ≡ some tr

  record_run-kept :
      (w : Write) (tr : ToolRun) (s : Store)
      → (record_run w tr s).0 ≡ ok tt
      → get_run tr.id (record_run w tr s).1.0.state ≡ some tr
  unfolding record_one append Archive.apply get_by_id
  record_run-kept not_opened tr s e = cc
  record_run-kept torn tr s e = cc
  record_run-kept no_newline tr s e = cc
  record_run-kept not_synced tr s e = cc
  record_run-kept written tr s e = lookup-insert_self tr.id tr s.0.state.by_id

  keep_run-kept :
      (write : Write) (tr tr' : ToolRun) (sw : Store × W)
      → (keep_run deps write tr sw).0 ≡ ok tr'
      → (tr ≡ tr') × (get_run tr.id (keep_run deps write tr sw).1.0.0.state ≡ some tr)
  keep_run-kept write tr tr' (s, w) e = of_append (record_run write tr s) refl e
    where
      of_append :
          (o : Result (LogError ApplyError) (Unit {0}) × Store)
          → record_run write tr s ≡ o
          → (recorded deps tr o w).0 ≡ ok tr'
          → (tr ≡ tr') × (get_run tr.id (recorded deps tr o w).1.0.0.state ≡ some tr)
      of_append (ok tt, s') made e = (
        cc,
        subst (λ o. get_run tr.id o.1.0.state ≡ some tr) made
            (record_run-kept write tr s (ap (λ o. o.0) made)),
      )
      of_append (err x, s') made e = cc

  outcome_of-passed :
      (r : Ran)
      → (outcome_of deps (result_of r) ≡ "PASS") ↔ ((r.exit_code ≡ some 0) × (r.timed_out ≡ false))
  outcome_of-passed r = of_exit r.exit_code refl
    where
      of_exit :
          (o : Option ℕ)
          → r.exit_code ≡ o
          → (outcome_of deps (result_of r) ≡ "PASS") ↔ ((o ≡ some 0) × (r.timed_out ≡ false))
      of_exit none e = rw e (λ h. absurd (ground (arith, h, str_eq_iff "FAIL" "PASS")), λ h. cc)
      of_exit (some zero) e = rw e (ground (arith, str_eq_iff "FAIL" "PASS"))
      of_exit (some (suc n)) e =
          rw e (λ h. absurd (ground (arith, h, str_eq_iff "FAIL" "PASS")), λ h. cc)

  effective_twice : (t : ℕ) → effective_timeout (effective_timeout t) ≡ effective_timeout t
  effective_twice t = elim (Bool-cases (sle t 0)) [
    | inl low ↦ rw low refl
    | inr high ↦ rw (high, high) refl
  ]

  judged-ran : (o : Ran × W) (res : CmdResult) → (judged o).0 ≡ ok res → result_of o.0 ≡ res
  judged-ran (r, w) res e = elim (Bool-cases (failed_to_run r.error r.exit_code)) [
    | inl failed ↦ absurd (cc (rw failed at e))
    | inr fine ↦ cc (rw fine at e)
  ]

  run_command-ran :
      (path : String) (argv allowlist : List String) (t : ℕ) (w : W) (res : CmdResult)
      → (run_command deps.system path argv allowlist t w).0 ≡ ok res
      → result_of (deps.system.exec (command_of deps.system path argv allowlist t) w).0 ≡ res
  unfolding run_command
  run_command-ran path [] allowlist t w res e = cc
  run_command-ran path (word ∷ argv) allowlist t w res e =
      judged-ran (deps.system.exec (command_of deps.system path (word ∷ argv) allowlist t) w) res e

  IsVerdict-of :
      (stamp : Stamp) (write : Write) (q : ToolRunRequest) (world : W) (res : CmdResult)
      (out err_uri commit : String) (tr : ToolRun) (before : Store × W)
      (o : Result (Unit {0}) ToolRun × (Store × W))
      → let c =
          command_of deps.system q.workspace_path q.command q.env_allowlist
            (effective_timeout q.timeout_ms) in
        result_of (deps.system.exec c world).0 ≡ res
        → o ≡ keep_run deps write (tool_run deps stamp q res out err_uri commit) before
        → o.0 ≡ ok tr
        → IsVerdict q tr world o.1.0
  IsVerdict-of stamp write q world res out err_uri commit tr before o told ends e =
      let made = tool_run deps stamp q res out err_uri commit in
      let (same, kept) = keep_run-kept write made tr before (sym (ap (λ x. x.0) ends) ∙ e) in
      let c =
        command_of deps.system q.workspace_path q.command q.env_allowlist
          (effective_timeout q.timeout_ms) in
      let r = (deps.system.exec c world).0 in
      subst (λ x. IsVerdict q x world o.1.0) same
        (record {
          cmd = c;
          ran = r;
          executed = refl;
          words = refl;
          in_dir = refl;
          limit = effective_twice q.timeout_ms;
          exited = λ code h. ap (λ x. x.exit_code) (sym told) ∙ ap exit_or_minus_one h;
          passed =
              subst
                (λ x.
                  (outcome_of deps x ≡ "PASS") ↔ ((r.exit_code ≡ some 0) × (r.timed_out ≡ false)))
                told (outcome_of-passed r);
          kept = subst (λ x. get_run made.id x.1.0.0.state ≡ some made) (sym ends) kept;
        })

  run_tool-IsVerdict :
      (stamp : Stamp) (write : Write) (q : ToolRunRequest) (sw : Store × W) (tr : ToolRun)
      → (run_tool deps stamp write q sw).0 ≡ ok tr
      → IsVerdict q tr sw.1 (run_tool deps stamp write q sw).1.0
  unfolding run_tool
  run_tool-IsVerdict stamp write q sw tr e =
      let (res, ends, e1) =
        step_runs
          (outside deps (
            run_command deps.system q.workspace_path q.command q.env_allowlist
              (effective_timeout q.timeout_ms)))
          _ sw e in
      let (out, _, e2) =
        step_runs (outside deps (deps.blob_put res.stdout)) _ _ (sym (ap (λ o. o.0) e1) ∙ e) in
      let e12 = e1 ∙ e2 in
      let (err_uri, _, e3) =
        step_runs (outside deps (deps.blob_put res.stderr)) _ _ (sym (ap (λ o. o.0) e12) ∙ e) in
      let e13 = e12 ∙ e3 in
      let (commit, _, e4) =
        step_runs (outside deps (λ w. or_empty (deps.head_of q.workspace_path w))) _ _
          (sym (ap (λ o. o.0) e13) ∙ e) in
      let e14 = e13 ∙ e4 in
      IsVerdict-of stamp write q sw.1 res out err_uri commit tr _ _
        (run_command-ran q.workspace_path q.command q.env_allowlist _ sw.1 res ends) e14 e

  run_reply-answered :
      {S : Type 0} (o : Result (FenceFault (Unit {0})) ToolRun × S) {tr : ToolRun}
      → (run_reply deps o).0 ≡ answered tr
      → (o.0 ≡ ok tr) × ((run_reply deps o).1 ≡ o.1)
  run_reply-answered (ok x, s) e = (cc, refl)
  run_reply-answered (err x, s) e = cc

  -- A run that the handler answers with has been made: in the world of the call, the system has run a
  -- command with the request's words in the request's directory, for at most the time that the record
  -- names. If the process has left an exit code, the record has it; its outcome is PASS exactly if
  -- the process has left the exit code zero and was not stopped by the timeout; and the store
  -- holds the record under its name.
  pub tool_run_handler-IsVerdict :
      (env : FenceEnv) (stamp : Stamp) (write : Write) (e : Envelope) (q : ToolRunRequest)
      (sw : Store × W) (tr : ToolRun)
      → (tool_run_handler deps env stamp write e (some q) sw).0 ≡ answered tr
      → IsVerdict q tr sw.1 (tool_run_handler deps env stamp write e (some q) sw).1.0
  unfolding tool_run_handler
  tool_run_handler-IsVerdict env stamp write e q sw tr h =
      elim (Bool-cases (is_bad_request deps q)) [
        | inl bad ↦ absurd (cc (rw (bad, tool_run_handler) at h))
        | inr fine ↦
            let fenced = with_write_fence env e (run_tool deps stamp write q) sw in
            let whole : tool_run_handler deps env stamp write e (some q) sw
                ≡ run_reply deps fenced =
              rw (fine, tool_run_handler) in
            let (run, kept) = run_reply-answered fenced (sym (ap (λ o. o.0) whole) ∙ h) in
            let (done, after) = fence-ok env e (run_tool deps stamp write q) sw run in
            subst (λ o. IsVerdict q tr sw.1 o.0) (sym (ap (λ o. o.1) whole ∙ kept ∙ after))
              (run_tool-IsVerdict stamp write q sw tr done)
      ]
