-- ===== src/Plugins/Workspace/Git.antt =====
-- plugins/workspace/gitworktree.go, over a git that is not modelled.
use agent_native_os.Prelude.{
  String, List, [], ◌∷◌, ◌==◌, text_comparable, Bool, true, false, if◌then◌else◌,
}
use Prim.Native.String
use agent_native_os.Prelude.Result.{Result, ok, err}

-- The processes and the file system: `run` is git in a repository with its arguments, and gives the
-- trimmed output; `make_parent` makes the directories above a path.
pub record Host (W : Type 0) : Type 0 where
  pub run : String → List String → W → Result (Unit {0}) String × W
  pub make_parent : String → W → Bool × W

module _ {W : Type 0} (host : Host W) where
  abbrev status : Result (Unit {0}) String × W → Result (Unit {0}) (Unit {0}) × W
  status (ok _, w) = (ok tt, w)
  status (err e, w) = (err e, w)

  unfoldable pub ensure_repo : String → W → Result (Unit {0}) (Unit {0}) × W
  ensure_repo repo w = status (host.run repo ("rev-parse" ∷ "--git-dir" ∷ []) w)

  unfoldable pub resolve_commit : String → String → W → Result (Unit {0}) String × W
  resolve_commit repo ref w =
      host.run repo
        ("rev-parse"
          ∷ "--verify"
          ∷ String.◌++◌ (if ref == "" then "HEAD" else ref) "^{commit}"
          ∷ [])
        w

  abbrev added : String → String → String → String → Bool × W → Result (Unit {0}) (Unit {0}) × W
  added repo path branch commit (false, w) = (err tt, w)
  added repo path branch commit (true, w) =
      status (host.run repo ("worktree" ∷ "add" ∷ "-b" ∷ branch ∷ path ∷ commit ∷ []) w)

  unfoldable pub add_worktree :
      String → String → String → String → W → Result (Unit {0}) (Unit {0}) × W
  add_worktree repo path branch commit w = added repo path branch commit (host.make_parent path w)

  abbrev pruned : String → Result (Unit {0}) String × W → Result (Unit {0}) (Unit {0}) × W
  pruned repo (err e, w) = (err e, w)
  pruned repo (ok _, w) = (ok tt, (host.run repo ("worktree" ∷ "prune" ∷ []) w).1)

  unfoldable pub remove_worktree : String → String → W → Result (Unit {0}) (Unit {0}) × W
  remove_worktree repo path w =
      pruned repo (host.run repo ("worktree" ∷ "remove" ∷ "--force" ∷ path ∷ []) w)

  unfoldable pub delete_branch : String → String → W → Result (Unit {0}) (Unit {0}) × W
  delete_branch repo branch w = status (host.run repo ("branch" ∷ "-D" ∷ branch ∷ []) w)
