-- ===== src/Plugins/Review/Decisions.antt =====
-- What a decided review is in every later store.
use agent_native_os.Prelude.{String, ◌≡◌, ◌≢◌, sym, ap, ◌∙◌, some, List, text_comparable}
use agent_native_os.Prelude.Map.{lookup, insert, lookup-insert_self}
use agent_native_os.Prelude.Result.{ok, err}
use agent_native_os.Plugins.EventLog.{Write}
use agent_native_os.Plugins.Review.Store.{
  AcceptanceResult, Review, Store, already_decided, apply, with_decision, record_decided, get_by_id,
}
use agent_native_os.Plugins.EventLog.Live.{IsLive}
use agent_native_os.Plugins.Review.Store.{no_reviews}
use agent_native_os.Plugins.Review.Runs.{
  after_append-ok, append-decided, decided-runs, closed_refuses,
}
use agent_native_os.Plugins.Review.Later.{IsLater, IsLater-Stays, live-IsKeyed, decided-IsKeyed}

-- In a store that a process can have, which it has loaded from some file and changed by appends, let a
-- decision other than PENDING about a review be recorded. Then, in every store that requests of
-- other reviews and decisions about any review make of the store, whether they succeed or not, the
-- review is as it was decided, with that decision as its status; and every decision about it is
-- refused there as already decided, and changes nothing.
pub decided_once :
    (w w' : Write) (now now' id decision decision' reviewer reviewer' notes notes' : String)
    (results results' : List AcceptanceResult) (s later : Store) (v : Review)
    → decision ≢ "PENDING"
    → IsLive apply no_reviews s
    → (record_decided w now id decision reviewer notes results s).0 ≡ ok v
    → IsLater id (record_decided w now id decision reviewer notes results s).1 later
    → (get_by_id id later.0.state ≡ some v)
      × (v.status ≡ decision)
      × (record_decided w' now' id decision' reviewer' notes' results' later
          ≡ (err already_decided, later))
unfolding get_by_id
decided_once w w' now now' id decision decision' reviewer reviewer' notes notes' results results' s
      later v closed live e after =
    let (p, found, _, runs) = decided-runs w now id decision reviewer notes results s e in
    let (result, finished, same) = after_append-ok _ _ (rw runs at e) in
    let state =
      ap (λ o. o.1.0.state) runs ∙ ap (λ o. o.0.state) same ∙ append-decided w _ s finished in
    let r = with_decision decision reviewer notes results now p in
    let keyed = live-IsKeyed live in
    let stored : lookup id
          (record_decided w now id decision reviewer notes results s).1.0.state.by_id
        ≡ some v =
      ap (λ t. lookup id t.by_id) state
      ∙ ap (λ k. lookup k (insert p.id r s.0.state.by_id)) (sym (keyed id p found))
      ∙ lookup-insert_self p.id r s.0.state.by_id
      ∙ ap some (sym result) in
    let status : v.status ≡ decision = ap (λ x. x.status) result in
    let shut : v.status ≢ "PENDING" = λ q. closed (sym status ∙ q) in
    let (_, held) =
      IsLater-Stays id v _ shut after
        (decided-IsKeyed w now id decision reviewer notes results s keyed, stored) in
    (held, status, closed_refuses w' now' id decision' reviewer' notes' results' later v held shut)
