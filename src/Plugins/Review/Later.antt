-- ===== src/Plugins/Review/Later.antt =====
-- What becomes of plugins/review/store.go while other reviews are requested and any are decided.
use agent_native_os.Prelude.{
  String, false, ◌≡◌, ◌≢◌, refl, sym, ap, ◌∙◌, inl, inr, some, subst, eq_of_==, [], List, ◌==◌,
  text_comparable, str_eq_iff, arith, Bool-cases, Option-cases,
}
use agent_native_os.Prelude.Map.{Map, lookup, insert, lookup-insert}
use agent_native_os.Prelude.Result.{Result, ok, err, Result-cases}
use agent_native_os.Plugins.EventLog.{
  Write, not_opened, torn, no_newline, not_synced, written, append, LogError,
}
use agent_native_os.Plugins.Review.Store.{
  AcceptanceResult, Review, decided, Store, ApplyError, apply, with_decision, after_append,
  record_decided,
}
use agent_native_os.Plugins.EventLog.Live.{IsLive, IsLive-keeps}
use agent_native_os.Plugins.Review.Store.{
  requested, unknown_op, undecodable, Change, Reviews, no_reviews, record_requested,
}

-- The stores that a store becomes by requests of other reviews and by decisions about any, whether
-- they succeed or not.
pub data IsLater (id : String) (s : Store) : Store → Type 0 where
  unchanged : IsLater id s s
  requesting :
      (w : Write) (r : Review) {o : Store}
      → r.id ≢ id
      → IsLater id s o
      → IsLater id s (record_requested w r o).1
  deciding :
      (w : Write) (now other decision reviewer notes : String) (results : List AcceptanceResult)
      {o : Store}
      → IsLater id s o
      → IsLater id s (record_decided w now other decision reviewer notes results o).1

-- Each review stands under its own name.
abbrev pub IsKeyed : Map String Review → Type 0
IsKeyed m = (k : String) (r : Review) → lookup k m ≡ some r → r.id ≡ k

insert-IsKeyed : (r : Review) (m : Map String Review) → IsKeyed m → IsKeyed (insert r.id r m)
insert-IsKeyed r m keyed k x e = elim (Bool-cases (r.id == k)) [
  | inl same ↦
      let one : r ≡ x = cc (lookup-insert r.id k r m, same, e) in
      ap (λ y. y.id) (sym one) ∙ eq_of_== r.id k same
  | inr other ↦ keyed k x (sym (lookup-insert r.id k r m ∙ rw other) ∙ e)
]

insert_elsewhere :
    (k id : String) (r : Review) (m : Map String Review)
    → k ≢ id
    → lookup id (insert k r m) ≡ lookup id m
insert_elsewhere k id r m other =
    let apart : (k == id) ≡ false = ground (arith, other, str_eq_iff k id) in
    lookup-insert k id r m ∙ rw apart

empty-IsKeyed : IsKeyed []
unfolding lookup
empty-IsKeyed k r e = cc

apply-IsKeyed :
    (d : Change) (s s' : Reviews) → apply d s ≡ ok s' → IsKeyed s.by_id → IsKeyed s'.by_id
unfolding apply
apply-IsKeyed (requested r) s s' e h =
    let same : insert r.id r s.by_id ≡ s'.by_id = cc in
    subst IsKeyed same (insert-IsKeyed r s.by_id h)
apply-IsKeyed (decided r) s s' e h =
    let same : insert r.id r s.by_id ≡ s'.by_id = cc in
    subst IsKeyed same (insert-IsKeyed r s.by_id h)
apply-IsKeyed (unknown_op r) s s' e h = cc
apply-IsKeyed undecodable s s' e h = cc

pub live-IsKeyed : {o : Store} → IsLive apply no_reviews o → IsKeyed o.0.state.by_id
live-IsKeyed live =
    IsLive-keeps apply no_reviews (λ m. IsKeyed m.by_id) empty-IsKeyed apply-IsKeyed live

append_keeps :
    (P : Reviews → Type 0) (w : Write) (d : Change) (s : Store)
    → ((m m' : Reviews) → apply d m ≡ ok m' → P m → P m')
    → P s.0.state
    → P (append apply w d s).1.0.state
unfolding append
append_keeps P not_opened d s step p = p
append_keeps P torn d s step p = p
append_keeps P no_newline d s step p = p
append_keeps P not_synced d s step p = p
append_keeps P written d s step p = elim (Result-cases (apply d s.0.state)) [
  | inl (state, accepted) ↦ rw (accepted, append) (step s.0.state state accepted p)
  | inr (x, refused) ↦ rw (refused, append) p
]

after_append-store :
    (r : Review) (o : Result (LogError ApplyError) (Unit {0}) × Store) → (after_append r o).1 ≡ o.1
after_append-store r (err e, s) = refl
after_append-store r (ok tt, s) = refl

-- What a decision about any review leaves, if its record may be applied.
decided_keeps :
    (P : Reviews → Type 0) (w : Write) (now other decision reviewer notes : String)
    (results : List AcceptanceResult) (s : Store)
    → ((p : Review)
        → lookup other s.0.state.by_id ≡ some p
        → p.status ≡ "PENDING"
        → (m m' : Reviews)
        → apply (decided (with_decision decision reviewer notes results now p)) m ≡ ok m'
        → P m
        → P m')
    → P s.0.state
    → P (record_decided w now other decision reviewer notes results s).1.0.state
unfolding record_decided
decided_keeps P w now other decision reviewer notes results s step start =
    elim (Option-cases (lookup other s.0.state.by_id)) [
      | inl missing ↦ rw (missing, record_decided) start
      | inr (p, found) ↦ elim (Bool-cases (p.status == "PENDING")) [
        | inr closed ↦ rw (found, closed, record_decided) start
        | inl open_review ↦
            rw (found, open_review, record_decided)
              (subst (λ o. P o.0.state) (sym (after_append-store _ _))
                (append_keeps P w _ s (step p found ((str_eq_iff p.status "PENDING").0 open_review))
                  start))
      ]
    ]

pub decided-IsKeyed :
    (w : Write) (now other decision reviewer notes : String) (results : List AcceptanceResult)
    (s : Store)
    → IsKeyed s.0.state.by_id
    → IsKeyed (record_decided w now other decision reviewer notes results s).1.0.state.by_id
decided-IsKeyed w now other decision reviewer notes results s keyed =
    decided_keeps (λ m. IsKeyed m.by_id) w now other decision reviewer notes results s
      (λ p found open_review m m' e. apply-IsKeyed _ m m' e) keyed

-- The review stays as it is once it is decided.
abbrev Stays : String → Review → Reviews → Type 0
Stays id v m = IsKeyed m.by_id × (lookup id m.by_id ≡ some v)

apply_elsewhere :
    (id : String) (v r : Review) (by_id : Map String Review) (m' : Reviews)
    → r.id ≢ id
    → insert r.id r by_id ≡ m'.by_id
    → lookup id by_id ≡ some v
    → lookup id m'.by_id ≡ some v
apply_elsewhere id v r by_id m' other same found =
    ap (lookup id) (sym same) ∙ insert_elsewhere r.id id r by_id other ∙ found

requested-Stays :
    (id : String) (v r : Review) (m m' : Reviews)
    → r.id ≢ id
    → apply (requested r) m ≡ ok m'
    → Stays id v m
    → Stays id v m'
unfolding apply
requested-Stays id v r m m' other e (keyed, found) =
    (apply-IsKeyed (requested r) m m' e keyed, apply_elsewhere id v r m.by_id m' other (cc) found)

decided-Stays :
    (id : String) (v r : Review) (m m' : Reviews)
    → r.id ≢ id
    → apply (decided r) m ≡ ok m'
    → Stays id v m
    → Stays id v m'
unfolding apply
decided-Stays id v r m m' other e (keyed, found) =
    (apply-IsKeyed (decided r) m m' e keyed, apply_elsewhere id v r m.by_id m' other (cc) found)

pub IsLater-Stays :
    (id : String) (v : Review) (s : Store) {o : Store}
    → v.status ≢ "PENDING"
    → IsLater id s o
    → Stays id v s.0.state
    → Stays id v o.0.state
unfolding record_requested
IsLater-Stays id v s closed unchanged h = h
IsLater-Stays id v s closed (requesting w r {o = o} other later) h =
    append_keeps (Stays id v) w (requested r) o (λ m m' e k. requested-Stays id v r m m' other e k)
      (IsLater-Stays id v s closed later h)
IsLater-Stays id v s closed (deciding w now other decision reviewer notes results {o = o} later) h =
    let before = IsLater-Stays id v s closed later h in
    decided_keeps (Stays id v) w now other decision reviewer notes results o
      (λ p found open_review m m' e k.
        decided-Stays id v (with_decision decision reviewer notes results now p) m m'
          (λ same.
            let named = before.0 other p found in
            closed (
              ap (λ x. x.status) (let one : v ≡ p = cc (before.1, found, named, same) in one)
              ∙ open_review))
          e k)
      before
