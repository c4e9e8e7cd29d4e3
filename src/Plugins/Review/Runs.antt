-- ===== src/Plugins/Review/Runs.antt =====
-- What record_decided of plugins/review/store.go does.
use agent_native_os.Prelude.{
  String, false, ◌≡◌, ◌≢◌, refl, inl, inr, some, List, ◌==◌, text_comparable, str_eq_iff, arith,
  Bool-cases, Option-cases,
}
use agent_native_os.Prelude.Map.{lookup, insert}
use agent_native_os.Prelude.Result.{Result, ok, err}
use agent_native_os.Plugins.EventLog.{
  Write, not_opened, torn, no_newline, not_synced, written, append, LogError,
}
use agent_native_os.Plugins.Review.Store.{
  AcceptanceResult, Review, decided, Store, already_decided, ApplyError, apply, with_decision,
  after_append, record_decided,
}

pub after_append-ok :
    (r : Review) (o : Result (LogError ApplyError) (Unit {0}) × Store) {v : Review}
    → (after_append r o).0 ≡ ok v
    → (v ≡ r) × (o.0 ≡ ok tt) × ((after_append r o).1 ≡ o.1)
after_append-ok r (err e, s) h = cc
after_append-ok r (ok tt, s) h = (cc, refl, refl)

pub append-decided :
    (w : Write) (r : Review) (s : Store)
    → (append apply w (decided r) s).0 ≡ ok tt
    → (append apply w (decided r) s).1.0.state
      ≡ record s.0.state { by_id = insert r.id r s.0.state.by_id }
unfolding append apply
append-decided not_opened r s e = cc
append-decided torn r s e = cc
append-decided no_newline r s e = cc
append-decided not_synced r s e = cc
append-decided written r s e = refl

module _ (w : Write) (now id decision reviewer notes : String) (results : List AcceptanceResult)
    (s : Store) where
  pub decided-runs :
      {v : Review}
      → (record_decided w now id decision reviewer notes results s).0 ≡ ok v
      → (p : Review) × (lookup id s.0.state.by_id ≡ some p)
        × (p.status ≡ "PENDING")
        × (record_decided w now id decision reviewer notes results s
            ≡ after_append
                (with_decision decision reviewer notes results now p)
                (append apply w (decided (with_decision decision reviewer notes results now p)) s))
  unfolding record_decided
  decided-runs e = elim (Option-cases (lookup id s.0.state.by_id)) [
    | inl missing ↦ absurd (cc (rw (missing, record_decided) at e))
    | inr (p, found) ↦ elim (Bool-cases (p.status == "PENDING")) [
      | inr closed ↦ absurd (cc (rw (found, closed, record_decided) at e))
      | inl open_review ↦ (
        p,
        found,
        (str_eq_iff p.status "PENDING").0 open_review,
        rw (found, open_review, record_decided),
      )
    ]
  ]

pub closed_refuses :
    (w : Write) (now id decision reviewer notes : String) (results : List AcceptanceResult)
    (s : Store) (v : Review)
    → lookup id s.0.state.by_id ≡ some v
    → v.status ≢ "PENDING"
    → record_decided w now id decision reviewer notes results s ≡ (err already_decided, s)
unfolding record_decided
closed_refuses w now id decision reviewer notes results s v found closed =
    let shut : (v.status == "PENDING") ≡ false =
      ground (arith, closed, str_eq_iff v.status "PENDING") in
    rw (found, shut, record_decided)
