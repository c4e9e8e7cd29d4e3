-- ===== src/Kernel/Registry/SingleWriter.antt =====
-- One writer to an epoch: the leases over a sequence of operations.
use mathlib.Core.List.Memᴰ
use mathlib.Core.List.{Memᴰ}
use agent_native_os.Prelude.{
  ℕ, ◌+◌, ◌≤◌, ◌<◌, String, ◌≡◌, ◌≢◌, refl, sym, inl, inr, Option, List, [], ◌∷◌, ◌==◌,
  text_comparable, arith, if◌then◌else◌, Bool-cases, subst, ap, ◌∙◌, length,
}
use agent_native_os.Prelude.Int64.{max_value}
use agent_native_os.Kernel.Protocol.{Kind-Comparable}
use agent_native_os.Kernel.Registry.State.{
  Key-Comparable, AuthorityKey, AuthorityKey-Comparable, authority_eq_iff, WriterLease, Registry,
}
use agent_native_os.Kernel.Registry.Health.{clear_lease}
use agent_native_os.Kernel.Registry.Fence.{Disk}
use agent_native_os.Kernel.Registry.Resolve.{lease_of}
use agent_native_os.Kernel.Registry.Trace.{Op, step, run}
use agent_native_os.Kernel.Registry.Leases.{
  Grant, grant, grants, add_grant, SameLeases, Change, same, cleared, again, next, step-Change,
}

-- What the leases say of all that was granted before.
record IsLedger (r : Registry) (past : List Grant) : Type 0 where
  below : (g : Grant) → Memᴰ g past → g.epoch ≤ (lease_of g.authority r).epoch
  current :
      (g : Grant)
      → Memᴰ g past
      → g.epoch ≡ (lease_of g.authority r).epoch
      → (lease_of g.authority r).runtime_id ≢ ""
      → g.runtime_id ≡ (lease_of g.authority r).runtime_id
  unique :
      (g h : Grant)
      → Memᴰ g past
      → Memᴰ h past
      → g.authority ≡ h.authority
      → g.epoch ≡ h.epoch
      → g.runtime_id ≡ h.runtime_id

-- An operation raises an epoch by one at most, and never falls.
abbrev Grows : Registry → Registry → Type 0
Grows r r' =
    (ak : AuthorityKey)
    → ((lease_of ak r).epoch ≤ (lease_of ak r').epoch)
      × ((lease_of ak r').epoch ≤ (lease_of ak r).epoch + 1)

abbrev pub IsBounded : ℕ → Registry → Type 0
IsBounded n r = (ak : AuthorityKey) → (lease_of ak r).epoch + n < max_value

epoch-clear_lease :
    (runtime_id : String) (l : WriterLease) → (clear_lease runtime_id l).epoch ≡ l.epoch
epoch-clear_lease runtime_id l = ground arith

Change-Grows : {r r' : Registry} {g : Option Grant} → Change r r' g → IsBounded 0 r → Grows r r'
Change-Grows (same e) b ak = rw (e ak) (omega arith, omega arith)
Change-Grows (cleared runtime_id e) b ak = rw (e ak, epoch-clear_lease) (omega arith, omega arith)
Change-Grows (again g before held e) b ak = rw (e ak) (omega arith, omega arith)
Change-Grows {r} (next g number e) b ak = elim (Bool-cases (g.authority == ak)) [
  | inl hit ↦
      let at : g.authority ≡ ak = (authority_eq_iff g.authority ak).0 hit in
      rw (e ak, hit, number, at) (omega (arith, b ak), omega (arith, b ak))
  | inr miss ↦ rw (e ak, miss) (omega arith, omega arith)
]

-- One more grant that agrees with the past, where the leases say so of the past and of it.
module _ (r : Registry) (past : List Grant) (g₀ : Grant) where
  cons-IsLedger :
      g₀.epoch ≡ (lease_of g₀.authority r).epoch
      → g₀.runtime_id ≡ (lease_of g₀.authority r).runtime_id
      → ((h : Grant)
          → Memᴰ h past
          → h.authority ≡ g₀.authority
          → h.epoch ≡ g₀.epoch
          → h.runtime_id ≡ g₀.runtime_id)
      → IsLedger r past
      → IsLedger r (g₀ ∷ past)
  cons-IsLedger number holder agree l = record {
    below =
        λ g m. elim (Memᴰ.cases_cons m) [ inl e ↦ rw e (omega arith) | inr old ↦ l.below g old ];
    current = λ g m number' held. elim (Memᴰ.cases_cons m) [
      | inl e ↦ rw e holder
      | inr old ↦ l.current g old number' held
    ];
    unique = λ g h m n a e. elim (Memᴰ.cases_cons m) [
      | inl g_new ↦ elim (Memᴰ.cases_cons n) [
        | inl h_new ↦ cc
        | inr h_old ↦
            ap (λ x. x.runtime_id) g_new
            ∙ sym (
                agree h h_old (sym a ∙ ap (λ x. x.authority) g_new)
                  (sym e ∙ ap (λ x. x.epoch) g_new))
      ]
      | inr g_old ↦ elim (Memᴰ.cases_cons n) [
        | inl h_new ↦
            agree g g_old (a ∙ ap (λ x. x.authority) h_new) (e ∙ ap (λ x. x.epoch) h_new)
            ∙ sym (ap (λ x. x.runtime_id) h_new)
        | inr h_old ↦ l.unique g h g_old h_old a e
      ]
    ];
  }

same-IsLedger :
    {r r' : Registry} (past : List Grant) → SameLeases r r' → IsLedger r past → IsLedger r' past
same-IsLedger past e l = record {
  below = λ g m. rw (e g.authority) (l.below g m);
  current = λ g m number held.
      rw (e g.authority)
        (l.current g m (rw (e g.authority) at number) (rw (e g.authority) at held));
  unique = l.unique;
}

cleared-IsLedger :
    {r r' : Registry} (past : List Grant) (runtime_id : String)
    → ((ak : AuthorityKey) → lease_of ak r' ≡ clear_lease runtime_id (lease_of ak r))
    → IsLedger r past
    → IsLedger r' past
cleared-IsLedger {r} past runtime_id e l = record {
  below = λ g m. rw (e g.authority, epoch-clear_lease) (l.below g m);
  current = λ g m number held.
      elim (Bool-cases ((lease_of g.authority r).runtime_id == runtime_id)) [
        | inl hit ↦ absurd (rw (e g.authority, hit) at held refl)
        | inr miss ↦
            rw (e g.authority, miss)
              (l.current g m (rw (e g.authority, miss) at number)
                (rw (e g.authority, miss) at held))
      ];
  unique = l.unique;
}

next-IsLedger :
    {r r' : Registry} (past : List Grant) (g₀ : Grant)
    → (lease_of g₀.authority r).epoch < g₀.epoch
    → ((ak : AuthorityKey)
        → lease_of ak r' ≡ (
            if g₀.authority == ak
            then record { runtime_id = g₀.runtime_id; epoch = g₀.epoch }
            else lease_of ak r))
    → IsLedger r past
    → IsLedger r' (g₀ ∷ past)
next-IsLedger {r} {r'} past g₀ newer e l =
    cons-IsLedger r' past g₀ (sym (ap (λ x. x.epoch) mine)) (sym (ap (λ x. x.runtime_id) mine))
      (λ h m a q. absurd (too_new h m a q))
      (record { below = below'; current = current'; unique = l.unique })
  where
    mine : lease_of g₀.authority r' ≡ record { runtime_id = g₀.runtime_id; epoch = g₀.epoch }
    mine = rw (e g₀.authority, (authority_eq_iff g₀.authority g₀.authority).1 refl)

    too_new : (h : Grant) → Memᴰ h past → h.authority ≡ g₀.authority → h.epoch ≡ g₀.epoch → ⊥
    too_new h m a q =
        let old : h.epoch ≤ (lease_of g₀.authority r).epoch =
          subst (λ x. h.epoch ≤ (lease_of x r).epoch) a (l.below h m) in
        omega arith

    below' : (g : Grant) → Memᴰ g past → g.epoch ≤ (lease_of g.authority r').epoch
    below' g m = elim (Bool-cases (g₀.authority == g.authority)) [
      | inl hit ↦
          let at : g₀.authority ≡ g.authority = (authority_eq_iff g₀.authority g.authority).0 hit in
          let old : g.epoch ≤ (lease_of g₀.authority r).epoch =
            subst (λ x. g.epoch ≤ (lease_of x r).epoch) (sym at) (l.below g m) in
          rw (e g.authority, hit) (omega arith)
      | inr miss ↦ rw (e g.authority, miss) (l.below g m)
    ]

    current' :
        (g : Grant)
        → Memᴰ g past
        → g.epoch ≡ (lease_of g.authority r').epoch
        → (lease_of g.authority r').runtime_id ≢ ""
        → g.runtime_id ≡ (lease_of g.authority r').runtime_id
    current' g m number held = elim (Bool-cases (g₀.authority == g.authority)) [
      | inl hit ↦ absurd (
          too_new g m (sym ((authority_eq_iff g₀.authority g.authority).0 hit))
            (rw (e g.authority, hit) at number))
      | inr miss ↦
          rw (e g.authority, miss)
            (l.current g m (rw (e g.authority, miss) at number) (rw (e g.authority, miss) at held))
    ]

Change-IsLedger :
    {r r' : Registry} {g : Option Grant} (past : List Grant)
    → Change r r' g
    → IsBounded 0 r
    → IsLedger r past
    → IsLedger r' (add_grant g past)
Change-IsLedger past (same e) b l = same-IsLedger past e l
Change-IsLedger past (cleared runtime_id e) b l = cleared-IsLedger past runtime_id e l
Change-IsLedger {r} past (again g before held e) b l = same-IsLedger (g ∷ past) e (
    cons-IsLedger r past g (sym (ap (λ x. x.epoch) before)) (sym (ap (λ x. x.runtime_id) before))
      (λ h m a q.
        let at : lease_of h.authority r ≡ record { runtime_id = g.runtime_id; epoch = g.epoch } =
          ap (λ x. lease_of x r) a ∙ before in
        l.current h m (q ∙ sym (ap (λ x. x.epoch) at))
          (λ idle. held (sym (ap (λ x. x.runtime_id) at) ∙ idle))
        ∙ ap (λ x. x.runtime_id) at)
      l)
Change-IsLedger {r} past (next g number e) b l =
    next-IsLedger past g (rw number (omega (arith, b g.authority))) e l

-- The bound leaves room for one epoch to each operation.
grants-IsLedger :
    (ops : List Op) (r : Registry) (disk : Disk) (past : List Grant)
    → IsBounded (length ops) r
    → IsLedger r past
    → IsLedger (run ops (r, disk)).0 (grants ops (r, disk) past)
unfolding run grants
grants-IsLedger [] r disk past b l = l
grants-IsLedger (op ∷ ops) r disk past b l =
    let (r', disk') = step op (r, disk) in
    let change = step-Change op r disk in
    let room : IsBounded 0 r = λ ak. omega (arith, b ak) in
    grants-IsLedger ops r' disk' (add_grant (grant op (r, disk)) past)
      (λ ak. omega (arith, b ak, (Change-Grows change room ak).1))
      (Change-IsLedger past change room l)

no_grants : (r : Registry) → IsLedger r []
no_grants r = record {
  below = λ g m. elim m [ ];
  current = λ g m. elim m [ ];
  unique = λ g h m. elim m [ ];
}

-- Over any sequence of operations that starts with epochs so low that one step for each operation
-- stays below the greatest 64-bit integer, two commands on stateful capabilities that are granted
-- the same epoch of the same authority are served by the same runtime.
pub single_writer :
    (ops : List Op) (r : Registry) (disk : Disk)
    → IsBounded (length ops) r
    → (g h : Grant) → Memᴰ g (grants ops (r, disk) [])
    → Memᴰ h (grants ops (r, disk) [])
    → g.authority ≡ h.authority
    → g.epoch ≡ h.epoch
    → g.runtime_id ≡ h.runtime_id
single_writer ops r disk b = (grants-IsLedger ops r disk [] b (no_grants r)).unique

-- Under the same bound no sequence of operations lowers the epoch of an authority, not even when
-- the writer's runtime fails or is removed.
pub epochs_grow :
    (ops : List Op) (r : Registry) (disk : Disk) (ak : AuthorityKey)
    → IsBounded (length ops) r
    → (lease_of ak r).epoch ≤ (lease_of ak (run ops (r, disk)).0).epoch
unfolding run
epochs_grow [] r disk ak b = omega arith
epochs_grow (op ∷ ops) r disk ak b =
    let (r', disk') = step op (r, disk) in
    let room : IsBounded 0 r = λ j. omega (arith, b j) in
    let grows = Change-Grows (step-Change op r disk) room in
    let rest = epochs_grow ops r' disk' ak (λ j. omega (arith, b j, (grows j).1)) in
    omega (arith, (grows ak).0, rest)
