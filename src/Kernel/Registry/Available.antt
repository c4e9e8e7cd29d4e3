-- ===== src/Kernel/Registry/Available.antt =====
-- A request that a healthy provider can serve is served.
use agent_native_os.Prelude.{
  Bool, true, false, ◌||◌, ◌≡◌, ◌≢◌, refl, ap, inl, inr, some, List, [], ◌∷◌, ◌==◌, text_comparable,
  str_eq_iff, arith, keep, first, Bool-cases, Option-cases,
}
use mathlib.Core.List.{Memᴰ}
use mathlib.Core.List.Memᴰ
use agent_native_os.Prelude.Int64.{incr}
use agent_native_os.Prelude.Result.{ok}
use agent_native_os.Kernel.Protocol.{Kind, command, Kind-Comparable}
use agent_native_os.Kernel.Registry.State.{
  Provider, Key, AuthorityKey, AuthorityKey-Comparable, Registry,
}
use agent_native_os.Kernel.Registry.Runtimes.{providers_at}
use agent_native_os.Kernel.Registry.Fence.{Disk, persist_fence}
use agent_native_os.Kernel.Registry.Resolve.{
  Hints, Outcome, all_unhealthy, with_binding, serves, infer_authority, is_candidate, lease_of,
  active_writer, promote, resolve_writer, resolve_stateful, resolve_among, resolve_for_kind,
  or_fail,
}

abbrev pub IsServing : Outcome → Type 0
IsServing o = (q : Provider) × (o.0 ≡ ok q)

first_found :
    (test : Provider → Bool) (ps : List Provider) (p : Provider)
    → Memᴰ p ps
    → test p ≡ true
    → (q : Provider) × (first test ps ≡ some q)
first_found test [] p l e = absurd (Memᴰ.not-nil l)
first_found test (x ∷ xs) p l e = elim (Bool-cases (test x)) [
  | inl hit ↦ (x, rw hit)
  | inr miss ↦ elim (Memᴰ.cases_cons l) [
    | inl here ↦ absurd (cc (miss, e, here))
    | inr there ↦ rw miss (first_found test xs p there e)
  ]
]

keep_found :
    (test : Provider → Bool) (ps : List Provider) (p : Provider)
    → Memᴰ p ps
    → test p ≡ true
    → Memᴰ p (keep test ps)
keep_found test [] p l e = absurd (Memᴰ.not-nil l)
keep_found test (x ∷ xs) p l e = elim (Bool-cases (test x)) [
  | inl hit ↦ elim (Memᴰ.cases_cons l) [
    | inl here ↦ rw hit (Memᴰ.head here)
    | inr there ↦ rw hit (Memᴰ.tail (keep_found test xs p there e))
  ]
  | inr miss ↦ elim (Memᴰ.cases_cons l) [
    | inl here ↦ absurd (cc (miss, e, here))
    | inr there ↦ rw miss (keep_found test xs p there e)
  ]
]

module _ (r : Registry) (disk : Disk) (rooted : r.fence_root ≢ "") where
  promote-IsServing :
      (ak : AuthorityKey) (chosen : Provider) → IsServing (promote true ak chosen r disk)
  unfolding promote persist_fence
  promote-IsServing ak chosen =
      let given : (r.fence_root == "") ≡ false =
        ground (arith, rooted, str_eq_iff r.fence_root "") in
      (
        record chosen { writer_epoch = incr (lease_of ak r).epoch },
        rw (given, promote, persist_fence),
      )

  resolve_writer-IsServing :
      (ak : AuthorityKey) (c : Provider) (cs : List Provider)
      → IsServing (resolve_writer true "" ak (c ∷ cs) r disk)
  unfolding resolve_writer
  resolve_writer-IsServing ak c cs = elim (Option-cases (active_writer (lease_of ak r) (c ∷ cs))) [
    | inr (p, active) ↦
        (record p { writer_epoch = (lease_of ak r).epoch }, rw (active, resolve_writer))
    | inl idle ↦
        let (q, promoted) = promote-IsServing ak c in (q, rw (idle, resolve_writer) promoted)
  ]

  resolve_stateful-IsServing :
      (h : Hints) (kind : Kind) (ps : List Provider) (ak : AuthorityKey) (p : Provider)
      → h.provider ≡ ""
      → Memᴰ p ps
      → is_candidate ak p ≡ true
      → IsServing (resolve_stateful true h kind ps ak r disk)
  unfolding resolve_stateful
  resolve_stateful-IsServing h kind ps ak p free listed fit =
      at (keep (is_candidate ak) ps) refl (keep_found (is_candidate ak) ps p listed fit)
    where
      at :
          (cs : List Provider)
          → keep (is_candidate ak) ps ≡ cs
          → Memᴰ p cs
          → IsServing (resolve_stateful true h kind ps ak r disk)
      at [] e l = absurd (Memᴰ.not-nil l)
      at (c ∷ cs) e l = elim (Bool-cases (kind == command)) [
        | inl writes ↦
            let (q, served) = resolve_writer-IsServing ak c cs in
            (q, rw (e, writes, free, resolve_stateful) served)
        | inr reads ↦ (c, rw (e, reads, free, resolve_stateful))
      ]

  among-IsServing :
      (h : Hints) (kind : Kind) (ps : List Provider) (p : Provider)
      → h.provider ≡ ""
      → Memᴰ p ps
      → p.healthy ≡ true
      → (h.service ≢ "") × (h.authority ≢ "")
      → (p.export.service ≡ h.service) × (p.export.authority ≡ h.authority)
      → IsServing (resolve_among true h kind ps r disk)
  unfolding resolve_among infer_authority
  among-IsServing h kind [] p free listed healthy given same = absurd (Memᴰ.not-nil listed)
  among-IsServing h kind (x ∷ xs) p free listed healthy given same =
      elim (Bool-cases (x.export.mode == "stateful")) [
        | inl stateful ↦
            let ak : AuthorityKey = record { service = h.service; authority = h.authority } in
            let inferred : infer_authority (x ∷ xs) h ≡ ok ak =
              let known : (h.service == "" || h.authority == "") ≡ false =
                ground
                  (arith, given.0, given.1, str_eq_iff h.service "", str_eq_iff h.authority "") in
              rw (known, infer_authority) in
            let fit : is_candidate ak p ≡ true = ground (
              arith,
              healthy,
              same.0,
              same.1,
              str_eq_iff p.export.service h.service,
              str_eq_iff p.export.authority h.authority,
            ) in
            let (q, served) = resolve_stateful-IsServing h kind (x ∷ xs) ak p free listed fit in
            (q, rw (stateful, inferred, resolve_among) served)
        | inr stateless ↦
            let (q, found) =
              first_found (serves h.provider) (x ∷ xs) p listed
                (ground (arith, healthy, free, str_eq_iff h.provider "")) in
            (q, rw (stateless, resolve_among) (ap (λ o. or_fail all_unhealthy o) found))
      ]

  -- With a directory for the fence files that can be written, a request is always served if it asks
  -- for no provider and for an authority, itself or by the binding of its capability, of which the
  -- registry lists a healthy provider for the capability: whoever held the lease before, and in
  -- whatever state that runtime is.
  pub resolve-IsServing :
      (k : Key) (h : Hints) (kind : Kind) (p : Provider)
      → Memᴰ p (providers_at k r.providers)
      → p.healthy ≡ true
      → (with_binding r k h).provider ≡ ""
      → ((with_binding r k h).service ≢ "") × ((with_binding r k h).authority ≢ "")
      → (p.export.service ≡ (with_binding r k h).service)
        × (p.export.authority ≡ (with_binding r k h).authority)
      → IsServing (resolve_for_kind true k h kind r disk)
  unfolding resolve_for_kind
  resolve-IsServing k h kind p listed healthy free given same =
      among-IsServing (with_binding r k h) kind (providers_at k r.providers) p free listed healthy
        given same
