-- ===== src/Kernel/Registry/Routing.antt =====
-- What ResolveForKind returns: a healthy provider that is listed, fits the hints, and for a
-- command on a stateful capability holds the lease of its authority.
use mathlib.Core.List.{Memᴰ}
use agent_native_os.Prelude.{
  String, Bool, true, false, ◌&&◌, ◌≡◌, ◌≢◌, refl, sym, inl, inr, ◌⊎◌, some, List, [], ◌∷◌, ◌==◌,
  text_comparable, str_eq_iff, arith, keep, first, Bool-cases, Option-cases, first_passes,
  Memᴰ-keep, Memᴰ-first, subst, ap, ◌∙◌,
}
use agent_native_os.Prelude.Int64.{incr}
use agent_native_os.Prelude.Map.{insert, lookup-insert_self}
use agent_native_os.Prelude.Result.{ok, err, Result-cases}
use agent_native_os.Kernel.Protocol.{Kind, command, Kind-Comparable, kind_eq_iff}
use agent_native_os.Kernel.Registry.State.{
  Provider, Key, Key-Comparable, AuthorityKey, AuthorityKey-Comparable, WriterLease, Registry,
}
use agent_native_os.Kernel.Registry.Runtimes.{providers_at, authority_of}
use agent_native_os.Kernel.Registry.Fence.{Disk, fence_base, fence_file, not_configured, io_error}
use agent_native_os.Kernel.Registry.Resolve.{
  Hints, Outcome, ResolveError, with_binding, fits_hint, is_candidate, lease_of, active_writer,
  promote, resolve_writer, resolve_stateful, resolve_among, resolve_for_kind, infer_authority,
  persist_failed, serves,
}

-- The provider `p` is `source`, but for the writer's epoch.
pub record IsServed (hint : String) (ps : List Provider) (p : Provider) : Type 0 where
  pub source : Provider
  pub listed : Memᴰ source ps
  pub healthy : source.healthy ≡ true
  pub hinted : fits_hint hint source ≡ true
  pub same : p ≡ record source { writer_epoch = p.writer_epoch }

-- A successful command on an authority: the lease in memory is the provider's, with its epoch, and
-- either nothing was written, or the next epoch was written to the disk too.
pub record IsFenced (ak : AuthorityKey) (r : Registry) (disk : Disk) (p : Provider) (r' : Registry)
    (disk' : Disk) : Type 0 where
  pub leased : lease_of ak r' ≡ record { runtime_id = p.runtime_id; epoch = p.writer_epoch }
  pub written :
      ((r' ≡ r) × (disk' ≡ disk) × ((lease_of ak r).runtime_id ≢ ""))
      ⊎ ((p.writer_epoch ≡ incr (lease_of ak r).epoch)
          × (r' ≡ record r {
            writers =
                insert ak (record { runtime_id = p.runtime_id; epoch = p.writer_epoch }) r.writers;
          })
          × (disk'
              ≡ insert
                  (fence_base ak)
                  (fence_file ak (record { runtime_id = p.runtime_id; epoch = p.writer_epoch }))
                  disk))

abbrev next_lease : AuthorityKey → Provider → Registry → WriterLease
next_lease ak chosen r = record {
  runtime_id = chosen.runtime_id;
  epoch = incr (lease_of ak r).epoch;
}

abbrev promoted : AuthorityKey → Provider → Registry → Disk → Outcome
promoted ak chosen r disk = (
  ok (record chosen { writer_epoch = (next_lease ak chosen r).epoch }),
  record r { writers = insert ak (next_lease ak chosen r) r.writers },
  insert (fence_base ak) (fence_file ak (next_lease ak chosen r)) disk,
)

promote-cases :
    (io : Bool) (ak : AuthorityKey) (chosen : Provider) (r : Registry) (disk : Disk)
    → ((e : ResolveError) × (promote io ak chosen r disk ≡ (err e, r, disk)))
      ⊎ (promote io ak chosen r disk ≡ promoted ak chosen r disk)
unfolding promote
promote-cases io ak chosen r disk = elim (Bool-cases (r.fence_root == "")) [
  | inl unset ↦ inl (persist_failed not_configured, rw (unset, promote))
  | inr set ↦ elim (Bool-cases io) [
    | inl fine ↦ inr (rw (set, fine, promote))
    | inr broken ↦ inl (persist_failed io_error, rw (set, broken, promote))
  ]
]

promoted-IsFenced :
    (ak : AuthorityKey) (chosen : Provider) (r : Registry) (disk : Disk)
    → let p = record chosen { writer_epoch = (next_lease ak chosen r).epoch } in
      IsFenced ak r disk p (promoted ak chosen r disk).1 (promoted ak chosen r disk).2
unfolding lease_of
promoted-IsFenced ak chosen r disk = record {
  leased = rw (lease_of, lookup-insert_self ak (next_lease ak chosen r) r.writers);
  written = inr (refl, refl, refl);
}

-- A success satisfies `P`, and an error leaves everything as it was.
abbrev pub Returns : Registry → Disk → (Provider → Registry → Disk → Type 0) → Outcome → Type 0
Returns r disk P (ok p, r', disk') = P p r' disk'
Returns r disk P (err e, r', disk') = (r' ≡ r) × (disk' ≡ disk)

Returns-map :
    (r : Registry) (disk : Disk) {P Q : Provider → Registry → Disk → Type 0}
    → ((p : Provider) (r' : Registry) (disk' : Disk) → P p r' disk' → Q p r' disk')
    → (o : Outcome) → Returns r disk P o
    → Returns r disk Q o
Returns-map r disk f (ok p, r', disk') h = f p r' disk' h
Returns-map r disk f (err e, r', disk') h = h

promote-Returns :
    (io : Bool) (ak : AuthorityKey) (chosen : Provider) (r : Registry) (disk : Disk)
    → Returns r disk
        (λ p r' disk'.
          IsFenced ak r disk p r' disk' × (p ≡ record chosen { writer_epoch = p.writer_epoch }))
        (promote io ak chosen r disk)
promote-Returns io ak chosen r disk = elim (promote-cases io ak chosen r disk) [
  | inl (e, failed) ↦ rw failed (refl, refl)
  | inr done ↦ rw done (promoted-IsFenced ak chosen r disk, refl)
]

active_writer-some :
    (l : WriterLease) (candidates : List Provider) {p : Provider}
    → active_writer l candidates ≡ some p
    → (l.runtime_id ≡ p.runtime_id) × Memᴰ p candidates × (l.runtime_id ≢ "")
unfolding active_writer
active_writer-some l candidates {p} e = elim (Bool-cases (l.runtime_id == "")) [
  | inl idle ↦ cc (rw idle at e)
  | inr held ↦
      let found = rw held at e in
      (
        sym (
            (str_eq_iff p.runtime_id l.runtime_id).0
              (first_passes (λ q. q.runtime_id == l.runtime_id) candidates found)),
        Memᴰ-first _ candidates found,
        λ none_held. cc ((str_eq_iff l.runtime_id "").1 none_held),
      )
]

-- What a command on an authority returns, of candidates that are all healthy.
abbrev CommandResult :
    AuthorityKey → String → List Provider → Registry → Disk → Provider → Registry → Disk → Type 0
CommandResult ak hint candidates r disk p r' disk' =
    IsFenced ak r disk p r' disk'
    × (source : Provider) × Memᴰ source candidates
    × (fits_hint hint source ≡ true)
    × (p ≡ record source { writer_epoch = p.writer_epoch })

resolve_writer-Returns :
    (io : Bool) (hint : String) (ak : AuthorityKey) (candidates : List Provider) (r : Registry)
    (disk : Disk)
    → Returns r disk
        (CommandResult ak hint candidates r disk)
        (resolve_writer io hint ak candidates r disk)
unfolding resolve_writer
resolve_writer-Returns io hint ak candidates r disk =
    elim (Option-cases (active_writer (lease_of ak r) candidates)) [
      | inr (p, found) ↦
          let (at, listed, held) = active_writer-some (lease_of ak r) candidates found in
          elim (Bool-cases (fits_hint hint p)) [
            | inl fits ↦
                rw (found, fits, resolve_writer)
                  (
                    record {
                      leased =
                          ap (λ x. record { runtime_id = x; epoch = (lease_of ak r).epoch }) at;
                      written = inl (refl, refl, held);
                    },
                    p,
                    listed,
                    fits,
                    refl,
                  )
            | inr misses ↦ rw (found, misses, resolve_writer) (refl, refl)
          ]
      | inl idle ↦ elim (Option-cases (first (fits_hint hint) candidates)) [
        | inl nobody ↦ rw (idle, nobody, resolve_writer) (refl, refl)
        | inr (chosen, found) ↦
            rw (idle, found, resolve_writer)
              (Returns-map r disk
                (λ p r' disk' h. (
                  h.0,
                  chosen,
                  Memᴰ-first _ candidates found,
                  first_passes _ candidates found,
                  h.1,
                ))
                (promote io ak chosen r disk) (promote-Returns io ak chosen r disk))
      ]
    ]

-- What a request on an authority returns, of the capability's providers.
abbrev StatefulResult :
    AuthorityKey
    → String
    → Kind
    → List Provider
    → Registry
    → Disk
    → Provider
    → Registry
    → Disk
    → Type 0
StatefulResult ak hint kind ps r disk p r' disk' =
    IsServed hint ps p
    × (p.export.service ≡ ak.service)
    × (p.export.authority ≡ ak.authority)
    × (kind ≡ command → IsFenced ak r disk p r' disk')
    × (kind ≢ command → (r' ≡ r) × (disk' ≡ disk))

resolve_stateful-Returns :
    (io : Bool) (h : Hints) (kind : Kind) (ps : List Provider) (ak : AuthorityKey) (r : Registry)
    (disk : Disk)
    → Returns r disk
        (StatefulResult ak h.provider kind ps r disk)
        (resolve_stateful io h kind ps ak r disk)
unfolding resolve_stateful
resolve_stateful-Returns io h kind ps ak r disk = go (keep (is_candidate ak) ps) refl
  where
    is_served :
        (q p : Provider)
        → Memᴰ q (keep (is_candidate ak) ps)
        → fits_hint h.provider q ≡ true
        → p ≡ record q { writer_epoch = p.writer_epoch }
        → IsServed h.provider ps p
          × (p.export.service ≡ ak.service)
          × (p.export.authority ≡ ak.authority)
    is_served q p m fits same =
        let (listed, good) = Memᴰ-keep (is_candidate ak) ps m in
        (
          record {
            source = q;
            listed = listed;
            healthy = ground arith;
            hinted = fits;
            same = same;
          },
          ap (λ x. x.export.service) same ∙ ground (arith, str_eq_iff q.export.service ak.service),
          ap (λ x. x.export.authority) same
              ∙ ground (arith, str_eq_iff q.export.authority ak.authority),
        )

    go :
        (candidates : List Provider)
        → keep (is_candidate ak) ps ≡ candidates
        → Returns r disk
            (StatefulResult ak h.provider kind ps r disk)
            (resolve_stateful io h kind ps ak r disk)
    go [] e = rw (e, resolve_stateful) (refl, refl)
    go (c ∷ cs) e = elim (Bool-cases (kind == command)) [
      | inl yes_command ↦
          rw (e, yes_command, resolve_stateful)
            (Returns-map r disk
              (λ p r' disk' w.
                let (fenced, q, m, fits, same) = w in
                let (s, service, authority) = is_served q p (rw e m) fits same in
                (
                  s,
                  service,
                  authority,
                  λ is_command. fenced,
                  λ not_command. absurd (not_command ((kind_eq_iff kind command).0 yes_command)),
                ))
              (resolve_writer io h.provider ak (c ∷ cs) r disk)
              (resolve_writer-Returns io h.provider ak (c ∷ cs) r disk))
      | inr other ↦ elim (Option-cases (first (fits_hint h.provider) (c ∷ cs))) [
        | inl nobody ↦ rw (e, other, nobody, resolve_stateful) (refl, refl)
        | inr (q, found) ↦
            let (s, service, authority) =
              is_served q q (rw e (Memᴰ-first (fits_hint h.provider) (c ∷ cs) found))
                (first_passes (fits_hint h.provider) (c ∷ cs) found) refl in
            rw (e, other, found, resolve_stateful)
              (
                s,
                service,
                authority,
                λ is_command. cc ((kind_eq_iff kind command).1 is_command),
                λ not_command. (refl, refl),
              )
      ]
    ]

-- The key's first provider is stateful, so the key is resolved by authority.
abbrev pub is_stateful_key : List Provider → Bool
is_stateful_key [] = false
is_stateful_key (p ∷ ps) = p.export.mode == "stateful"

-- What a request returns.
abbrev pub Routed :
    Hints → Kind → List Provider → Registry → Disk → Provider → Registry → Disk → Type 0
Routed h kind ps r disk p r' disk' =
    IsServed h.provider ps p
    × (is_stateful_key ps ≡ true
        → kind ≡ command
        → IsFenced (authority_of p.export) r disk p r' disk')
    × ((is_stateful_key ps ≡ false) ⊎ (kind ≢ command) → (r' ≡ r) × (disk' ≡ disk))

true_ne_false : true ≡ false → ⊥
true_ne_false e = cc

both_true : (a b : Bool) → (a && b) ≡ true → (a ≡ true) × (b ≡ true)
both_true a b e = ground arith

resolve_among-Returns :
    (io : Bool) (h : Hints) (kind : Kind) (ps : List Provider) (r : Registry) (disk : Disk)
    → Returns r disk (Routed h kind ps r disk) (resolve_among io h kind ps r disk)
unfolding resolve_among
resolve_among-Returns io h kind [] r disk = (refl, refl)
resolve_among-Returns io h kind (c ∷ cs) r disk = elim (Bool-cases (c.export.mode == "stateful")) [
  | inl stateful ↦ elim (Result-cases (infer_authority (c ∷ cs) h)) [
    | inl (ak, found) ↦
        rw (stateful, found, resolve_among)
          (Returns-map r disk
            (λ p r' disk' w.
              let at : authority_of p.export ≡ ak =
                λ i. record { service = w.1 i; authority = w.2 i } in
              (
                w.0,
                λ s is_command. rw at (w.3 is_command),
                λ other. elim other [
                  | inl plain ↦ absurd (true_ne_false (sym stateful ∙ plain))
                  | inr not_command ↦ w.4 not_command
                ],
              ))
            (resolve_stateful io h kind (c ∷ cs) ak r disk)
            (resolve_stateful-Returns io h kind (c ∷ cs) ak r disk))
    | inr (e, failed) ↦ rw (stateful, failed, resolve_among) (refl, refl)
  ]
  | inr plain ↦ elim (Option-cases (first (serves h.provider) (c ∷ cs))) [
    | inl nobody ↦ rw (plain, nobody, resolve_among) (refl, refl)
    | inr (q, found) ↦
        rw (plain, found, resolve_among)
          (
            record {
              source = q;
              listed = Memᴰ-first (serves h.provider) (c ∷ cs) found;
              healthy =
                  (both_true q.healthy (fits_hint h.provider q)
                    (first_passes (serves h.provider) (c ∷ cs) found)).0;
              hinted =
                  (both_true q.healthy (fits_hint h.provider q)
                    (first_passes (serves h.provider) (c ∷ cs) found)).1;
              same = refl;
            },
            λ s is_command. cc,
            λ other. (refl, refl),
          )
  ]
]

pub resolve_for_kind-Returns :
    (io : Bool) (k : Key) (h : Hints) (kind : Kind) (r : Registry) (disk : Disk)
    → Returns r disk
        (Routed (with_binding r k h) kind (providers_at k r.providers) r disk)
        (resolve_for_kind io k h kind r disk)
unfolding resolve_for_kind
resolve_for_kind-Returns io k h kind r disk =
    resolve_among-Returns io (with_binding r k h) kind (providers_at k r.providers) r disk

pub of_Returns :
    (r : Registry) (disk : Disk) (P : Provider → Registry → Disk → Type 0) (o : Outcome)
    {p : Provider}
    → Returns r disk P o
    → o.0 ≡ ok p
    → P p o.1 o.2
of_Returns r disk P (ok q, r', disk') {p} h e =
    let same : q ≡ p = cc in subst (λ x. P x r' disk') same h
of_Returns r disk P (err x, r', disk') h e = cc

-- A provider that ResolveForKind returns is one of those listed for the capability, but for the
-- writer's epoch; it is healthy, and it fits the provider hint of the request or, without one, of
-- the binding.
pub resolve-IsServed :
    (io : Bool) (k : Key) (h : Hints) (kind : Kind) (r : Registry) (disk : Disk) (p : Provider)
    → (resolve_for_kind io k h kind r disk).0 ≡ ok p
    → IsServed (with_binding r k h).provider (providers_at k r.providers) p
resolve-IsServed io k h kind r disk p e =
    (of_Returns r disk (Routed (with_binding r k h) kind (providers_at k r.providers) r disk)
      (resolve_for_kind io k h kind r disk) (resolve_for_kind-Returns io k h kind r disk) e).0

-- A command on a stateful capability that is resolved leaves the provider's runtime in the lease
-- of its authority, with the epoch that the command carries: either the lease was so already and
-- nothing is written, or the epoch is the next one, in memory and in the authority's fence file.
pub resolve-IsFenced :
    (io : Bool) (k : Key) (h : Hints) (r : Registry) (disk : Disk) (p : Provider)
    → is_stateful_key (providers_at k r.providers) ≡ true
    → (resolve_for_kind io k h command r disk).0 ≡ ok p
    → IsFenced
        (authority_of p.export)
        r
        disk
        p
        (resolve_for_kind io k h command r disk).1
        (resolve_for_kind io k h command r disk).2
resolve-IsFenced io k h r disk p stateful e =
    (of_Returns r disk (Routed (with_binding r k h) command (providers_at k r.providers) r disk)
        (resolve_for_kind io k h command r disk) (resolve_for_kind-Returns io k h command r disk)
        e).1
      stateful refl
