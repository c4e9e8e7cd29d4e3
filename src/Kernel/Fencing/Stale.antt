-- ===== src/Kernel/Fencing/Stale.antt =====
-- Which writes the fence lets through, and that the registry and the plugins agree on its file.
use agent_native_os.Prelude.{
  ◌<◌, String, Bool, true, not, ◌||◌, ◌&&◌, ◌≡◌, ◌≢◌, refl, ap, ◌∙◌, ◌⊎◌, inl, inr, none, some,
  arith, ◌==◌, text_comparable, nat_comparable, str_eq_iff, eqb_iff, if◌then◌else◌, Bool-cases,
}
use agent_native_os.Prelude.Int64.{max_value}
use agent_native_os.Prelude.Map.{lookup, insert, lookup-insert_self}
use agent_native_os.Prelude.Result.{Result, ok, err}
use agent_native_os.Kernel.Protocol.{Envelope}
use agent_native_os.Kernel.Registry.State.{AuthorityKey, WriterLease, Registry}
use agent_native_os.Kernel.Registry.Fence.{
  FenceFile, FenceRead, unreadable, malformed, contents, Disk, fence_safe, fence_base, fence_file,
  persist_fence,
}
use agent_native_os.Kernel.Fencing.{
  replaced, safe, lease_name, FenceEnv, stale_writer, lift, write_if_current, with_write_fence,
}

safe-fence_safe : (s : String) → safe s ≡ fence_safe s
unfolding safe fence_safe
safe-fence_safe String.[] = refl
safe-fence_safe (String.◌∷◌ c s) = ap (String.◌∷◌ (replaced c)) (safe-fence_safe s)

-- A plugin looks for the lease of a service and an authority in the file that the registry writes.
lease_name-fence_base : (ak : AuthorityKey) → lease_name ak.service ak.authority ≡ fence_base ak
unfolding lease_name fence_base
lease_name-fence_base ak = rw (safe-fence_safe ak.service, safe-fence_safe ak.authority)

-- What a process reads of the directory.
abbrev pub read_disk : Disk → String → FenceRead
read_disk disk name = elim (lookup name disk) [ none ↦ unreadable | some file ↦ contents file ]

written_lease :
    (io : Bool) (ak : AuthorityKey) (l : WriterLease) (r : Registry) (disk disk' : Disk)
    → persist_fence io ak l r disk ≡ ok disk'
    → read_disk disk' (fence_base ak) ≡ contents (fence_file ak l)
unfolding persist_fence
written_lease io ak l r disk disk' made =
    let new : insert (fence_base ak) (fence_file ak l) disk ≡ disk' = ground arith in
    rw (← new, read_disk, lookup-insert_self (fence_base ak) (fence_file ak l) disk)

FenceRead-cases :
    (x : FenceRead) → ((l : FenceFile) × (x ≡ contents l)) ⊎ ((x ≡ unreadable) ⊎ (x ≡ malformed))
FenceRead-cases unreadable = inr (inl refl)
FenceRead-cases malformed = inr (inr refl)
FenceRead-cases (contents l) = inl (l, refl)

-- A process with the fence's directory, for a request that carries the metadata.
pub record IsEquipped (env : FenceEnv) (e : Envelope) : Type 0 where
  pub epoch_positive : 0 < e.fencing_epoch
  pub epoch_bounded : e.fencing_epoch < max_value
  pub service_named : e.service ≢ ""
  pub authority_named : e.authority ≢ ""
  pub has_root : env.root ≢ ""
  pub io_works : env.io ≡ true

-- The lease that a process reads names its runtime and the epoch of the request.
pub record HoldsLease (env : FenceEnv) (e : Envelope) : Type 0 where
  pub lease : FenceFile
  pub read : env.read (lease_name e.service e.authority) ≡ contents lease
  pub same_runtime : lease.runtime_id ≡ env.runtime_id
  pub same_epoch : lease.epoch ≡ e.fencing_epoch

module _ {E A W : Type 0} where
  equipped_write :
      (env : FenceEnv) (e : Envelope) (fn : W → Result E A × W) (w : W)
      → IsEquipped env e
      → with_write_fence env e fn w
        ≡ write_if_current env e (env.read (lease_name e.service e.authority)) fn w
  unfolding with_write_fence
  equipped_write env e fn w q = ground (
    arith,
    q.epoch_positive,
    q.epoch_bounded,
    q.service_named,
    q.authority_named,
    q.has_root,
    q.io_works,
    str_eq_iff e.service "",
    str_eq_iff e.authority "",
    str_eq_iff env.root "",
  )

  current_write :
      (env : FenceEnv) (e : Envelope) (fn : W → Result E A × W) (w : W) (l : FenceFile)
      → write_if_current env e (contents l) fn w ≡ (
          if l.runtime_id == env.runtime_id && l.epoch == e.fencing_epoch
          then lift (fn w)
          else (err stale_writer, w))
  unfolding write_if_current
  current_write env e fn w l = ground arith

  -- Once the registry has written the lease of an authority, a process that reads this directory,
  -- with working calls and a root, and serves a request for this authority that carries a positive
  -- epoch, runs its write exactly if it is the lease's runtime and the
  -- request carries the lease's epoch; any other write is refused as stale and changes nothing.
  pub promoted_fence :
      (io : Bool) (ak : AuthorityKey) (l : WriterLease) (r : Registry) (disk disk' : Disk)
      (env : FenceEnv) (e : Envelope) (fn : W → Result E A × W) (w : W)
      → persist_fence io ak l r disk ≡ ok disk'
      → env.read ≡ read_disk disk'
      → e.service ≡ ak.service
      → e.authority ≡ ak.authority
      → IsEquipped env e
      → with_write_fence env e fn w ≡ (
          if l.runtime_id == env.runtime_id && l.epoch == e.fencing_epoch
          then lift (fn w)
          else (err stale_writer, w))
  promoted_fence io ak l r disk disk' env e fn w made reads same_service same_authority q =
      let lease_read : env.read (lease_name e.service e.authority) ≡ contents (fence_file ak l) =
        rw (reads, same_service, same_authority, lease_name-fence_base ak)
          (written_lease io ak l r disk disk' made) in
      equipped_write env e fn w q
      ∙ ap (λ x. write_if_current env e x fn w) lease_read
      ∙ current_write env e fn w (fence_file ak l)

  kept_unread :
      (env : FenceEnv) (e : Envelope) (fn : W → Result E A × W) (w : W) (x : FenceRead)
      → (x ≡ unreadable) ⊎ (x ≡ malformed)
      → (write_if_current env e x fn w).1 ≡ w
  unfolding write_if_current
  kept_unread env e fn w x (inl p) = rw (p, write_if_current)
  kept_unread env e fn w x (inr p) = rw (p, write_if_current)

  runs_comparison :
      (env : FenceEnv) (e : Envelope) (fn : W → Result E A × W) (w : W)
      → (with_write_fence env e fn w
          ≡ write_if_current env e (env.read (lease_name e.service e.authority)) fn w)
        ⊎ ((with_write_fence env e fn w).1 ≡ w)
  unfolding with_write_fence
  runs_comparison env e fn w = ground arith

  -- A write that changes the state has run: the process holds the lease at the request's epoch,
  -- and the result is the write's own.
  pub changed_by_current :
      (env : FenceEnv) (e : Envelope) (fn : W → Result E A × W) (w : W)
      → (with_write_fence env e fn w).1 ≢ w
      → HoldsLease env e × (with_write_fence env e fn w ≡ lift (fn w))
  changed_by_current env e fn w changed = elim (runs_comparison env e fn w) [
    | inr untouched ↦ absurd (changed untouched)
    | inl runs ↦ elim (FenceRead-cases (env.read (lease_name e.service e.authority))) [
      | inr bad ↦ absurd (changed (ap (λ o. o.1) runs ∙ kept_unread env e fn w _ bad))
      | inl (l, read) ↦
          let here =
            runs ∙ ap (λ x. write_if_current env e x fn w) read ∙ current_write env e fn w l in
          elim (Bool-cases (l.runtime_id == env.runtime_id && l.epoch == e.fencing_epoch)) [
            | inr stale ↦ absurd (changed (ap (λ o. o.1) here ∙ rw stale))
            | inl current ↦ (
              record {
                lease = l;
                read = read;
                same_runtime = ground (arith, current, str_eq_iff l.runtime_id env.runtime_id);
                same_epoch = ground (arith, current, eqb_iff l.epoch e.fencing_epoch);
              },
              here ∙ rw current,
            )
          ]
    ]
  ]

-- A write that succeeds has run.
lift-ok :
    {E A W : Type 0} (o : Result E A × W) {a : A}
    → (lift o).0 ≡ ok a
    → (o.0 ≡ ok a) × ((lift o).1 ≡ o.1)
lift-ok (ok b, w) e = (cc, refl)
lift-ok (err x, w) e = cc

module _ {E A W : Type 0} where
  compared-ok :
      (env : FenceEnv) (e : Envelope) (read : FenceRead) (fn : W → Result E A × W) (w : W) {a : A}
      → (write_if_current env e read fn w).0 ≡ ok a
      → ((fn w).0 ≡ ok a) × ((write_if_current env e read fn w).1 ≡ (fn w).1)
  unfolding write_if_current
  compared-ok env e unreadable fn w h = cc
  compared-ok env e malformed fn w h = cc
  compared-ok env e (contents l) fn w h =
      elim (Bool-cases (not (l.runtime_id == env.runtime_id) || not (l.epoch == e.fencing_epoch))) [
        | inl stale ↦ absurd (cc (rw (stale, write_if_current) at h))
        | inr current ↦
            rw (current, write_if_current) (lift-ok (fn w) (rw (current, write_if_current) at h))
      ]

  pub fence-ok :
      (env : FenceEnv) (e : Envelope) (fn : W → Result E A × W) (w : W) {a : A}
      → (with_write_fence env e fn w).0 ≡ ok a
      → ((fn w).0 ≡ ok a) × ((with_write_fence env e fn w).1 ≡ (fn w).1)
  unfolding with_write_fence
  fence-ok env e fn w {a} h =
      ground (arith, compared-ok env e (env.read (lease_name e.service e.authority)) fn w {a = a})
