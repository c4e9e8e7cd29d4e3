-- ===== src/Kernel/Registry/Validity.antt =====
-- The invariant of the registry: health is exact, the circuit opens at three failures, all the
-- entries of a runtime agree, and only a healthy runtime holds a writer's lease.
use mathlib.Core.Option
use agent_native_os.Prelude.{
  ℕ, String, Bool, true, false, ◌≡◌, ◌≢◌, refl, sym, inl, inr, Option, none, some, ◌==◌,
  text_comparable, str_eq_iff, arith, if◌then◌else◌, Bool-cases, subst, ◌∙◌, All-imp,
}
use agent_native_os.Prelude.Int64.{incr, sle}
use agent_native_os.Prelude.Map.{lookup, lookup-map_values}
use agent_native_os.Kernel.Registry.State.{
  Provider, Key-Comparable, AuthorityKey, AuthorityKey-Comparable, WriterLease, Registry,
  AllProviders,
}
use agent_native_os.Kernel.Registry.Health.{
  is_healthy, touch, flagged, clear_lease, clear_writer, recompute_health, set_process, mark_health,
  set_dependencies, mark_dependency_health, fail_once, record_failure, succeed, record_success,
  miss_heartbeat, record_heartbeat_failure, beat, record_heartbeat_success,
}
use agent_native_os.Kernel.Registry.Touch.{AllProviders-touch, flagged-false, AllProviders-and}

-- What the health of a provider depends on.
pub record Flags : Type 0 where
  pub failure_count : ℕ
  pub heartbeat_failures : ℕ
  pub process_healthy : Bool
  pub dependencies_healthy : Bool
  pub circuit_open : Bool

abbrev pub flags_of : Provider → Flags
flags_of p = record {
  failure_count = p.failure_count;
  heartbeat_failures = p.heartbeat_failures;
  process_healthy = p.process_healthy;
  dependencies_healthy = p.dependencies_healthy;
  circuit_open = p.circuit_open;
}

-- `flags` says what is recorded of each runtime.
pub record IsSound (flags : String → Flags) (p : Provider) : Type 0 where
  pub tracked : flags_of p ≡ flags p.runtime_id
  pub exact : p.healthy ≡ is_healthy p
  pub tripped : sle 3 p.failure_count ≡ true → p.circuit_open ≡ true

-- Every entry of a runtime that holds the lease is healthy.
abbrev pub Holds : WriterLease → Registry → Type 0
Holds l r = l.runtime_id ≢ "" → AllProviders (λ p. p.runtime_id ≡ l.runtime_id → p.healthy ≡ true) r

pub record IsValid (r : Registry) : Type 0 where
  pub flags : String → Flags
  pub sound : AllProviders (IsSound flags) r
  pub writer : (ak : AuthorityKey) (l : WriterLease) → lookup ak r.writers ≡ some l → Holds l r

-- An update of one runtime's entries, `f` on providers and `g` on what is recorded.
pub record IsUpdate (f : Provider → Provider) (g : Flags → Flags) : Type 0 where
  pub runtime : (p : Provider) → (f p).runtime_id ≡ p.runtime_id
  pub tracks : (p : Provider) → flags_of (f p) ≡ g (flags_of p)
  pub exact : (p : Provider) → (f p).healthy ≡ is_healthy (f p)
  pub tripped :
      (p : Provider)
      → (sle 3 p.failure_count ≡ true → p.circuit_open ≡ true)
      → sle 3 (f p).failure_count ≡ true
      → (f p).circuit_open ≡ true

abbrev update_flags : String → (Flags → Flags) → (String → Flags) → String → Flags
update_flags runtime_id g flags x = if x == runtime_id then g (flags x) else flags x

module _ (runtime_id : String) {f : Provider → Provider} {g : Flags → Flags}
    (u : IsUpdate f g) where
  touch-IsSound :
      (flags : String → Flags) (r : Registry)
      → AllProviders (IsSound flags) r
      → AllProviders (IsSound (update_flags runtime_id g flags)) (touch runtime_id f r)
  touch-IsSound flags r h =
      AllProviders-touch runtime_id f r
        (λ p same s. record {
          tracked =
              u.tracks p ∙ rw (u.runtime p, (str_eq_iff p.runtime_id runtime_id).1 same, s.tracked);
          exact = u.exact p;
          tripped = u.tripped p s.tripped;
        })
        (λ p other s. record {
          tracked = ground (arith, s.tracked, str_eq_iff p.runtime_id runtime_id);
          exact = s.exact;
          tripped = s.tripped;
        })
        h

  -- The part of the invariant about leases, where no flag stands for the loss of health.
  touch-Holds :
      (flags : String → Flags) (r : Registry) (l : WriterLease)
      → AllProviders (IsSound flags) r
      → Holds l r
      → (l.runtime_id ≡ runtime_id
          → AllProviders
              (λ p. p.runtime_id ≡ runtime_id → p.healthy ≡ true → (f p).healthy ≡ true)
              r)
      → Holds l (touch runtime_id f r)
  touch-Holds flags r l s h keeps held = elim (Bool-cases (l.runtime_id == runtime_id)) [
    | inl same ↦
        let e = (str_eq_iff l.runtime_id runtime_id).0 same in
        AllProviders-touch runtime_id f r (λ p at q at'. q.1 at (q.0 (at ∙ sym e)))
          (λ p other q at'. absurd (other (at' ∙ e))) (AllProviders-and r (h held) (keeps e))
    | inr differ ↦
        AllProviders-touch runtime_id f r
          (λ p at q at'.
            absurd (cc ((str_eq_iff l.runtime_id runtime_id).1 (sym at' ∙ u.runtime p ∙ at))))
          (λ p other q at'. q at') (h held)
  ]

  cleared-Holds :
      (flags : String → Flags) (r : Registry) (old : WriterLease)
      → AllProviders (IsSound flags) r
      → Holds old r
      → Holds (clear_lease runtime_id old) (touch runtime_id f r)
  cleared-Holds flags r old s h = elim (Bool-cases (old.runtime_id == runtime_id)) [
    | inl same ↦ rw same (λ held. absurd (held refl))
    | inr differ ↦ rw differ (
        touch-Holds flags r old s h (λ e. absurd (cc ((str_eq_iff old.runtime_id runtime_id).1 e))))
  ]

  cleared-IsValid :
      (r : Registry) → IsValid r → IsValid (clear_writer runtime_id (touch runtime_id f r))
  unfolding clear_writer touch
  cleared-IsValid r v = record {
    flags = update_flags runtime_id g v.flags;
    sound = record { at_key = (touch-IsSound v.flags r v.sound).at_key };
    writer = λ ak l e held. record {
      at_key = (go ak l (lookup ak r.writers) refl (rw lookup-map_values at e) held).at_key;
    };
  }
    where
      go :
          (ak : AuthorityKey) (l : WriterLease) (found : Option WriterLease)
          → lookup ak r.writers ≡ found
          → Option.map (clear_lease runtime_id) found ≡ some l
          → Holds l (touch runtime_id f r)
      go ak l none e q = cc
      go ak l (some old) e q =
          let same : clear_lease runtime_id old ≡ l = cc in
          subst (λ x. Holds x (touch runtime_id f r)) same
            (cleared-Holds v.flags r old v.sound (v.writer ak old e))

  -- An update that clears the lease when its flag is up. `lost` is the flag's test.
  pub update-IsValid :
      (lost : Provider → Bool) (r : Registry)
      → ((p : Provider) → p.healthy ≡ true → lost p ≡ false → (f p).healthy ≡ true)
      → IsValid r
      → IsValid (
          if flagged runtime_id lost r
          then clear_writer runtime_id (touch runtime_id f r)
          else touch runtime_id f r)
  update-IsValid lost r safe v = elim (Bool-cases (flagged runtime_id lost r)) [
    | inl up ↦ rw up (cleared-IsValid r v)
    | inr down ↦ rw down (record {
      flags = update_flags runtime_id g v.flags;
      sound = touch-IsSound v.flags r v.sound;
      writer = λ ak l e.
          touch-Holds v.flags r l v.sound (v.writer ak l (unfold touch in e)) (λ same. record {
            at_key = λ k ps q.
                All-imp _ ps (λ p h at well. safe p well (h at))
                  ((flagged-false runtime_id lost r down).at_key k ps q);
          });
    })
  ]

  -- An update with no flag.
  pub gain-IsValid :
      (r : Registry)
      → ((p : Provider) → p.healthy ≡ is_healthy p → p.healthy ≡ true → (f p).healthy ≡ true)
      → IsValid r
      → IsValid (touch runtime_id f r)
  gain-IsValid r safe v = record {
    flags = update_flags runtime_id g v.flags;
    sound = touch-IsSound v.flags r v.sound;
    writer = λ ak l e. touch-Holds v.flags r l v.sound (v.writer ak l (unfold touch in e)) (λ same.
        record {
          at_key =
              λ k ps q. All-imp _ ps (λ p s at well. safe p s.exact well) (v.sound.at_key k ps q);
        });
  }

-- The five updates.
set_process-IsUpdate : (b : Bool) → IsUpdate (set_process b) (λ x. record x { process_healthy = b })
unfolding recompute_health
set_process-IsUpdate b = record {
  runtime = λ p. refl;
  tracks = λ p. refl;
  exact = λ p. refl;
  tripped = λ p h. h;
}

set_dependencies-IsUpdate :
    (b : Bool) → IsUpdate (set_dependencies b) (λ x. record x { dependencies_healthy = b })
unfolding recompute_health
set_dependencies-IsUpdate b = record {
  runtime = λ p. refl;
  tracks = λ p. refl;
  exact = λ p. refl;
  tripped = λ p h. h;
}

abbrev fail_flags : Flags → Flags
fail_flags x = record x {
  failure_count = incr x.failure_count;
  circuit_open = if sle 3 (incr x.failure_count) then true else x.circuit_open;
}

fail_once-IsUpdate : IsUpdate fail_once fail_flags
unfolding recompute_health
fail_once-IsUpdate = record {
  runtime = λ p. refl;
  tracks = λ p. refl;
  exact = λ p. refl;
  tripped = λ p h e. rw e;
}

succeed-IsUpdate : IsUpdate succeed (λ x. record x { failure_count = 0; circuit_open = false })
unfolding recompute_health
succeed-IsUpdate = record {
  runtime = λ p. refl;
  tracks = λ p. refl;
  exact = λ p. refl;
  tripped = λ p h e. cc;
}

miss_heartbeat-IsUpdate :
    IsUpdate miss_heartbeat (λ x. record x { heartbeat_failures = incr x.heartbeat_failures })
unfolding recompute_health
miss_heartbeat-IsUpdate = record {
  runtime = λ p. refl;
  tracks = λ p. refl;
  exact = λ p. refl;
  tripped = λ p h. h;
}

beat-IsUpdate : IsUpdate beat (λ x. record x { heartbeat_failures = 0 })
unfolding recompute_health
beat-IsUpdate = record {
  runtime = λ p. refl;
  tracks = λ p. refl;
  exact = λ p. refl;
  tripped = λ p h. h;
}

pub mark_health-IsValid :
    (runtime_id : String) (b : Bool) (r : Registry)
    → IsValid r
    → IsValid (mark_health runtime_id b r)
unfolding mark_health
mark_health-IsValid runtime_id b r v =
    update-IsValid runtime_id (set_process-IsUpdate b) _ r (λ p h e. ground arith) v

pub mark_dependency_health-IsValid :
    (runtime_id : String) (b : Bool) (r : Registry)
    → IsValid r
    → IsValid (mark_dependency_health runtime_id b r).0
unfolding mark_dependency_health
mark_dependency_health-IsValid runtime_id b r v =
    update-IsValid runtime_id (set_dependencies-IsUpdate b) _ r (λ p h e. ground arith) v

pub record_failure-IsValid :
    (runtime_id : String) (r : Registry) → IsValid r → IsValid (record_failure runtime_id r)
unfolding record_failure
record_failure-IsValid runtime_id r v =
    update-IsValid runtime_id fail_once-IsUpdate _ r (λ p h e. ground arith) v

pub record_success-IsValid :
    (runtime_id : String) (r : Registry) → IsValid r → IsValid (record_success runtime_id r)
unfolding record_success
record_success-IsValid runtime_id r v =
    gain-IsValid runtime_id succeed-IsUpdate r
      (λ p e h. unfold recompute_health in ground (arith, e)) v

pub record_heartbeat_failure-IsValid :
    (runtime_id : String) (r : Registry)
    → IsValid r
    → IsValid (record_heartbeat_failure runtime_id r)
unfolding record_heartbeat_failure
record_heartbeat_failure-IsValid runtime_id r v =
    update-IsValid runtime_id miss_heartbeat-IsUpdate _ r (λ p h e. ground arith) v

pub record_heartbeat_success-IsValid :
    (runtime_id : String) (r : Registry)
    → IsValid r
    → IsValid (record_heartbeat_success runtime_id r)
unfolding record_heartbeat_success
record_heartbeat_success-IsValid runtime_id r v =
    gain-IsValid runtime_id beat-IsUpdate r (λ p e h. unfold recompute_health in ground (arith, e))
      v
