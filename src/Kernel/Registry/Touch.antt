-- ===== src/Kernel/Registry/Touch.antt =====
-- The loops over all providers of the registry: what they keep, and what their flags say.
use mathlib.Core.Option
use agent_native_os.Prelude.{
  String, Bool, false, ◌≡◌, ◌≢◌, refl, inl, inr, Option, none, some, List, [], ◌∷◌, ◌++◌, map, ◌==◌,
  text_comparable, str_eq_iff, any, All, arith, Bool-cases, eq_of_==, subst, All-imp, All-and,
}
use agent_native_os.Prelude.Map.{Map, lookup, values, lookup-map_values}
use agent_native_os.Kernel.Registry.State.{
  Provider, Key, Key-Comparable, AuthorityKey, AuthorityKey-Comparable, Registry, AllProviders,
}
use agent_native_os.Kernel.Registry.Health.{
  touch, on_runtime, flagged, flatten, clear_lease, clear_writer,
}

module _ {P Q : Provider → Type 0} (runtime_id : String) (f : Provider → Provider) where
  All-on_runtime :
      ((p : Provider) → p.runtime_id ≡ runtime_id → P p → Q (f p))
      → ((p : Provider) → p.runtime_id ≢ runtime_id → P p → Q p)
      → (ps : List Provider) → All P ps
      → All Q (map (on_runtime runtime_id f) ps)
  All-on_runtime hit miss [] h = tt
  All-on_runtime hit miss (p ∷ ps) h = (
    elim (Bool-cases (p.runtime_id == runtime_id)) [
      | inl e ↦ rw e (hit p (eq_of_== _ _ e) h.0)
      | inr e ↦ rw e (miss p (λ q. cc ((str_eq_iff p.runtime_id runtime_id).1 q)) h.0)
    ],
    All-on_runtime hit miss ps h.1,
  )

  -- A loop that updates the providers of one runtime.
  pub AllProviders-touch :
      (r : Registry)
      → ((p : Provider) → p.runtime_id ≡ runtime_id → P p → Q (f p))
      → ((p : Provider) → p.runtime_id ≢ runtime_id → P p → Q p)
      → AllProviders P r
      → AllProviders Q (touch runtime_id f r)
  unfolding touch
  AllProviders-touch r hit miss h = record {
    at_key = λ k ps e. go k ps (lookup k r.providers) refl (rw lookup-map_values at e);
  }
    where
      go :
          (k : Key) (ps : List Provider) (found : Option (List Provider))
          → lookup k r.providers ≡ found
          → Option.map (map (on_runtime runtime_id f)) found ≡ some ps
          → All Q ps
      go k ps none e q = cc
      go k ps (some old) e q = subst (All Q) (cc q) (All-on_runtime hit miss old (h.at_key k old e))

All-of_any :
    {A : Type 0} (test : A → Bool) (xs : List A)
    → any test xs ≡ false
    → All (λ x. test x ≡ false) xs
All-of_any test [] e = tt
All-of_any test (x ∷ xs) e = (ground arith, All-of_any test xs (ground arith))

any_append :
    {A : Type 0} (test : A → Bool) (xs ys : List A)
    → any test (xs ++ ys) ≡ false
    → (any test xs ≡ false) × (any test ys ≡ false)
any_append test [] ys e = (refl, e)
any_append test (x ∷ xs) ys e = ground (arith, any_append test xs ys)

any_at :
    (test : Provider → Bool) (k : Key) (m : Map Key (List Provider)) (ps : List Provider)
    → any test (flatten (values m)) ≡ false
    → lookup k m ≡ some ps
    → any test ps ≡ false
unfolding flatten values lookup
any_at test k [] ps e q = cc
any_at test k ((j, qs) ∷ m) ps e q =
    let (here, later) = any_append test qs (flatten (values m)) e in
    elim (Bool-cases (j == k)) [
      | inl hit ↦ subst (λ x. any test x ≡ false) (cc (rw hit at q)) here
      | inr miss ↦ any_at test k m ps later (rw miss at q)
    ]

-- A flag that is down: no provider of the runtime passes the test.
pub flagged-false :
    (runtime_id : String) (test : Provider → Bool) (r : Registry)
    → flagged runtime_id test r ≡ false
    → AllProviders (λ p. p.runtime_id ≡ runtime_id → test p ≡ false) r
unfolding flagged
flagged-false runtime_id test r e = record {
  at_key = λ k ps q.
      All-imp _ ps (λ p h same. ground (arith, h, str_eq_iff p.runtime_id runtime_id))
        (All-of_any _ ps (any_at _ k r.providers ps e q));
}

-- The lease that an authority has after the leases of a runtime are cleared.
pub lookup-clear_writer :
    (runtime_id : String) (ak : AuthorityKey) (r : Registry)
    → lookup ak (clear_writer runtime_id r).writers
      ≡ Option.map (clear_lease runtime_id) (lookup ak r.writers)
unfolding clear_writer
lookup-clear_writer runtime_id ak r = lookup-map_values _ ak r.writers

pub AllProviders-and :
    {P Q : Provider → Type 0} (r : Registry)
    → AllProviders P r
    → AllProviders Q r
    → AllProviders (λ p. P p × Q p) r
AllProviders-and r h k = record {
  at_key = λ key ps e. All-and _ _ ps (h.at_key key ps e) (k.at_key key ps e);
}
