-- ===== src/Plugins/EngineeringWorkflow/Ledger.antt =====
-- The capabilities of plugins/engineering-workflow/pipeline.go with a ledger beside their world, which
-- holds what each call that counts was asked and has answered, the last call first.
use agent_native_os.Prelude.{ℕ, String, ◌≡◌, ◌∙◌, refl, sym, ap, subst, List, [], ◌∷◌}
use agent_native_os.Prelude.Result.{Result, ok, err}
use agent_native_os.Plugins.EngineeringWorkflow.Gate.{ReviewState}
use agent_native_os.Plugins.EngineeringWorkflow.Caps.{
  Caps, EvItem, Fault, RunResult, Run, Failure, Step, proceed, checked, call, ◌>>=◌, done_with,
  noted,
}

-- The arguments of a call, and its answer.
pub data Entry : Type 0 where
  got : String → String → ℕ → Entry
  placed : String → String → String → String → Entry
  moved : String → String → ℕ → ℕ → Entry
  collected : String → String → String → Entry
  ran : String → String → String → List String → String × String → Entry
  asked : String → String → String → List EvItem → String → Entry
  reviewed : String → ReviewState → Entry

-- The entries stand in the ledger, in this order, with others between them.
pub data IsPartOf : List Entry → List Entry → Type 0 where
  nothing : IsPartOf [] []
  skipped : {x : Entry} {xs l : List Entry} → IsPartOf xs l → IsPartOf xs (x ∷ l)
  taken : {x : Entry} {xs l : List Entry} → IsPartOf xs l → IsPartOf (x ∷ xs) (x ∷ l)

pub dropped : {x : Entry} {xs l : List Entry} → IsPartOf (x ∷ xs) l → IsPartOf xs l
dropped (skipped p) = skipped (dropped p)
dropped (taken p) = skipped p

abbrev pub Book : Type 0 → Type 0
Book W = W × List Entry

module _ {W : Type 0} where
  abbrev pub entered :
      {A : Type 0} → (A → Entry) → Result String A × W → List Entry → Result String A × Book W
  entered e (ok a, w) l = (ok a, (w, e a ∷ l))
  entered e (err x, w) l = (err x, (w, l))

  -- A call whose answer, if it is not an error, is entered, and one that is not entered.
  abbrev pub noting :
      {A : Type 0} → (A → Entry) → (W → Result String A × W) → Book W → Result String A × Book W
  noting e f (w, l) = entered e (f w) l

  abbrev pub beside : {A : Type 0} → (W → A × W) → Book W → A × Book W
  beside f (w, l) = ((f w).0, ((f w).1, l))

  abbrev pub logged : Caps W → Caps (Book W)
  logged c = record {
    work_get = λ task. noting (λ a. got task a.1.0 a.1.1) (c.work_get task);
    work_transition =
        λ wc to version. noting (moved wc to version) (c.work_transition wc to version);
    workspace_alloc = λ wc base. noting (λ a. placed wc base a.0 a.1) (c.workspace_alloc wc base);
    workspace_release = λ id policy. beside (c.workspace_release id policy);
    agent_run =
        λ provider wc path prompt file text. beside (c.agent_run provider wc path prompt file text);
    collect_diff = λ wc path. noting (λ a. collected wc path a.0) (c.collect_diff wc path);
    tool_run =
        λ wc path label argv. noting (ran wc path label argv) (c.tool_run wc path label argv);
    attach_evidence = λ wc label cap id outcome. beside (c.attach_evidence wc label cap id outcome);
    review_request =
        λ wc run diff items. noting (asked wc run diff items) (c.review_request wc run diff items);
    review_get = λ review. noting (reviewed review) (c.review_get review);
    session_seal = λ wc run path. beside (c.session_seal wc run path);
    append_event = λ e. beside (c.append_event e);
    sleep = λ ms b. (c.sleep ms b.0, b.1);
    expired = λ b. c.expired b.0;
  }

  -- If a step gives a result, the result and the ledger are as `P` says, from any ledger that holds the
  -- entries.
  pub record Ends {A : Type 0} (xs : List Entry) (m : Step (Book W) A) (P : A → List Entry → Type 0)
      : Type 0 where
    pub holds :
        (r : Run (Book W)) (a : A) → IsPartOf xs r.world.1 → (m r).0 ≡ ok a → P a (m r).1.world.1

  -- A step that loses nothing that the ledger holds.
  abbrev pub Keeps : {A : Type 0} → Step (Book W) A → Type 0
  Keeps {A = A} m = (xs : List Entry) → Ends xs m (λ _ l. IsPartOf xs l)

  pub proceed-ok :
      {A B : Type 0} (o : Result Failure A × Run (Book W)) (f : A → Step (Book W) B) {b : B}
      → (proceed o f).0 ≡ ok b
      → (a : A) × (o.0 ≡ ok a) × (proceed o f ≡ f a o.1)
  unfolding proceed
  proceed-ok (ok a, r) f e = (a, refl, refl)
  proceed-ok (err x, r) f e = cc

  -- What `m` adds is there for the rest.
  pub knowing :
      {A B : Type 0} (P : B → List Entry → Type 0) (Q : A → Type 0) (xs : List Entry)
      (ys : A → List Entry) (m : Step (Book W) A) (f : A → Step (Book W) B)
      → Ends xs m (λ a l. Q a × IsPartOf (ys a) l)
      → ((a : A) → Q a → Ends (ys a) (f a) P)
      → Ends xs (m >>= f) P
  knowing P Q xs ys m f first next = record {
    holds = λ r b known e.
        let (a, now, runs) = proceed-ok (m r) f e in
        let (fact, held) = first.holds r a known now in
        subst (λ o. P b o.1.world.1) (sym runs)
          ((next a fact).holds (m r).1 b held (sym (ap (λ o. o.0) runs) ∙ e));
  }

  pub telling :
      {A B : Type 0} (P : B → List Entry → Type 0) (xs : List Entry) (e : A → Entry)
      (m : Step (Book W) A) (f : A → Step (Book W) B)
      → Ends xs m (λ a l. IsPartOf (e a ∷ xs) l)
      → ((a : A) → Ends (e a ∷ xs) (f a) P)
      → Ends xs (m >>= f) P
  telling P xs e m f first next =
      knowing P (λ _. Unit {0}) xs (λ a. e a ∷ xs) m f
        (record { holds = λ r a known h. (tt, first.holds r a known h) }) (λ a _. next a)

  pub passing :
      {A B : Type 0} (P : B → List Entry → Type 0) (xs : List Entry) (m : Step (Book W) A)
      (f : A → Step (Book W) B)
      → Keeps m
      → ((a : A) → Ends xs (f a) P)
      → Ends xs (m >>= f) P
  passing P xs m f first next =
      knowing P (λ _. Unit {0}) xs (λ _. xs) m f
        (record { holds = λ r a known h. (tt, (first xs).holds r a known h) }) (λ a _. next a)

  pub checked-ok :
      {A : Type 0} (fault : Fault) (text : String → String) (o : Result String A × Book W)
      (res : RunResult) {a : A}
      → (checked fault text o res).0 ≡ ok a
      → (o.0 ≡ ok a) × ((checked fault text o res).1.world ≡ o.1)
  unfolding checked
  checked-ok fault text (ok a, w) res e = (cc, refl)
  checked-ok fault text (err x, w) res e = cc

  entered-ok :
      {A : Type 0} (e : A → Entry) (o : Result String A × W) (l : List Entry) {a : A}
      → (entered e o l).0 ≡ ok a
      → (entered e o l).1.1 ≡ e a ∷ l
  entered-ok e (ok b, w) l h = cc
  entered-ok e (err x, w) l h = cc

  pub call-Ends :
      {A : Type 0} (xs : List Entry) (fault : Fault) (text : String → String) (e : A → Entry)
      (f : W → Result String A × W)
      → Ends xs (call fault text (noting e f)) (λ a l. IsPartOf (e a ∷ xs) l)
  call-Ends xs fault text e f = record {
    holds = λ r a known h.
        let (answer, world) = checked-ok fault text (noting e f r.world) r.res h in
        subst (IsPartOf (e a ∷ xs))
          (sym (ap (λ b. b.1) world ∙ entered-ok e (f r.world.0) r.world.1 answer)) (taken known);
  }

  pub noted-world :
      (res : RunResult) (o : Result String String × Book W) → (noted res o).world ≡ o.1
  noted-world res (ok id, w) = refl
  noted-world res (err e, w) = refl

  pub returning :
      {A : Type 0} (P : A → List Entry → Type 0) (xs : List Entry) (a : A)
      → ((l : List Entry) → IsPartOf xs l → P a l)
      → Ends xs (done_with a) P
  returning P xs a told = record {
    holds = λ r b known e.
        let same : a ≡ b = cc in subst (λ x. P x r.world.1) same (told r.world.1 known);
  }
