-- ===== src/Workflow/Binding.antt =====
-- What Load makes of a step and a trigger: each step bound to the action of its name.
use linkspan.Base.{
  ℕ, ◌+◌, String, ◌≡◌, refl, ◌≢◌, ◌⊎◌, inl, inr, true, Option, none, some, List, [], ◌∷◌, Map,
  lookup, lookup-insert, arith, Result, ok, err, ◌>>=◌, eq_iff, or_else, subst, string_eq,
  Bool-cases,
}
use linkspan.Base.Json.{text}
use linkspan.Router.{Action, str}
use linkspan.Workflow.Document.{
  Step, Trigger, BoundStep, BoundTrigger, is_moment, with_ref, load_step, load_steps, load_bound,
  load_trigger, load_triggers,
}

-- What a chain that succeeds has passed.
through {ℓ κ} :
    {X : Type ℓ} {Y : Type κ} (first : Result X) (next : X → Result Y) {y : Y}
    → (first >>= next) ≡ ok y
    → (x : X) × (first ≡ ok x) × (next x ≡ ok y)
through (err message) next passed = cc
through (ok x) next passed = (x, refl, passed)

module _ {S : Type 0} (actions : Map (Action S)) where
  -- The step `b` is `s` bound: its action is the one of that name, and its params are the document's
  -- with the ref added.
  pub record StepLoads (s : Step) (b : BoundStep S) : Type 0 where
    pub found : lookup s.action actions ≡ some b.perform
    pub same_name : b.step.name ≡ s.name
    pub same_action : b.step.action ≡ s.action
    pub ref_given : s.ref ≢ "" → str b.step.params "ref" ≡ s.ref
    pub others :
        (key : String)
        → (key ≢ "ref") ⊎ (s.ref ≡ "")
        → lookup key b.step.params ≡ lookup key s.params

  abbrev pub StepsLoad : List Step → List (BoundStep S) → Type 0
  StepsLoad [] [] = Unit
  StepsLoad [] (b ∷ bs) = ⊥
  StepsLoad (s ∷ ss) [] = ⊥
  StepsLoad (s ∷ ss) (b ∷ bs) = StepLoads s b × StepsLoad ss bs

  -- The trigger `b` is `t` bound: its moment is t's, start where t names none, and known; it has steps,
  -- each bound.
  pub record TriggerLoads (t : Trigger) (b : BoundTrigger S) : Type 0 where
    pub moment_of : b.moment ≡ or_else t.on "start"
    pub known : is_moment b.moment ≡ true
    pub some_steps : t.steps ≢ []
    pub steps_load : StepsLoad t.steps b.bound

  abbrev pub TriggersLoad : List Trigger → List (BoundTrigger S) → Type 0
  TriggersLoad [] [] = Unit
  TriggersLoad [] (b ∷ bs) = ⊥
  TriggersLoad (t ∷ ts) [] = ⊥
  TriggersLoad (t ∷ ts) (b ∷ bs) = TriggerLoads t b × TriggersLoad ts bs

  with_ref-StepLoads :
      (s : Step) (a : Action S)
      → lookup s.action actions ≡ some a
      → StepLoads s (record { step = with_ref s; perform = a })
  unfolding with_ref str
  with_ref-StepLoads s a e = record {
    found = e;
    same_name = ground arith;
    same_action = ground arith;
    ref_given = λ n. ground (
      arith,
      eq_iff s.ref "",
      eq_iff "ref" "ref",
      lookup-insert "ref" "ref" (text s.ref) s.params,
    );
    others = λ key h.
        ground
          (arith, eq_iff s.ref "", eq_iff "ref" key, lookup-insert "ref" key (text s.ref) s.params);
  }

  load_step-StepLoads :
      (i : ℕ) (s : Step) (o : Option (Action S)) (b : BoundStep S)
      → lookup s.action actions ≡ o
      → load_step actions i s o ≡ ok b
      → StepLoads s b
  unfolding load_step
  load_step-StepLoads i s none b q e = cc
  load_step-StepLoads i s (some a) b q e =
      let same : record { step = with_ref s; perform = a } ≡ b = cc in
      subst (StepLoads s) same (with_ref-StepLoads s a q)

  load_steps-StepsLoad :
      (i : ℕ) (ss : List Step) (bs : List (BoundStep S))
      → load_steps actions i ss ≡ ok bs
      → StepsLoad ss bs
  unfolding load_steps
  load_steps-StepsLoad i [] [] e = tt
  load_steps-StepsLoad i [] (b ∷ bs) e = cc
  load_steps-StepsLoad i (s ∷ ss) bs e =
      let (b, p, q) = through (load_step actions i s (lookup s.action actions)) _ e in
      let (rest, r, last) = through (load_steps actions i ss) _ q in
      let same : b ∷ rest ≡ bs = cc in
      subst (StepsLoad (s ∷ ss)) same (
        load_step-StepLoads i s (lookup s.action actions) b refl p,
        load_steps-StepsLoad i ss rest r,
      )

  load_bound-TriggerLoads :
      (i : ℕ) (t : Trigger) (on : String) (ss : List Step) (b : BoundTrigger S)
      → t.steps ≡ ss
      → on ≡ or_else t.on "start"
      → is_moment on ≡ true
      → load_bound actions i on ss ≡ ok b
      → TriggerLoads t b
  unfolding load_bound
  load_bound-TriggerLoads i t on [] b q o m e = cc
  load_bound-TriggerLoads i t on (s ∷ ss) b q o m e =
      let (bs, p, last) = through (load_steps actions i (s ∷ ss)) _ e in
      let same : record { moment = on; bound = bs } ≡ b = cc in
      subst (TriggerLoads t) same (record {
        moment_of = o;
        known = m;
        some_steps = λ n. cc;
        steps_load = rw q (load_steps-StepsLoad i (s ∷ ss) bs p);
      })

  load_trigger-TriggerLoads :
      (i : ℕ) (t : Trigger) (b : BoundTrigger S)
      → load_trigger actions i t ≡ ok b
      → TriggerLoads t b
  unfolding load_trigger
  load_trigger-TriggerLoads i t b e = elim (Bool-cases (is_moment (or_else t.on "start"))) [
    | inl m ↦ load_bound-TriggerLoads i t (or_else t.on "start") t.steps b refl refl m (rw m at e)
    | inr m ↦ cc (rw m at e)
  ]

  pub load_triggers-TriggersLoad :
      (i : ℕ) (ts : List Trigger) (bs : List (BoundTrigger S))
      → load_triggers actions i ts ≡ ok bs
      → TriggersLoad ts bs
  unfolding load_triggers
  load_triggers-TriggersLoad i [] [] e = tt
  load_triggers-TriggersLoad i [] (b ∷ bs) e = cc
  load_triggers-TriggersLoad i (t ∷ ts) bs e =
      let (b, p, q) = through (load_trigger actions i t) _ e in
      let (rest, r, last) = through (load_triggers actions (i + 1) ts) _ q in
      let same : b ∷ rest ≡ bs = cc in
      subst (TriggersLoad (t ∷ ts)) same
        (load_trigger-TriggerLoads i t b p, load_triggers-TriggersLoad (i + 1) ts rest r)
