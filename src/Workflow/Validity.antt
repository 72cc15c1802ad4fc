-- ===== src/Workflow/Validity.antt =====
-- The triggers that Load accepts.
use linkspan.Base.{
  ℕ, ◌+◌, String, ◌≡◌, refl, ◌≢◌, true, Option, none, some, List, [], ◌∷◌, Map, lookup, ok, All,
  or_else, is_some, string_eq,
}
use linkspan.Router.{Action}
use linkspan.Workflow.Document.{
  Step, Trigger, BoundStep, BoundTrigger, is_moment, with_ref, load_step, load_steps, load_bound,
  load_trigger, load_triggers,
}

module _ {S : Type 0} (actions : Map (Action S)) where
  -- A step is known if an action has its name.
  abbrev pub KnownSteps : List Step → Type 0
  KnownSteps = All (λ s. is_some (lookup s.action actions) ≡ true)

  -- What makes a document valid.
  pub record IsValidTrigger (t : Trigger) : Type 0 where
    pub known_moment : is_moment (or_else t.on "start") ≡ true
    pub has_steps : t.steps ≢ []
    pub known_steps : KnownSteps t.steps

  load_step-known :
      (i : ℕ) (s : Step) (o : Option (Action S))
      → is_some o ≡ true
      → (b : BoundStep S) × (load_step actions i s o ≡ ok b)
  unfolding load_step
  load_step-known i s none h = cc
  load_step-known i s (some a) h = (record { step = with_ref s; perform = a }, refl)

  load_steps-known :
      (i : ℕ) (ss : List Step)
      → KnownSteps ss
      → (bs : List (BoundStep S)) × (load_steps actions i ss ≡ ok bs)
  unfolding load_steps
  load_steps-known i [] k = ([], refl)
  load_steps-known i (s ∷ ss) k =
      let (b, p) = load_step-known i s (lookup s.action actions) k.0 in
      let (bs, q) = load_steps-known i ss k.1 in (b ∷ bs, rw (p, q))

  load_bound-known :
      (i : ℕ) (on : String) (ss : List Step)
      → ss ≢ []
      → KnownSteps ss
      → (b : BoundTrigger S) × (load_bound actions i on ss ≡ ok b)
  unfolding load_bound
  load_bound-known i on [] n k = absurd (n refl)
  load_bound-known i on (s ∷ ss) n k =
      let (bs, p) = load_steps-known i (s ∷ ss) k in (record { moment = on; bound = bs }, rw p)

  pub load_triggers-valid :
      (i : ℕ) (ts : List Trigger)
      → All IsValidTrigger ts
      → (bs : List (BoundTrigger S)) × (load_triggers actions i ts ≡ ok bs)
  unfolding load_triggers load_trigger
  load_triggers-valid i [] v = ([], refl)
  load_triggers-valid i (t ∷ ts) v =
      let (b, p) =
        load_bound-known i (or_else t.on "start") t.steps v.0.has_steps v.0.known_steps in
      let (bs, q) = load_triggers-valid (i + 1) ts v.1 in (b ∷ bs, rw (v.0.known_moment, p, q))
