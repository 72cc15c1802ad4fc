-- ===== src/Workflow/Loading.antt =====
-- Load accepts exactly the valid documents, and binds each step to its action.
use linkspan.Base.{
  String, ◌≡◌, refl, ◌≢◌, none, some, List, [], ◌∷◌, Map, arith, Result, ok, err, All, string_eq,
}
use linkspan.Router.{Action}
use linkspan.Workflow.Document.{Trigger, BoundTrigger, load_tasks, document, assign, load}
use linkspan.Workflow.Binding.{TriggersLoad, load_triggers-TriggersLoad}
use linkspan.Workflow.Validity.{IsValidTrigger, load_triggers-valid}

module _ {S : Type 0} (actions : Map (Action S)) where
  load_tasks-TriggersLoad :
      (doc : List Trigger) (bs : List (BoundTrigger S))
      → load_tasks actions doc ≡ ok bs
      → (doc ≢ []) × TriggersLoad actions doc bs
  unfolding load_tasks
  load_tasks-TriggersLoad [] bs e = cc
  load_tasks-TriggersLoad (t ∷ ts) bs e =
      (λ n. cc, load_triggers-TriggersLoad actions 1 (t ∷ ts) bs e)

  load_tasks-valid :
      (doc : List Trigger)
      → doc ≢ []
      → All (IsValidTrigger actions) doc
      → (bs : List (BoundTrigger S)) × (load_tasks actions doc ≡ ok bs)
  unfolding load_tasks
  load_tasks-valid [] n v = absurd (n refl)
  load_tasks-valid (t ∷ ts) n v = load_triggers-valid actions 1 (t ∷ ts) v

  assign-none :
      (r : Result (List (BoundTrigger S))) (loaded : List (BoundTrigger S))
      → (assign r loaded).0 ≡ none
      → r ≡ ok (assign r loaded).1
  unfolding assign
  assign-none (ok all) loaded e = refl
  assign-none (err x) loaded e = cc

  module _ (file : String) (doc : List Trigger) (decode : String → Result (List Trigger))
      (loaded : List (BoundTrigger S)) (decodes : decode file ≡ ok doc) where
    load-tasks : load actions (ok file) decode loaded ≡ assign (load_tasks actions doc) loaded
    unfolding load document
    load-tasks = rw decodes

    -- A file that decodes to a document which is not empty, and whose every trigger has a known
    -- moment, at least one step, and only known actions, is loaded without an error.
    pub load-valid :
        doc ≢ []
        → All (IsValidTrigger actions) doc
        → (load actions (ok file) decode loaded).0 ≡ none
    unfolding assign
    load-valid n v = let (bs, p) = load_tasks-valid doc n v in rw (load-tasks, p)

    -- A load without an error has bound every trigger and every step of the document, in order: each
    -- moment is known, each trigger has steps, each step has the action of its name and its params
    -- with the ref.
    pub load-TriggersLoad :
        (load actions (ok file) decode loaded).0 ≡ none
        → (doc ≢ []) × TriggersLoad actions doc (load actions (ok file) decode loaded).1
    load-TriggersLoad e = rw load-tasks (
        load_tasks-TriggersLoad doc _
          (assign-none (load_tasks actions doc) loaded (rw load-tasks at e)))

  -- A load with an error leaves the document that was loaded before.
  pub load-refused :
      (read : Result String) (decode : String → Result (List Trigger))
      (loaded : List (BoundTrigger S)) (e : String)
      → (load actions read decode loaded).0 ≡ some e
      → (load actions read decode loaded).1 ≡ loaded
  unfolding load assign
  load-refused read decode loaded e p = ground arith
