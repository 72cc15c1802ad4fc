-- ===== src/Startup/Offers.antt =====
-- main.go, actions: the table that the workflow's document is bound with, of the subsystems of main.go.
use linkspan.Base.{
  String, ◌≡◌, ◌≢◌, refl, sym, ap, ◌∙◌, false, some, In, lookup, eq_iff, ◌==◌, string_eq,
}
use linkspan.Go.Strings.{contains_char}
use linkspan.Router.{Action}
use linkspan.Subsystems.Checkpoint.{Site}
use linkspan.Subsystems.Resume as Resume
use linkspan.Subsystems.Filesystem
use linkspan.Subsystems.Jupyter
use linkspan.Subsystems.Terminal
use linkspan.Subsystems.Vscode
use linkspan.Startup.Defs.{Subsystem}
use linkspan.Startup.Tree.{NodeAnswers, on_site_each, workflow_actions, subsystems, workflow_table}
use linkspan.Startup.Actions.{dotted, or_before, IsOffer, all_actions-found}

ne_of : {a b : String} → (a == b) ≡ false → a ≢ b
ne_of {a} {b} h e = cc (sym h ∙ (eq_iff a b).1 e)

-- The names of the subsystems are different and have no dot, and each has an action once.
subsystems-IsOffer : (n : NodeAnswers) → IsOffer (subsystems n)
unfolding contains_char lookup subsystems Vscode.actions Jupyter.actions Terminal.actions
    Filesystem.actions Resume.actions
subsystems-IsOffer n = (
  (refl, tt),
  (ne_of refl, (ne_of refl, (ne_of refl, (ne_of refl, (ne_of refl, tt))))),
  (
    (refl, (refl, (refl, tt))),
    (ne_of refl, (ne_of refl, (ne_of refl, (ne_of refl, tt)))),
    (
      (refl, (refl, (refl, (refl, (refl, tt))))),
      (ne_of refl, (ne_of refl, (ne_of refl, tt))),
      (
        (refl, (refl, (refl, (refl, tt)))),
        (ne_of refl, (ne_of refl, tt)),
        (
          (refl, (refl, (refl, (refl, (refl, tt))))),
          (ne_of refl, tt),
          ((refl, (refl, (refl, tt))), tt, tt),
        ),
      ),
    ),
  ),
)

-- A step of the workflow that names an action of a subsystem, with a dot between, gets the action that the
-- subsystem of main.go offers under that key, and no other one.
pub workflow_table-found :
    (n : NodeAnswers) (sub : Subsystem Site) (name : String) (c : Action Site)
    → In sub (subsystems n)
    → lookup name sub.actions ≡ some c
    → lookup (dotted sub.name name) (workflow_table n) ≡ some c
unfolding workflow_table
workflow_table-found n sub name c i e =
    all_actions-found (subsystems n) sub (on_site_each (workflow_actions n)) name
      (subsystems-IsOffer n) i
    ∙ ap (λ o. or_before o (lookup (dotted sub.name name) (on_site_each (workflow_actions n)))) e
