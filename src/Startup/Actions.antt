-- ===== src/Startup/Actions.antt =====
-- main.go, actions: each action of a subsystem stands in the workflow's table behind the subsystem's name.
use Prim.Native.String
use Prim.Native.String.append
use text.Mathlib.TextLemmas.{append-nil}
use linkspan.Base.{
  String, ◌≡◌, ◌≢◌, refl, sym, ap, subst, ◌∙◌, inl, inr, false, Option, none, some, List, [], ◌∷◌,
  Map, lookup, insert, lookup-insert_self, lookup-insert_ne, arith, In, All, All-In, concat, eq_iff,
  ◌==◌, string_eq, Bool-cases,
}
use linkspan.Go.Strings.{contains_char, cut}
use linkspan.Go.Cutting.{cut-append}
use linkspan.Router.{Action}
use linkspan.Startup.Defs.{Subsystem, name_actions, all_actions}

abbrev pub dotted : String → String → String
dotted name action = concat (name ∷ "." ∷ action ∷ [])

cut-dotted :
    (name action : String)
    → contains_char 46 name ≡ false
    → cut 46 (dotted name action) ≡ some (name, String.◌++◌ action "")
unfolding concat
cut-dotted name action h =
    ap (λ s. cut 46 (String.◌++◌ name s))
      (append.cons "." "" (String.◌++◌ action "")
        ∙ ap (String.◌∷◌ ".") (append.nil (String.◌++◌ action "")))
    ∙ cut-append "." name (String.◌++◌ action "") h

abbrev parts : Option (String × String) → String × String
parts none = ("", "")
parts (some p) = p

dotted-injective :
    (a b x y : String)
    → contains_char 46 a ≡ false
    → contains_char 46 b ≡ false
    → dotted a x ≡ dotted b y
    → (a ≡ b) × (x ≡ y)
dotted-injective a b x y p q e =
    let same : (a, String.◌++◌ x "") ≡ (b, String.◌++◌ y "") =
      ap parts (sym (cut-dotted a x p) ∙ ap (cut 46) e ∙ cut-dotted b y q) in
    (
      ap (λ (r : String × String). r.0) same,
      sym (append-nil x) ∙ ap (λ (r : String × String). r.1) same ∙ append-nil y,
    )

-- What a table gives, and else what stood there before.
abbrev pub or_before : {A : Type 0} → Option A → Option A → Option A
or_before none before = before
or_before (some a) before = some a

-- Each key once, as in a Go map.
abbrev pub HasUniqueKeys : {A : Type 0} → Map A → Type 0
HasUniqueKeys [] = Unit
HasUniqueKeys ((key, a) ∷ more) = (lookup key more ≡ none) × HasUniqueKeys more

module _ {S : Type 0} where
  name_actions-others :
      (name other action : String) (actions out : Map (Action S))
      → contains_char 46 name ≡ false
      → contains_char 46 other ≡ false
      → other ≢ name
      → lookup (dotted other action) (name_actions name actions out)
        ≡ lookup (dotted other action) out
  unfolding name_actions
  name_actions-others name other action [] out p q n = refl
  name_actions-others name other action ((key, a) ∷ more) out p q n =
      name_actions-others name other action more (insert (dotted name key) a out) p q n
      ∙ lookup-insert_ne (dotted name key) (dotted other action) a out
          (λ e. n (sym (dotted-injective name other key action p q e).0))

  name_actions-own :
      (name action : String) (actions out : Map (Action S))
      → contains_char 46 name ≡ false
      → HasUniqueKeys actions
      → lookup (dotted name action) (name_actions name actions out)
        ≡ or_before (lookup action actions) (lookup (dotted name action) out)
  unfolding name_actions lookup
  name_actions-own name action [] out p u = refl
  name_actions-own name action ((key, a) ∷ more) out p u =
      name_actions-own name action more (insert (dotted name key) a out) p u.1
      ∙ elim (Bool-cases (key == action)) [
        | inl q ↦
            let same : key ≡ action = (eq_iff key action).0 q in
            let fresh : lookup action more ≡ none = subst (λ k. lookup k more ≡ none) same u.0 in
            rw (fresh, q)
              (ap (λ k. lookup (dotted name k) (insert (dotted name key) a out)) (sym same)
                ∙ lookup-insert_self (dotted name key) a out)
        | inr q ↦ rw q (
            ap (or_before (lookup action more)) (
              lookup-insert_ne (dotted name key) (dotted name action) a out (λ e. absurd (
                ground
                  (arith, eq_iff key action, q, (dotted-injective name name key action p p e).1)))))
      ]

  -- Names without a dot, each once, with tables whose keys stand once.
  abbrev pub IsOffer : List (Subsystem S) → Type 0
  IsOffer [] = Unit
  IsOffer (sub ∷ subs) =
      ((contains_char 46 sub.name ≡ false) × HasUniqueKeys sub.actions)
      × All (λ (other : Subsystem S). sub.name ≢ other.name) subs
      × IsOffer subs

  all_actions-others :
      (subs : List (Subsystem S)) (out : Map (Action S)) (name action : String)
      → IsOffer subs
      → contains_char 46 name ≡ false
      → All (λ (other : Subsystem S). name ≢ other.name) subs
      → lookup (dotted name action) (all_actions subs out) ≡ lookup (dotted name action) out
  unfolding all_actions
  all_actions-others [] out name action h p n = refl
  all_actions-others (sub ∷ subs) out name action h p n =
      all_actions-others subs (name_actions sub.name sub.actions out) name action h.2 p n.1
      ∙ name_actions-others sub.name name action sub.actions out h.0.0 p n.0

plain_of :
    {S : Type 0} (subs : List (Subsystem S)) (sub : Subsystem S)
    → IsOffer subs
    → In sub subs
    → contains_char 46 sub.name ≡ false
plain_of [] sub h i = elim i [ ]
plain_of {S} (first ∷ subs) sub h (inl e) =
    ap (λ (s : Subsystem S). contains_char 46 s.name) e ∙ h.0.0
plain_of (first ∷ subs) sub h (inr i) = plain_of subs sub h.2 i

-- Where the subsystems' names are different and have no dot, and each has every action once, the table
-- of the workflow's actions gives `name.action` exactly the action that this subsystem offers under
-- that key; a name that it does not offer keeps what the workflow itself has there: no subsystem's
-- action hides another's.
pub all_actions-found :
    {S : Type 0} (subs : List (Subsystem S)) (sub : Subsystem S) (out : Map (Action S))
    (action : String)
    → IsOffer subs
    → In sub subs
    → lookup (dotted sub.name action) (all_actions subs out)
      ≡ or_before (lookup action sub.actions) (lookup (dotted sub.name action) out)
unfolding all_actions
all_actions-found [] sub out action h i = elim i [ ]
all_actions-found {S} (first ∷ subs) sub out action h (inl e) =
    ap (λ (s : Subsystem S). lookup (dotted s.name action) (all_actions (first ∷ subs) out)) e
    ∙ all_actions-others subs (name_actions first.name first.actions out) first.name action h.2
        h.0.0 h.1
    ∙ name_actions-own first.name action first.actions out h.0.0 h.0.1
    ∙ ap
        (λ (s : Subsystem S).
          or_before (lookup action s.actions) (lookup (dotted s.name action) out))
        (sym e)
all_actions-found {S} (first ∷ subs) sub out action h (inr i) =
    all_actions-found subs sub (name_actions first.name first.actions out) action h.2 i
    ∙ ap (or_before (lookup action sub.actions)) (
        name_actions-others first.name sub.name action first.actions out h.0.0
          (plain_of subs sub h.2 i)
          (λ e. All-In (λ (other : Subsystem S). first.name ≢ other.name) sub subs h.1 i (sym e)))
