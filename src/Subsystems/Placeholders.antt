-- ===== src/Subsystems/Placeholders.antt =====
-- What an operation of the filesystem answers.
use linkspan.Base.{
  String, ◌≡◌, refl, ◌≢◌, ◌↔◌, inl, inr, Option, none, some, List, [], ◌∷◌, All, arith, eq_iff,
  ◌==◌, string_eq, Bool-cases,
}
use linkspan.Router.{Params, str}
use linkspan.Subsystems.Filesystem.{missing, placeholder_reply, not_implemented}

missing_iff :
    (params : List String) (given : Params)
    → (missing params given ≡ none) ↔ All (λ p. str given p ≢ "") params
unfolding missing
missing_iff [] given = ((λ e. tt), (λ a. refl))
missing_iff (p ∷ ps) given = elim (Bool-cases (str given p == "")) [
  | inl e ↦ ((λ q. cc (rw e at q)), (λ a. absurd (a.0 ((eq_iff (str given p) "").0 e))))
  | inr e ↦ (
    (λ q. ((λ z. ground (arith, eq_iff (str given p) "")), (missing_iff ps given).0 (rw e at q))),
    (λ a. rw e ((missing_iff ps given).1 a.1)),
  )
]

reply_iff :
    (name : String) (o : Option String) → ((placeholder_reply name o).status ≡ 501) ↔ (o ≡ none)
reply_iff name none = ((λ e. refl), (λ e. refl))
reply_iff name (some p) = ((λ e. ground (arith, e)), (λ e. cc))

-- An operation answers 501 exactly where each of its params is given, and changes nothing.
pub not_implemented_iff :
    {S : Type 0} (name : String) (params : List String) (given : Params) (s : S)
    → (((not_implemented name params given s).0.status ≡ 501) ↔ All (λ p. str given p ≢ "") params)
      × ((not_implemented name params given s).1 ≡ s)
unfolding not_implemented
not_implemented_iff name params given s =
    let r = reply_iff name (missing params given) in
    let m = missing_iff params given in (((λ e. m.0 (r.0 e)), (λ a. r.1 (m.1 a))), refl)
