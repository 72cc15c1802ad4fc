-- ===== src/Go/Setting.antt =====
-- Package flag: an argument `--name=value` sets the flag of that name.
use Prim.Native.Char.{Char, code}
use Prim.Native.String
use Prim.Native.String.append
use text.Mathlib.TextLemmas.{append-nil, cons-ne-nil}
use linkspan.Base.{
  ◌≢◌, String, All, map, inl, inr, Option-cases, ◌≡◌, refl, sym, ap, ◌∙◌, false, Option, none, some,
  List, [], ◌∷◌, ◌++◌, Map, lookup, concat, arith, nat_eq, string_eq, nat_beq, ◌==◌, eq_iff,
}
use mathlib.Core.List
use linkspan.Go.Strings.{contains_char, cut}
use linkspan.Go.Cutting.{cut-append}
use linkspan.Go.Flags.{flag, argument, named, behind_dash, name_value}
use linkspan.Go.Commands.{Flag, refused, failed, set_flag, parse_one, parse_args}

abbrev pub option_of : String → String → String
option_of name value = concat ("--" ∷ name ∷ "=" ∷ value ∷ [])

-- A name that a flag can have: not empty, no "=", and no "-" in front.
abbrev pub IsName : String → Type 0
unfolding contains_char
IsName String.[] = ⊥
IsName (String.◌∷◌ c s) =
    (nat_beq (code c) 45 ≡ false) × (contains_char 61 (String.◌∷◌ c s) ≡ false)

option_of-dashes :
    (name value : String)
    → option_of name value
      ≡ String.◌∷◌ "-" (String.◌∷◌ "-" (String.◌++◌ name (String.◌∷◌ "=" value)))
unfolding concat
option_of-dashes name value =
    append.cons "-" "-" _
    ∙ ap (String.◌∷◌ "-") (
        append.cons "-" "" _
        ∙ ap (String.◌∷◌ "-") (
            append.nil _
            ∙ ap (String.◌++◌ name)
                (append.cons "=" "" _ ∙ ap (String.◌∷◌ "=") (append.nil _ ∙ append-nil value))))

argument-cut :
    (c : Char) (t a b : String)
    → nat_beq (code c) 45 ≡ false
    → nat_beq (code c) 61 ≡ false
    → cut 61 (String.◌∷◌ c t) ≡ some (a, b)
    → argument (String.◌∷◌ "-" (String.◌∷◌ "-" (String.◌∷◌ c t))) ≡ flag a (some b)
unfolding argument behind_dash named name_value cut
argument-cut c t a b d q e =
    let full : (String.◌∷◌ c t == "") ≡ false =
      ground (arith, eq_iff (String.◌∷◌ c t) "", cons-ne-nil c t) in
    rw (full, named, d, q) (ap (name_value (String.◌∷◌ c t)) (rw (cut, q) at e))

argument-option_of :
    (name value : String) → IsName name → argument (option_of name value) ≡ flag name (some value)
unfolding contains_char
argument-option_of String.[] value h = absurd h
argument-option_of (String.◌∷◌ c s) value h =
    let equals : nat_beq (code c) 61 ≡ false = ground (arith, h) in
    let whole : String.◌++◌ (String.◌∷◌ c s) (String.◌∷◌ "=" value)
        ≡ String.◌∷◌ c (String.◌++◌ s (String.◌∷◌ "=" value)) =
      append.cons c s _ in
    ap argument
      (option_of-dashes (String.◌∷◌ c s) value ∙ ap (λ t. String.◌∷◌ "-" (String.◌∷◌ "-" t)) whole)
    ∙ argument-cut c (String.◌++◌ s (String.◌∷◌ "=" value)) (String.◌∷◌ c s) value h.0 equals
        (ap (cut 61) (sym whole) ∙ cut-append "=" (String.◌∷◌ c s) value h.1)

module _ {S : Type 0} (formal : Map (Flag S)) (name value : String) (f : Flag S) where
  -- The argument sets the flag to its value, and the parse goes on behind it.
  pub parse_args-option_of :
      (rest actual : List String) (s s' : S)
      → IsName name
      → lookup name formal ≡ some f
      → f.set value s ≡ some s'
      → parse_args formal (option_of name value ∷ rest) actual s
        ≡ parse_args formal rest (actual ++ (name ∷ [])) s'
  unfolding parse_args parse_one
  parse_args-option_of [] actual s s' h l e =
      rw (parse_args, argument-option_of name value h, parse_one, l, e) refl
  parse_args-option_of (b ∷ rest) actual s s' h l e =
      rw (parse_args, argument-option_of name value h, parse_one, l, e) refl

-- Settings of flags by name, and the arguments that make them.
abbrev pub Settings : Type 0
Settings = List (String × String)

abbrev pub names : Settings → List String
names settings = map (λ (p : String × String). p.0) settings

abbrev pub options_of : Settings → List String
options_of settings = map (λ (p : String × String). option_of p.0 p.1) settings

abbrev pub AreNames : Settings → Type 0
AreNames settings = All (λ (p : String × String). IsName p.0) settings

module _ {S : Type 0} (formal : Map (Flag S)) where
  abbrev pub set_one : Option (Flag S) → String → S → Option S
  set_one none value s = none
  set_one (some f) value s = f.set value s

  abbrev pub and_set : Option S → (S → Option S) → Option S
  and_set none more = none
  and_set (some s) more = more s

  -- Each flag is set in turn.
  unfoldable pub set_each : Settings → S → Option S
  unfolding lookup set_one and_set
  set_each [] s = some s
  set_each ((name, value) ∷ more) s = and_set (set_one (lookup name formal) value s) (set_each more)

module _ {S : Type 0} (formal : Map (Flag S)) where
  set_each-first :
      (name value : String) (more : Settings) (s s' : S)
      → set_each formal ((name, value) ∷ more) s ≡ some s'
      → (f : Flag S) × (mid : S) × (lookup name formal ≡ some f)
        × (f.set value s ≡ some mid)
        × (set_each formal more mid ≡ some s')
  unfolding set_each
  set_each-first name value more s s' e = elim (Option-cases (lookup name formal)) [
    | inl n ↦ absurd (cc (rw n at e))
    | inr (f, l) ↦
        let e' : and_set formal (f.set value s) (set_each formal more) ≡ some s' = rw l at e in
        elim (Option-cases (f.set value s)) [
          | inl n ↦ absurd (cc (rw n at e'))
          | inr (mid, m) ↦ (f, mid, l, m, rw m at e')
        ]
  ]

  -- Options that can be set one by one are parsed as that, the last of a name last, and the rest behind.
  pub parse_args-set_each :
      (settings : Settings) (rest actual : List String) (s s' : S)
      → AreNames settings
      → set_each formal settings s ≡ some s'
      → parse_args formal (options_of settings ++ rest) actual s
        ≡ parse_args formal rest (actual ++ names settings) s'
  unfolding set_each
  parse_args-set_each [] rest actual s s' h e =
      ap (λ t. parse_args formal rest t s) (sym (List.append-nil actual))
      ∙ ap (λ t. parse_args formal rest (actual ++ []) t) (cc e)
  parse_args-set_each ((name, value) ∷ more) rest actual s s' h e =
      let (f, mid, l, m, later) = set_each-first name value more s s' e in
      parse_args-option_of formal name value f (options_of more ++ rest) actual s mid h.0 l m
      ∙ parse_args-set_each more rest (actual ++ (name ∷ [])) mid s' h.1 later
      ∙ ap (λ t. parse_args formal rest t s') (List.append_assoc actual (name ∷ []) (names more))

  set_flag-fails :
      (name value : String) (next : Option String) (s : S) (f : Option (Flag S))
      → name ≢ "help"
      → name ≢ "h"
      → set_one formal f value s ≡ none
      → set_flag name (some value) next s f ≡ failed
  set_flag-fails name value next s none n m e =
      let long : (name == "help") ≡ false = ground (arith, eq_iff name "help") in
      let short : (name == "h") ≡ false = ground (arith, eq_iff name "h") in rw (long, short) refl
  set_flag-fails name value next s (some f) n m e = rw e refl

  -- A flag that is unknown, or that does not take the value, ends the parse in an error.
  pub parse_args-refused :
      (name value : String) (rest actual : List String) (s : S)
      → IsName name
      → name ≢ "help"
      → name ≢ "h"
      → set_one formal (lookup name formal) value s ≡ none
      → parse_args formal (option_of name value ∷ rest) actual s ≡ refused
  unfolding parse_args parse_one
  parse_args-refused name value [] actual s h n m e =
      rw
        (
          parse_args,
          argument-option_of name value h,
          parse_one,
          set_flag-fails name value none s (lookup name formal) n m e,
        )
        refl
  parse_args-refused name value (b ∷ rest) actual s h n m e =
      rw
        (
          parse_args,
          argument-option_of name value h,
          parse_one,
          set_flag-fails name value (some b) s (lookup name formal) n m e,
        )
        refl
