-- ===== src/Go/Commands.antt =====
-- Package flag: FlagSet.Parse of a command line whose flags set the fields of a state `S`.
use linkspan.Base.{
  String, Bool, true, ◌||◌, Option, none, some, List, [], ◌∷◌, ◌++◌, Map, lookup, ◌==◌, string_eq,
  if◌then◌else◌,
}
use linkspan.Go.Flags.{Argument, positional, terminator, malformed, flag, argument}

-- A flag: whether it is a boolFlag, which takes no further argument, and its Set; `none` is an error.
pub record Flag (S : Type 0) : Type 0 where
  pub is_bool : Bool
  pub set : String → S → Option S

-- What Parse comes to: the state, the names that were set and the arguments behind the flags; the
-- help, which ends the program with 0; or an error, which ends it with 2.
pub data Parsing (S : Type 0) : Type 0 where
  parsed : S → List String → List String → Parsing S
  helped : Parsing S
  refused : Parsing S

-- What parseOne comes to.
pub data Parsed (S : Type 0) : Type 0 where
  stopped : Parsed S
  ended : Parsed S
  was_set : String → Bool → S → Parsed S
  asked_help : Parsed S
  failed : Parsed S

abbrev pub was_set_of : {S : Type 0} → String → Bool → Option S → Parsed S
was_set_of name took none = failed
was_set_of name took (some s) = was_set name took s

-- The value of a flag without "=": "true" for a boolFlag, else the next argument.
abbrev pub value_behind : {S : Type 0} → String → Flag S → Option String → S → Parsed S
value_behind name f next s = elim f.is_bool [
  | true ↦ was_set_of name Bool.false (f.set "true" s)
  | Bool.false ↦ elim next [ none ↦ failed | some value ↦ was_set_of name true (f.set value s) ]
]

abbrev pub set_flag :
    {S : Type 0} → String → Option String → Option String → S → Option (Flag S) → Parsed S
set_flag name value next s none = if name == "help" || name == "h" then asked_help else failed
set_flag name none next s (some f) = value_behind name f next s
set_flag name (some v) next s (some f) = was_set_of name Bool.false (f.set v s)

module _ {S : Type 0} (formal : Map (Flag S)) where
  unfoldable pub parse_one : Argument → Option String → S → Parsed S
  unfolding lookup set_flag value_behind was_set_of
  parse_one positional next s = stopped
  parse_one terminator next s = ended
  parse_one malformed next s = failed
  parse_one (flag name value) next s = set_flag name value next s (lookup name formal)

  -- Parse, with the names that were set before.
  unfoldable pub parse_args : List String → List String → S → Parsing S
  unfolding parse_one argument
  parse_args [] actual s = parsed s actual []
  parse_args (a ∷ []) actual s = elim (parse_one (argument a) none s) [
    | stopped ↦ parsed s actual (a ∷ [])
    | ended ↦ parsed s actual []
    | was_set name took s' ↦ parsed s' (actual ++ (name ∷ [])) []
    | asked_help ↦ helped
    | failed ↦ refused
  ]
  parse_args (a ∷ b ∷ rest) actual s = elim (parse_one (argument a) (some b) s) [
    | stopped ↦ parsed s actual (a ∷ b ∷ rest)
    | ended ↦ parsed s actual (b ∷ rest)
    | was_set name true s' ↦ parse_args rest (actual ++ (name ∷ [])) s'
    | was_set name Bool.false s' ↦ parse_args (b ∷ rest) (actual ++ (name ∷ [])) s'
    | asked_help ↦ helped
    | failed ↦ refused
  ]
