-- ===== src/Tunnel/Listing.antt =====
-- What Parse accepts.
use linkspan.Base.{
  String, ◌≡◌, refl, ◌≢◌, sym, ap, subst, ◌∙◌, inl, inr, Bool, true, false, not, ◌||◌, Option, List,
  [], ◌∷◌, ◌++◌, Map, map, Result, ok, err, ◌>>=◌, arith, eq_iff, All, keep, ◌==◌, string_eq,
  Bool-cases,
}
use linkspan.Go.Strings.{split}
use linkspan.Go.Flags.{mentions}
use linkspan.Tasks as Tasks
use linkspan.Tasks.{Task}
use linkspan.Tunnel.Transports.{Url}
use linkspan.Tunnel.Modes.{
  Carrier, transports, env_of, start_of, boolean_eq, list_modes, listed_modes, args_of, carrier,
  carriers, parse,
}

-- The first step of a chain that succeeds has succeeded.
bind-ok {ℓ κ} :
    {X : Type ℓ} {Y : Type κ} {first : Result X} {next : X → Result Y} {y : Y}
    → (first >>= next) ≡ ok y
    → (x : X) × (first ≡ ok x) × (next x ≡ ok y)
bind-ok {first = err message} passed = cc
bind-ok {first = ok x} passed = (x, refl, passed)

boolean_eq-path : (a b : Bool) → not (boolean_eq a b) ≡ false → a ≡ b
boolean_eq-path true true e = refl
boolean_eq-path true false e = cc
boolean_eq-path false true e = cc
boolean_eq-path false false e = refl

mentions-append :
    (n : String) (xs ys : List String) → mentions n (xs ++ ys) ≡ (mentions n xs || mentions n ys)
unfolding mentions
mentions-append n [] ys = refl
mentions-append n (x ∷ xs) ys = ground (arith, mentions-append n xs ys)

list_modes-ok :
    (names listed all : List String)
    → list_modes names listed ≡ ok all
    → (n : String) → mentions n all ≡ (mentions n listed || mentions n names)
unfolding list_modes
list_modes-ok [] listed all e n = ground arith
list_modes-ok (x ∷ names) listed all e n =
    elim (Bool-cases (not (mentions x transports) || mentions x listed)) [
      | inl bad ↦ cc (rw bad at e)
      | inr fine ↦
          list_modes-ok names (listed ++ (x ∷ [])) all (rw fine at e) n
          ∙ ground (arith, mentions-append n listed (x ∷ []))
    ]

-- An empty list mentions no transport.
unlisted :
    (list : String) → list ≡ "" → All (λ n. mentions n [] ≡ mentions n (split 44 list)) transports
unfolding split mentions
unlisted list e = rw e (refl, (refl, tt))

module _ (f g : String → Bool) where
  keep-cong : (names : List String) → All (λ n. f n ≡ g n) names → keep f names ≡ keep g names
  keep-cong [] a = refl
  keep-cong (n ∷ names) a = rw (a.0, keep-cong names a.1)

  module _ (h : String → Bool) where
    exclusive-cong :
        (names : List String)
        → All (λ n. f n ≡ g n) names
        → All (λ n. f n ≡ h n) names
        → All (λ n. g n ≡ h n) names
    exclusive-cong [] a b = tt
    exclusive-cong (n ∷ names) a b = (sym a.0 ∙ b.0, exclusive-cong names a.1 b.1)

module _ (parse_url : String → Option Url) (getenv : String → String) (args : Map String) where
  -- A carrier for the transport.
  pub record IsCarrier (c : Carrier) : Type 0 where
    pub credential : getenv (env_of c.task.kind) ≢ ""
    pub started :
        start_of parse_url c.task.kind (args_of args c.task.kind) (getenv (env_of c.task.kind))
        ≡ ok c.attempt

  carrier-ok :
      (name : String) (c : Carrier)
      → carrier parse_url getenv args name ≡ ok c
      → IsCarrier c × (c.task ≡ Tasks.new name Tasks.run)
  unfolding carrier
  carrier-ok name c e = elim (Bool-cases (getenv (env_of name) == "")) [
    | inl unset ↦ cc (rw unset at e)
    | inr set ↦
        let (a, started, last) = bind-ok (rw set at e) in
        let same : record { task = Tasks.new name Tasks.run; attempt = a } ≡ c = cc in
        (
          subst IsCarrier same (record {
            credential = λ q. ground (arith, eq_iff (getenv (env_of name)) "");
            started = started;
          }),
          ap (λ (d : Carrier). d.task) (sym same),
        )
  ]

  -- The tasks are those of the listed transports, in order; and just the listed ones have arguments.
  pub record Carried (listed names : List String) (cs : List Carrier) : Type 0 where
    pub exclusive : All (λ n. mentions n listed ≡ not (args_of args n == "")) names
    pub tasks :
        map (λ (c : Carrier). c.task) cs
        ≡ map (λ n. Tasks.new n Tasks.run) (keep (λ n. mentions n listed) names)
    pub each : All IsCarrier cs

  carriers-ok :
      (listed names : List String) (cs : List Carrier)
      → carriers parse_url getenv args listed names ≡ ok cs
      → Carried listed names cs
  unfolding carriers
  carriers-ok listed [] [] e = record { exclusive = tt; tasks = refl; each = tt }
  carriers-ok listed [] (c ∷ cs) e = cc
  carriers-ok listed (name ∷ names) cs e =
      elim (Bool-cases (not (boolean_eq (mentions name listed) (not (args_of args name == ""))))) [
        | inl wrong ↦ cc (rw wrong at e)
        | inr right ↦ elim (Bool-cases (mentions name listed)) [
          | inl here ↦
              let (c, p, q) = bind-ok (rw (right, here) at e) in
              let (more, r, last) = bind-ok q in
              let (carries, task) = carrier-ok name c p in
              let rest = carriers-ok listed names more r in
              let same : c ∷ more ≡ cs = cc in
              subst (Carried listed (name ∷ names)) same (record {
                exclusive = (boolean_eq-path _ _ right, rest.exclusive);
                tasks = rw (here, task, rest.tasks);
                each = (carries, rest.each);
              })
          | inr absent ↦
              let rest = carriers-ok listed names cs (rw (right, absent) at e) in
              record {
                exclusive = (boolean_eq-path _ _ right, rest.exclusive);
                tasks = rw absent rest.tasks;
                each = rest.each;
              }
        ]
      ]

  Carried-cong :
      (a b names : List String) (cs : List Carrier)
      → All (λ n. mentions n a ≡ mentions n b) names
      → Carried a names cs
      → Carried b names cs
  Carried-cong a b names cs same c = record {
    exclusive =
        exclusive-cong (λ n. mentions n a) (λ n. mentions n b) (λ n. not (args_of args n == ""))
          names same c.exclusive;
    tasks =
        c.tasks
        ∙ ap (map (λ n. Tasks.new n Tasks.run))
            (keep-cong (λ n. mentions n a) (λ n. mentions n b) names same);
    each = c.each;
  }

  -- Parse accepts only the flags that agree: --tunnel-enable exactly with a list; a transport's arguments
  -- exactly where it is listed; a credential, and arguments that its New accepts, of each listed one. It
  -- gives one task for each listed transport, of its kind and in the order of the names.
  pub parse-Carried :
      (enable : Bool) (list : String) (cs : List Carrier)
      → parse parse_url getenv args enable list ≡ ok cs
      → (enable ≡ not (list == "")) × Carried (split 44 list) transports cs
  unfolding parse listed_modes
  parse-Carried enable list cs e = elim (Bool-cases (not (boolean_eq enable (not (list == ""))))) [
    | inl wrong ↦ cc (rw wrong at e)
    | inr right ↦ (
      boolean_eq-path _ _ right,
      elim (Bool-cases (list == "")) [
        | inl empty ↦
            Carried-cong [] (split 44 list) transports cs (unlisted list ((eq_iff list "").0 empty))
              (carriers-ok [] transports cs (rw (right, empty) at e))
        | inr named ↦
            let (listed, p, q) = bind-ok (rw (right, named) at e) in
            let same = list_modes-ok (split 44 list) [] listed p in
            Carried-cong listed (split 44 list) transports cs (same "devtunnel", (same "link", tt))
              (carriers-ok listed transports cs q)
      ],
    )
  ]
