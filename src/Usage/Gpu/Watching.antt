-- ===== src/Usage/Gpu/Watching.antt =====
-- internal/usage/gpu.go: one connection at most, and no panic, while the host engine answers for the entities
-- that it is asked for.
use linkspan.Base.{
  ℕ, String, if◌then◌else◌, ◌≡◌, refl, ap, sym, inl, inr, Bool, true, false, ◌||◌, Option, none,
  some, List, [], ◌∷◌, ◌++◌, Map, lookup, insert, lookup-insert, arith, In, All, All-map, is_some,
  eq_iff, nat_beq, Bool-cases, Option-cases, nat_eq, ◌⊎◌, ◌&&◌,
}
use linkspan.Base.Int.{ℤ}
use linkspan.Usage.Gpu.{
  Gpu, Float, succeeded, DcgmValue, Engine, Watch, set_uuid, uuid_of, add_each, watch_fields,
  by_uuid, watch_gpus, values_of, has_any, disconnect, connected, open_dcgm, assign_value,
  assign_values, empty_each, failed, answered, read_dcgm, reading_of, native_endian, key_of,
  metrics,
}

abbrev pub has_key : ℕ → List (ℕ × String) → Bool
has_key id [] = false
has_key id ((first, uuid) ∷ rest) = nat_beq first id || has_key id rest

has_key-set_uuid :
    (k id : ℕ) (u : String) (us : List (ℕ × String))
    → has_key id (set_uuid k u us) ≡ (nat_beq k id || has_key id us)
unfolding set_uuid
has_key-set_uuid k id u [] = refl
has_key-set_uuid k id u ((first, old) ∷ us) = ground (arith, has_key-set_uuid k id u us)

-- The entities of a watch have their UUIDs, and the handle is that of the connection.
pub record IsWatching (h : ℕ) (w : Watch) : Type 0 where
  pub at : w.handle ≡ h
  pub named : (id : ℕ) → In id w.entities → has_key id w.uuids ≡ true

abbrev pub AnyWatching : ℕ → Option Watch → Type 0
AnyWatching h none = Unit
AnyWatching h (some w) = IsWatching h w

if-AnyWatching :
    (h : ℕ) (b : Bool) (o : Option Watch) → AnyWatching h o → AnyWatching h (if b then o else none)
if-AnyWatching h true o w = w
if-AnyWatching h false o w = tt

watch_fields-AnyWatching :
    (e : Engine) (h : ℕ) (o : Option Watch) → AnyWatching h o → AnyWatching h (watch_fields e o)
watch_fields-AnyWatching e h none w = tt
watch_fields-AnyWatching e h (some x) w =
    if-AnyWatching h (succeeded e.field_group && succeeded e.watch) (some x) w

In-last : (id x : ℕ) (xs : List ℕ) → In id (xs ++ (x ∷ [])) → In id xs ⊎ (id ≡ x)
In-last id x [] (inl e) = inr e
In-last id x [] (inr i) = elim i [ ]
In-last id x (y ∷ xs) (inl e) = inl (inl e)
In-last id x (y ∷ xs) (inr i) = elim (In-last id x xs i) [ inl j ↦ inl (inr j) | inr e ↦ inr e ]

module _ (e : Engine) (h : ℕ) (ids : Map ℕ) where
  add_each-IsWatching :
      (gs : List Gpu) (es : List ℕ) (us : List (ℕ × String))
      → ((id : ℕ) → In id es → has_key id us ≡ true)
      → AnyWatching h (add_each e h ids gs es us)
  unfolding add_each
  add_each-IsWatching [] es us k = record { at = refl; named = k }
  add_each-IsWatching (g ∷ gs) es us k = elim (Option-cases (lookup g.uuid ids)) [
    | inl n ↦ rw (n, AnyWatching) tt
    | inr (id, f) ↦
        let rest = add_each-IsWatching gs (es ++ (id ∷ [])) (set_uuid id g.uuid us) (λ x i.
          elim (In-last x id es i) [
            | inl j ↦ ground (arith, has_key-set_uuid id x g.uuid us, k x j)
            | inr q ↦ ground (arith, has_key-set_uuid id x g.uuid us, q)
          ]) in
        rw (f, AnyWatching) (if-AnyWatching h (succeeded (e.add_entity id)) _ rest)
  ]

watch_gpus-IsWatching : (e : Engine) (gpus : List Gpu) (h : ℕ) → AnyWatching h (watch_gpus e gpus h)
unfolding watch_gpus
watch_gpus-IsWatching e gpus h = if-AnyWatching h (succeeded e.devices.0 && has_any e.devices.1) _ (
    if-AnyWatching h (succeeded e.group) _ (
      watch_fields-AnyWatching e h _ (
        add_each-IsWatching e h (by_uuid (values_of (e.uuids e.devices.1)) []) gpus [] []
          (λ id i. elim i [ ]))))

-- Every UUID of a watch has its map of values.
abbrev pub Filled : List (ℕ × String) → Map (Map Float) → Type 0
Filled us out = (id : ℕ) → has_key id us ≡ true → is_some (lookup (uuid_of id us) out) ≡ true

is_some-insert :
    (j k : String) (v : Map Float) (out : Map (Map Float))
    → is_some (lookup j out) ≡ true
    → is_some (lookup j (insert k v out)) ≡ true
is_some-insert j k v out h = ground (arith, lookup-insert k j v out)

empty_each-Filled : (us : List (ℕ × String)) → Filled us (empty_each us)
unfolding empty_each uuid_of
empty_each-Filled [] id k = ground arith
empty_each-Filled ((first, uuid) ∷ us) id k = ground (
  arith,
  lookup-insert uuid uuid [] (empty_each us),
  eq_iff uuid uuid,
  lookup-insert uuid (uuid_of id us) [] (empty_each us),
  empty_each-Filled us id,
)

assign_value-Filled :
    (us : List (ℕ × String)) (v : DcgmValue) (out : Map (Map Float))
    → has_key v.entity us ≡ true
    → Filled us out
    → (next : Map (Map Float)) × (assign_value us v out ≡ some next) × Filled us next
unfolding assign_value
assign_value-Filled us v out k f = elim (Option-cases (lookup (uuid_of v.entity us) out)) [
  | inl n ↦ absurd (ground (arith, f v.entity k, n))
  | inr (e, found) ↦
      elim (Bool-cases (succeeded v.status && (reading_of v.kind (native_endian 8 v.value)).good)) [
        | inl q ↦ (
          insert (uuid_of v.entity us)
              (insert (key_of v.field metrics) (reading_of v.kind (native_endian 8 v.value)).value
                e)
              out,
          rw (q, found) refl,
          λ id i. is_some-insert (uuid_of id us) (uuid_of v.entity us) _ out (f id i),
        )
        | inr q ↦ (out, rw q refl, f)
      ]
]

assign_values-runs :
    (us : List (ℕ × String)) (vs : List DcgmValue) (out : Map (Map Float))
    → All (λ v. has_key v.entity us ≡ true) vs
    → Filled us out
    → (next : Map (Map Float)) × (assign_values us vs out ≡ some next)
unfolding assign_values
assign_values-runs us [] out k f = (out, refl)
assign_values-runs us (v ∷ vs) out k f =
    let (next, e, g) = assign_value-Filled us v out k.0 f in
    let (last, r) = assign_values-runs us vs next k.1 g in (last, rw (e, assign_values) r)

-- Where the values are of the entities that are watched, the reader does not panic.
pub read_dcgm-cases :
    (h : ℕ) (w : Watch) (values : ℤ × List DcgmValue)
    → IsWatching h w
    → All (λ (v : DcgmValue). In v.entity w.entities) values.1
    → (read_dcgm w values ≡ failed)
      ⊎ ((out : Map (Map Float)) × (read_dcgm w values ≡ answered out))
unfolding read_dcgm
read_dcgm-cases h w (status, vs) watching asked =
    let (out, e) =
      (assign_values-runs w.uuids vs (empty_each w.uuids)
        (All-map (λ (v : DcgmValue). In v.entity w.entities) (λ v. has_key v.entity w.uuids ≡ true)
          (λ v i. watching.named v.entity i) vs asked)
        (empty_each-Filled w.uuids)) in
    elim (Bool-cases (succeeded status)) [
      | inl q ↦ inr (out, rw (q, e) refl)
      | inr q ↦ inl (rw q refl)
    ]

-- The handles of the connections that a reader holds.
abbrev pub connections : Option Watch → List ℕ
connections none = []
connections (some w) = w.handle ∷ []

pub disconnect_self : (h : ℕ) (live : List ℕ) → disconnect h (h ∷ live) ≡ live
unfolding disconnect
disconnect_self h live = ground arith

abbrev pub Held : Option Watch → Type 0
Held none = Unit
Held (some w) = IsWatching w.handle w

abbrev pub Holding : Option Watch × List ℕ → Type 0
Holding (o, live) = (live ≡ connections o) × Held o

connected-Holding : (h : ℕ) (o : Option Watch) → AnyWatching h o → Holding (connected h [] o)
connected-Holding h none w = (disconnect_self h [], tt)
connected-Holding h (some w) x =
    (ap (λ k. k ∷ []) (sym (x.at)), record { at = refl; named = x.named })

-- openDCGM from no connection: it leaves the one of its reader, or none.
pub open_dcgm-Holding :
    (loaded : Bool) (e : Engine) (gpus : List Gpu) → Holding (open_dcgm loaded e gpus [])
unfolding open_dcgm
open_dcgm-Holding loaded e gpus = elim (Bool-cases (loaded && succeeded e.connect.0)) [
  | inl q ↦
      rw (q, Holding)
        (connected-Holding e.connect.1 (watch_gpus e gpus e.connect.1)
          (watch_gpus-IsWatching e gpus e.connect.1))
  | inr q ↦ rw (q, Holding) (refl, tt)
]
