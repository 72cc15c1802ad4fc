-- ===== src/Usage/Gpu/Merging.antt =====
-- internal/usage/gpu.go: the entries of a sample that DCGM answers.
use linkspan.Base.{
  ℕ, String, ◌≡◌, All, refl, sym, ap, ◌∙◌, inl, inr, Bool, true, false, ◌&&◌, Option, none, some,
  List, [], ◌∷◌, Map, lookup, insert, lookup-insert, arith, if◌then◌else◌, ◌==◌, nat_eq, string_eq,
  eq_iff, Bool-cases, Option-cases,
}
use linkspan.Base.Int.{ℤ}
use linkspan.Usage.Gpu.{
  Metric, metrics, Gpu, Float, Reading, succeeded, native_endian, DcgmValue, Watch, uuid_of,
  reading_of, key_of, assign_key, assign_value, assign_values, empty_each, answered, read_of,
  read_dcgm, Answers, Sampled, entries, sample_gpus,
}
use linkspan.Usage.Gpu.Entries.{has_metric, cell, value_in, Holds, AreEntries, entries-AreEntries}

abbrev pub reading : DcgmValue → Reading
unfolding reading_of native_endian
reading v = reading_of v.kind (native_endian 8 v.value)

-- A value that was read, is known, and is of the field of a key for the GPU with a UUID.
abbrev pub is_of : List (ℕ × String) → String → String → DcgmValue → Bool
unfolding reading uuid_of
is_of us u key v =
    (succeeded v.status && (reading v).good)
    && (uuid_of v.entity us == u && key_of v.field metrics == key)

abbrev pub later : Option Float → Option Float → Option Float
later none before = before
later (some v) before = some v

-- The last such value.
unfoldable pub last_value : List (ℕ × String) → List DcgmValue → String → String → Option Float
unfolding is_of
last_value us [] u key = none
last_value us (v ∷ vs) u key =
    later (last_value us vs u key) (if is_of us u key v then some (reading v).value else none)

insert-cell :
    (uuid k u key : String) (value : Float) (m : Map Float) (out : Map (Map Float))
    → lookup uuid out ≡ some m
    → cell u key (insert uuid (insert k value m) out)
      ≡ (if uuid == u && k == key then some value else cell u key out)
insert-cell uuid k u key value m out f =
    ap (value_in key) (lookup-insert uuid u (insert k value m) out)
    ∙ elim (Bool-cases (uuid == u)) [
      | inl q ↦
          let same : lookup u out ≡ some m =
            ap (λ x. lookup x out) (sym ((eq_iff uuid u).0 q)) ∙ f in
          rw (q, same) (lookup-insert k key value m)
      | inr q ↦ rw q refl
    ]

assign_key-cell :
    (uuid k u key : String) (value : Float) (o : Option (Map Float)) (out next : Map (Map Float))
    → lookup uuid out ≡ o
    → assign_key uuid k value o out ≡ some next
    → cell u key next ≡ (if uuid == u && k == key then some value else cell u key out)
assign_key-cell uuid k u key value none out next f e = absurd (cc e)
assign_key-cell uuid k u key value (some m) out next f e =
    let same : insert uuid (insert k value m) out ≡ next =
      ap (λ (o : Option (Map (Map Float))). elim o [ none ↦ out | some x ↦ x ]) e in
    ap (cell u key) (sym same) ∙ insert-cell uuid k u key value m out f

guarded-cell :
    (b : Bool) (uuid k u key : String) (value : Float) (out next : Map (Map Float))
    → (if b then assign_key uuid k value (lookup uuid out) out else some out) ≡ some next
    → cell u key next ≡ (if b && (uuid == u && k == key) then some value else cell u key out)
guarded-cell true uuid k u key value out next e =
    assign_key-cell uuid k u key value (lookup uuid out) out next refl e
guarded-cell false uuid k u key value out next e =
    ap (λ (o : Option (Map (Map Float))). elim o [ none ↦ none | some x ↦ cell u key x ]) (sym e)

assign_value-cell :
    (us : List (ℕ × String)) (v : DcgmValue) (u key : String) (out next : Map (Map Float))
    → assign_value us v out ≡ some next
    → cell u key next ≡ (if is_of us u key v then some (reading v).value else cell u key out)
unfolding assign_value is_of
assign_value-cell us v u key out next e =
    guarded-cell (succeeded v.status && (reading v).good) (uuid_of v.entity us)
      (key_of v.field metrics) u key (reading v).value out next e

later-if :
    (o before : Option Float) (b : Bool) (x : Float)
    → later o (if b then some x else before) ≡ later (later o (if b then some x else none)) before
later-if (some y) before b x = refl
later-if none before true x = refl
later-if none before false x = refl

assign_values-cell :
    (us : List (ℕ × String)) (vs : List DcgmValue) (u key : String) (out next : Map (Map Float))
    → assign_values us vs out ≡ some next
    → cell u key next ≡ later (last_value us vs u key) (cell u key out)
unfolding assign_values last_value
assign_values-cell us [] u key out next e =
    ap (λ (o : Option (Map (Map Float))). elim o [ none ↦ none | some x ↦ cell u key x ]) (sym e)
assign_values-cell us (v ∷ vs) u key out next e = elim (Option-cases (assign_value us v out)) [
  | inl n ↦ absurd (cc (rw (assign_values, n) at e))
  | inr (m, f) ↦
      assign_values-cell us vs u key m next (rw (assign_values, f) at e)
      ∙ ap (later (last_value us vs u key)) (assign_value-cell us v u key out m f)
      ∙ later-if (last_value us vs u key) (cell u key out) (is_of us u key v) (reading v).value
]

empty_each-cell : (us : List (ℕ × String)) (u key : String) → cell u key (empty_each us) ≡ none
unfolding empty_each lookup
empty_each-cell [] u key = refl
empty_each-cell ((id, uuid) ∷ us) u key =
    ap (value_in key) (lookup-insert uuid u [] (empty_each us))
    ∙ elim (Bool-cases (uuid == u)) [ inl q ↦ rw q refl | inr q ↦ rw q (empty_each-cell us u key) ]

later-none : (o : Option Float) → later o none ≡ o
later-none none = refl
later-none (some v) = refl

dropped : (a b : Bool) (x : Float) → later none (if a && (b && false) then some x else none) ≡ none
dropped true true x = refl
dropped true false x = refl
dropped false b x = refl

read_of-answered :
    (o : Option (Map (Map Float))) (out : Map (Map Float)) → read_of o ≡ answered out → o ≡ some out
read_of-answered none out e = absurd (cc e)
read_of-answered (some x) out e = cc e

key_of-ne :
    (field : ℕ) (key : String) (ms : List Metric)
    → ("" == key) ≡ false
    → has_metric key ms ≡ false
    → (key_of field ms == key) ≡ false
key_of-ne field key [] e h = e
key_of-ne field key (m ∷ ms) e h = ground (arith, key_of-ne field key ms e, h)

last_value-none :
    (us : List (ℕ × String)) (vs : List DcgmValue) (u key : String)
    → ("" == key) ≡ false
    → has_metric key metrics ≡ false
    → last_value us vs u key ≡ none
unfolding last_value is_of
last_value-none us [] u key e h = refl
last_value-none us (v ∷ vs) u key e h =
    rw (last_value-none us vs u key e h, key_of-ne v.field key metrics e h)
      (dropped (succeeded v.status && (reading v).good) (uuid_of v.entity us == u)
        (reading v).value)

-- What DCGM last answered of a GPU.
abbrev pub dcgm_value : Watch → List DcgmValue → Gpu → String → Option Float
dcgm_value w vs g key = last_value w.uuids vs g.uuid key

dcgm-Holds :
    (w : Watch) (vs : List DcgmValue) (out : Map (Map Float)) (g : Gpu)
    → assign_values w.uuids vs (empty_each w.uuids) ≡ some out
    → Holds (dcgm_value w vs g) out g
dcgm-Holds w vs out g e = record {
  stored = λ key.
      assign_values-cell w.uuids vs g.uuid key (empty_each w.uuids) out e
      ∙ rw (empty_each-cell w.uuids g.uuid key) (later-none (last_value w.uuids vs g.uuid key));
  no_index = last_value-none w.uuids vs g.uuid "index" refl refl;
  no_uuid = last_value-none w.uuids vs g.uuid "uuid" refl refl;
  no_name = last_value-none w.uuids vs g.uuid "name" refl refl;
}

Holds-All :
    (w : Watch) (vs : List DcgmValue) (out : Map (Map Float)) (gs : List Gpu)
    → assign_values w.uuids vs (empty_each w.uuids) ≡ some out
    → All (λ (g : Gpu). Holds (dcgm_value w vs g) out g) gs
Holds-All w vs out [] e = tt
Holds-All w vs out (g ∷ gs) e = (dcgm-Holds w vs out g e, Holds-All w vs out gs e)

answered-assigned :
    (w : Watch) (status : ℤ) (vs : List DcgmValue) (out : Map (Map Float))
    → read_dcgm w (status, vs) ≡ answered out
    → assign_values w.uuids vs (empty_each w.uuids) ≡ some out
unfolding read_dcgm
answered-assigned w status vs out e = elim (Bool-cases (succeeded status)) [
  | inl q ↦
      read_of-answered (assign_values w.uuids vs (empty_each w.uuids)) out (rw (read_dcgm, q) at e)
  | inr q ↦ absurd (cc (rw (read_dcgm, q) at e))
]

-- A sample that DCGM answers has the source "dcgm" and leaves the connection as it was; it has one entry
-- for each GPU, in their order, with the GPU's index, UUID and name, and under each of the metrics the
-- last value that DCGM answers of that metric's field for the entity that is matched to the GPU's
-- UUID, among those that it could read and that are no blanks, or null without one.
pub sample_gpus-AreMerged :
    (loaded : Bool) (g : Gpu) (gs : List Gpu) (a : Answers) (live : List ℕ) (w : Watch)
    (out : Map (Map Float))
    → read_dcgm w (a.newest w.entities) ≡ answered out
    → (r : Sampled) × (sample_gpus loaded (g ∷ gs) a (record { live = live; dcgm = some w })
        ≡ some r)
      × (r.source ≡ some "dcgm")
      × (r.state ≡ record { live = live; dcgm = some w })
      × AreEntries (dcgm_value w (a.newest w.entities).1) (g ∷ gs) r.gpus
unfolding sample_gpus
sample_gpus-AreMerged loaded g gs a live w out e = (
  record {
    source = some "dcgm";
    gpus = entries out (g ∷ gs);
    state = record { live = live; dcgm = some w };
  },
  rw (sample_gpus, e) refl,
  refl,
  refl,
  entries-AreEntries (dcgm_value w (a.newest w.entities).1) out (g ∷ gs) (
      Holds-All w (a.newest w.entities).1 out (g ∷ gs)
        (answered-assigned w (a.newest w.entities).0 (a.newest w.entities).1 out e)),
)
