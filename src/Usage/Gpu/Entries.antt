-- ===== src/Usage/Gpu/Entries.antt =====
-- internal/usage/gpu.go: the entries of a sample, one for each GPU in order, with every metric.
use linkspan.Base.{
  String, ◌≡◌, All, refl, ◌∙◌, Bool, true, false, Option, none, some, List, [], ◌∷◌, Map, lookup,
  insert, lookup-insert, arith, if◌then◌else◌, ◌==◌, string_eq, ap,
}
use linkspan.Usage.Gpu.{
  Metric, metrics, Gpu, Float, Item, integer, text, null, measured, null_each, copy, identity,
  copied, entry, entries,
}

-- What an entry holds of a metric.
abbrev pub or_null : Option Float → Item
or_null none = null
or_null (some v) = measured v

abbrev pub has_metric : String → List Metric → Bool
has_metric key [] = false
has_metric key (m ∷ ms) = let rest = has_metric key ms in if m.key == key then true else rest

lookup-null_each :
    (key : String) (ms : List Metric) (e : Map Item)
    → lookup key (null_each ms e) ≡ (if has_metric key ms then some null else lookup key e)
unfolding null_each
lookup-null_each key [] e = refl
lookup-null_each key (m ∷ ms) e =
    let rest = lookup-null_each key ms (insert m.key null e) in
    ground (arith, rest, lookup-insert m.key key null e)

abbrev over : Option Float → Option Item → Option Item
over none o = o
over (some v) o = some (measured v)

over_null : (o : Option Float) → over o (some null) ≡ some (or_null o)
over_null none = refl
over_null (some v) = refl

lookup-copy :
    (key : String) (values : Map Float) (e : Map Item)
    → lookup key (copy values e) ≡ over (lookup key values) (lookup key e)
unfolding copy lookup
lookup-copy key [] e = refl
lookup-copy key ((first, v) ∷ values) e =
    ground (arith, lookup-copy key values e, lookup-insert first key (measured v) (copy values e))

abbrev pub value_in : String → Option (Map Float) → Option Float
value_in key none = none
value_in key (some values) = lookup key values

-- What is stored under a UUID and a key.
abbrev pub cell : String → String → Map (Map Float) → Option Float
cell u key out = value_in key (lookup u out)

lookup-copied :
    (key : String) (o : Option (Map Float)) (e : Map Item)
    → lookup key (copied o e) ≡ over (value_in key o) (lookup key e)
lookup-copied key none e = refl
lookup-copied key (some values) e = lookup-copy key values e

lookup-entry :
    (values : Map (Map Float)) (g : Gpu) (key : String)
    → lookup key (entry values g)
      ≡ over
          (cell g.uuid key values)
          (if has_metric key metrics then some null else lookup key (identity g))
unfolding entry
lookup-entry values g key =
    lookup-copied key (lookup g.uuid values) (null_each metrics (identity g))
    ∙ ap (over (cell g.uuid key values)) (lookup-null_each key metrics (identity g))

-- The entry of a GPU: its identity, and under every metric its value, or null without one.
pub record IsEntry (value : String → Option Float) (g : Gpu) (e : Map Item) : Type 0 where
  pub index : lookup "index" e ≡ some (integer g.index)
  pub uuid : lookup "uuid" e ≡ some (text g.uuid)
  pub name : lookup "name" e ≡ some (text g.name)
  pub metric :
      (key : String) → has_metric key metrics ≡ true → lookup key e ≡ some (or_null (value key))

-- One entry for each GPU, in their order.
abbrev pub AreEntries : (Gpu → String → Option Float) → List Gpu → List (Map Item) → Type 0
AreEntries value [] [] = Unit
AreEntries value (g ∷ gs) (e ∷ es) = IsEntry (value g) g e × AreEntries value gs es
AreEntries value _ _ = ⊥

-- What is stored for a GPU: the values, and none under the keys of the GPU's identity.
pub record Holds (value : String → Option Float) (values : Map (Map Float)) (g : Gpu) : Type 0 where
  pub stored : (key : String) → cell g.uuid key values ≡ value key
  pub no_index : value "index" ≡ none
  pub no_uuid : value "uuid" ≡ none
  pub no_name : value "name" ≡ none

entry-IsEntry :
    (value : String → Option Float) (values : Map (Map Float)) (g : Gpu)
    → Holds value values g
    → IsEntry value g (entry values g)
unfolding lookup
entry-IsEntry value values g h =
    let behind : (key : String) → Option Item =
      λ key. if has_metric key metrics then some null else lookup key (identity g) in
    let found : (key : String) → lookup key (entry values g) ≡ over (value key) (behind key) =
      λ key. lookup-entry values g key ∙ ap (λ o. over o (behind key)) (h.stored key) in
    record {
      index = found "index" ∙ ap (λ o. over o (behind "index")) h.no_index;
      uuid = found "uuid" ∙ ap (λ o. over o (behind "uuid")) h.no_uuid;
      name = found "name" ∙ ap (λ o. over o (behind "name")) h.no_name;
      metric = λ key k. found key ∙ rw k (over_null (value key));
    }

pub entries-AreEntries :
    (value : Gpu → String → Option Float) (values : Map (Map Float)) (gs : List Gpu)
    → All (λ (g : Gpu). Holds (value g) values g) gs
    → AreEntries value gs (entries values gs)
unfolding entries
entries-AreEntries value values [] h = tt
entries-AreEntries value values (g ∷ gs) h =
    (entry-IsEntry (value g) values g h.0, entries-AreEntries value values gs h.1)
