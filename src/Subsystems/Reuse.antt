-- ===== src/Subsystems/Reuse.antt =====
-- An SSH server is started once for a reference.
use linkspan.Base.{
  ℕ, String, ◌≡◌, refl, ◌≢◌, ap, subst, inl, inr, Bool, true, ◌&&◌, Option, none, some, List, [],
  ◌∷◌, Map, map, lookup, In, keep, Result, ok, err, arith, eq_iff, ◌==◌, string_eq, Bool-cases,
}
use linkspan.Router.{Params, str}
use linkspan.Servers.{Job}
use linkspan.Tasks.{
  unset, server, prepare, listen, bound, entering, start_bound, Task, World, Net, running,
  state_beq, insert_sorted, sorted_by_id, select, registered, handles, start,
}
use linkspan.Tasks.Starting.{start-Entered}
use linkspan.Subsystems.Vscode.{
  kind, serving_ref, server_task, started, serve_ref, with_key, start_server,
}

In-insert_sorted_here : (t : Task) (ts : List Task) → In t (insert_sorted t ts)
unfolding insert_sorted
In-insert_sorted_here t [] = inl refl
In-insert_sorted_here t (u ∷ us) = ground (arith, In-insert_sorted_here t us)

In-insert_sorted_there : (u t : Task) (ts : List Task) → In u ts → In u (insert_sorted t ts)
unfolding insert_sorted
In-insert_sorted_there u t [] i = elim i [ ]
In-insert_sorted_there u t (v ∷ vs) (inl e) = ground (arith, e)
In-insert_sorted_there u t (v ∷ vs) (inr i) = ground (arith, i, In-insert_sorted_there u t vs i)

In-sorted_by_id : (u : Task) (ts : List Task) → In u ts → In u (sorted_by_id ts)
unfolding sorted_by_id
In-sorted_by_id u [] i = elim i [ ]
In-sorted_by_id u (t ∷ ts) (inl e) =
    subst (λ v. In u (insert_sorted v (sorted_by_id ts))) e
      (In-insert_sorted_here u (sorted_by_id ts))
In-sorted_by_id u (t ∷ ts) (inr i) =
    In-insert_sorted_there u t (sorted_by_id ts) (In-sorted_by_id u ts i)

In-keep :
    {A : Type 0} (p : A → Bool) (x : A) (xs : List A) → In x xs → p x ≡ true → In x (keep p xs)
In-keep p x [] i h = elim i [ ]
In-keep p x (y ∷ ys) (inl e) h = let q : p y ≡ true = rw (← e, h) in rw q (inl e)
In-keep p x (y ∷ ys) (inr i) h = elim (Bool-cases (p y)) [
  | inl e ↦ rw e (inr (In-keep p x ys i h))
  | inr e ↦ rw e (In-keep p x ys i h)
]

In-handles :
    {A : Type 0} (f : ℕ → A) (id : String) (m : Map ℕ) (h : ℕ)
    → lookup id m ≡ some h
    → In (f h) (map f (handles m))
unfolding lookup handles
In-handles f id [] h e = cc
In-handles f id ((k, g) ∷ m) h e = elim (Bool-cases (k == id)) [
  | inl q ↦ inl (ap f (ground (arith, e, q)))
  | inr q ↦ inr (In-handles f id m h (rw q at e))
]

-- A task that the registry holds under some id stands in what Select answers of its kind.
In-select :
    (id : String) (w : World) (h : ℕ)
    → lookup id w.registry ≡ some h
    → In (w.heap h) (select (w.heap h).kind w)
unfolding select
In-select id w h e =
    In-keep (λ t. t.kind == (w.heap h).kind) (w.heap h) (sorted_by_id (registered w))
      (In-sorted_by_id (w.heap h) (registered w) (In-handles w.heap id w.registry h e))
      ((eq_iff (w.heap h).kind (w.heap h).kind).1 refl)

serving_ref-found :
    (ref : String) (ts : List Task) (t : Task)
    → In t ts
    → t.id ≡ ref
    → t.state ≡ running
    → (u : Task) × (serving_ref ref ts ≡ some u)
unfolding serving_ref
serving_ref-found ref [] t i p q = elim i [ ]
serving_ref-found ref (v ∷ vs) t i p q =
    elim (Bool-cases (v.id == ref && state_beq v.state running)) [
      | inl here ↦ (v, rw here)
      | inr other ↦ elim i [
        | inl e ↦ absurd (ground (arith, e, p, q, eq_iff v.id ref))
        | inr j ↦ let (u, r) = serving_ref-found ref vs t j p q in (u, rw other r)
      ]
    ]

-- What a start answers keeps the kind and a given id of the task, and runs where no state was set.
record Keeps (t c : Task) : Type 0 where
  same_kind : c.kind ≡ t.kind
  same_id : t.id ≢ "" → c.id ≡ t.id
  runs : t.state ≡ unset → c.state ≡ running

start_bound-Keeps :
    (a : Result String) (t c : Task) (w : World) → (start_bound a t w).0 ≡ ok c → Keeps t c
unfolding start_bound bound entering
start_bound-Keeps (err x) t c w e = cc
start_bound-Keeps (ok addr) t c w e = record {
  same_kind = ground (arith, e);
  same_id = λ n. ground (arith, e, eq_iff t.id "");
  runs = λ n. ground (arith, e);
}

start-Keeps :
    (net : Net) (ref : String) (w : World) (c : Task)
    → (start net (server_task ref) w).0 ≡ ok c
    → Keeps (prepare server (server_task ref)) c
unfolding start prepare server_task
start-Keeps net ref w c e =
    start_bound-Keeps (listen net "127.0.0.1:0" w.files).0 (prepare server (server_task ref)) c _ e

module _ (parse_key : String → Option (List String)) (net : Net) (params : Params) where
  -- A server that runs for the reference is answered, and nothing is started.
  reuses :
      (j : Job) (t : Task)
      → parse_key (str params "authorized_key") ≡ some []
      → In t (select kind j.world)
      → t.id ≡ str params "ref"
      → t.state ≡ running
      → ((start_server parse_key net params j).0.status ≡ 200)
        × ((start_server parse_key net params j).1 ≡ j)
  unfolding start_server with_key serve_ref
  reuses j t k i p q =
      let (u, r) = serving_ref-found (str params "ref") (select kind j.world) t i p q in
      rw (k, r) (refl, refl)

  module _ (j : Job) (c : Task) (valid : parse_key (str params "authorized_key") ≡ some [])
      (fresh : serving_ref (str params "ref") (select kind j.world) ≡ none)
      (started_it : (start net (server_task (str params "ref")) j.world).0 ≡ ok c) where
    abbrev behind : Job
    behind = record j { world = (start net (server_task (str params "ref")) j.world).1 }

    first : start_server parse_key net params j ≡ (started (ok c), behind)
    unfolding start_server with_key serve_ref
    first = rw (valid, fresh, started_it)

    listed : In c (select kind behind.world)
    unfolding prepare server_task
    listed =
        let entered = start-Entered net (server_task (str params "ref")) j.world c started_it in
        let keeps = start-Keeps net (str params "ref") j.world c started_it in
        let there = In-select c.id behind.world j.world.next entered.listed in
        subst (λ k. In c (select k behind.world)) keeps.same_kind
          (subst (λ (t : Task). In t (select t.kind behind.world)) entered.stored there)

    -- A reference that is not empty has one server: once a request with a valid key has started it, the
    -- same request answers 200 and starts nothing.
    pub start_server-repeats :
        str params "ref" ≢ ""
        → let again = start_server parse_key net params (start_server parse_key net params j).1 in
          ((start_server parse_key net params j).0.status ≡ 201)
          × (again.0.status ≡ 200)
          × (again.1 ≡ (start_server parse_key net params j).1)
    unfolding prepare server_task
    start_server-repeats n =
        let keeps = start-Keeps net (str params "ref") j.world c started_it in
        let (status, same) = reuses behind c valid listed (keeps.same_id n) (keeps.runs refl) in
        rw first (unfold started in refl, status, same)
