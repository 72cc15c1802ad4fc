-- ===== src/Startup/Mounting.antt =====
-- main.go, startAll: the mux of the API hands each request to the tree of routes or to forward.Stream.
use linkspan.Base.{
  String, ◌≡◌, ◌≢◌, refl, sym, subst, ap, ◌∙◌, inl, inr, ◌⊎◌, true, false, none, some, List, [],
  ◌∷◌, Bool-cases, eq_iff, string_eq, ◌==◌, arith,
}
use linkspan.Base.Json.{Json}
use linkspan.Go.Strings.{cut, split}
use linkspan.Go.Mux.{
  pattern_of, segment_of, path_of, path_value, entries_of, match_path, under_literal,
  under_wildcard, ending, found_in, match_method, matching_methods, find_handler, routed_by,
}
use linkspan.Go.Matching.{matches}
use linkspan.Go.Finding.{match_path-only}
use linkspan.Go.Routing.{fits, FitsNone, found_in-none, match_method-first, match_method-any}
use linkspan.Router.{Decoded, handle}
use linkspan.Subsystems.Checkpoint.{Site}
use linkspan.Startup.Tree.{
  NodeAnswers, api, forward_pattern, api_mux, handled, streams, served, serve_api, tree, Endpoint,
}

module _ (n : NodeAnswers) (latest : Json) (body : Decoded) (s : Site) where
  -- A GET of a path forward/{port} streams to that port.
  pub serve_api-streams :
      (path port : String)
      → path_of path ≡ "api" ∷ "v1" ∷ "forward" ∷ port ∷ []
      → port ≢ ""
      → serve_api n latest "GET" path body s ≡ streams port
  unfolding serve_api find_handler match_method entries_of match_path under_literal under_wildcard
      ending pattern_of segment_of split cut path_value
  serve_api-streams path port e p =
      let full : (port == "") ≡ false = ground (arith, eq_iff port "") in
      rw (serve_api, e, full) refl

no_forward :
    (method : String) (path : List String)
    → (fits forward_pattern path ≡ none) ⊎ (method ≢ "GET")
    → method ≢ ""
    → FitsNone api_mux method path
unfolding pattern_of split cut segment_of
no_forward method path h m text a (inl e) q =
    absurd (m (sym q ∙ ap (λ (x : String × Endpoint). (pattern_of x.0).method) e))
no_forward method path (inl h) m text a (inr (inl e)) q =
    ap (λ (x : String × Endpoint). fits x.0 path) e ∙ h
no_forward method path (inr h) m text a (inr (inl e)) q =
    absurd (h (sym q ∙ ap (λ (x : String × Endpoint). (pattern_of x.0).method) e))
no_forward method path h m text a (inr (inr i)) q = elim i [ ]

root_found :
    (x : String) (rest : List String)
    → found_in api_mux "" (x ∷ rest) ≡ some ((pattern_of "/", api), [])
unfolding entries_of pattern_of split cut segment_of matches
root_found x rest =
    match_path-only (entries_of "" api_mux) (x ∷ rest) [] true (pattern_of "/", api) [] (inl refl)
      refl (λ other i n. elim i [ inl e ↦ e | inr j ↦ absurd j ])

get_ne : ◌≢◌ {A = String} "GET" ""
get_ne e = cc e

-- A request that is none to forward/{port}.
abbrev pub IsElsewhere : String → List String → Type 0
IsElsewhere method path =
    (fits forward_pattern path ≡ none) ⊎ ((method ≢ "GET") × (method ≢ "HEAD"))

not_get :
    (method : String) (path : List String)
    → IsElsewhere method path
    → (fits forward_pattern path ≡ none) ⊎ (method ≢ "GET")
not_get method path (inl h) = inl h
not_get method path (inr h) = inr h.0

not_head :
    (method : String) (path : List String)
    → IsElsewhere method path
    → method ≡ "HEAD"
    → found_in api_mux "GET" path ≡ none
not_head method path (inl h) e =
    found_in-none api_mux "GET" path (no_forward "GET" path (inl h) get_ne)
not_head method path (inr h) e = absurd (h.1 e)

name_ne : (s : String) → (s == "") ≡ false → s ≢ ""
name_ne s q e = absurd (cc (sym q ∙ (eq_iff s "").1 e))

api_found :
    (method x : String) (rest : List String)
    → IsElsewhere method (x ∷ rest)
    → match_method api_mux method (x ∷ rest) ≡ some ((pattern_of "/", api), [])
api_found method x rest h = elim (Bool-cases (method == "")) [
  | inl q ↦
      match_method-first api_mux method (x ∷ rest) ((pattern_of "/", api), [])
        (subst (λ m. found_in api_mux m (x ∷ rest) ≡ some ((pattern_of "/", api), []))
          (sym ((eq_iff method "").0 q)) (root_found x rest))
  | inr q ↦
      match_method-any api_mux method (x ∷ rest) ((pattern_of "/", api), [])
        (found_in-none api_mux method (x ∷ rest)
          (no_forward method (x ∷ rest) (not_get method (x ∷ rest) h) (λ e. name_ne method q e)))
        (not_head method (x ∷ rest) h) (root_found x rest)
]

module _ (n : NodeAnswers) (latest : Json) (body : Decoded) (s : Site) where
  -- Any other request, whatever its method, is the tree's.
  pub serve_api-handled :
      (method path x : String) (rest : List String)
      → path_of path ≡ x ∷ rest
      → IsElsewhere method (x ∷ rest)
      → serve_api n latest method path body s ≡ handled (handle (tree n latest) method path body s)
  unfolding serve_api find_handler
  serve_api-handled method path x rest e h =
      ap (λ p. served (handle (tree n latest) method path body s) (find_handler api_mux method p)) e
      ∙ ap
          (λ o.
            served (handle (tree n latest) method path body s)
              (routed_by o (matching_methods api_mux api_mux (x ∷ rest))))
          (api_found method x rest h)
