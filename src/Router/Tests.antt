-- ===== src/Router/Tests.antt =====
-- Concrete requests to internal/router.
use linkspan.Base.{ℕ, suc, ◌≡◌, refl, some, [], ◌∷◌, insert, lookup}
use linkspan.Base.Json.{text}
use linkspan.Router.{Action, str, Router, absent, handle, replied, refused_method, refused_path}

-- An action that answers a constant and counts its runs.
abbrev count : Action ℕ
count p n = (record { status = 200; body = some (text (str p "id")); message = "" }, suc n)

abbrev terminals : Router ℕ
terminals = record {
  prefix = "/terminal";
  routes = ("GET /terminal/sessions", count) ∷ ("DELETE /terminal/sessions/{id}", count) ∷ [];
}

-- A route, a method that the path does not have, and a path that no route has.
handle-tests :
    (handle terminals "DELETE" "/terminal/sessions/t-9" absent 0
      ≡ replied (200, some (text "t-9")) 1)
    × (handle terminals "PUT" "/terminal/sessions/t-9" absent 0 ≡ refused_method ("DELETE" ∷ []))
    × (handle terminals "HEAD" "/terminal/sessions" absent 0 ≡ replied (200, some (text "")) 1)
    × (handle terminals "GET" "/terminal/sessions/" absent 0 ≡ refused_path)
unfolding handle str insert lookup
handle-tests = (refl, refl, refl, refl)
