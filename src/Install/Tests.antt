-- ===== src/Install/Tests.antt =====
-- Concrete fetches of internal/install.
use linkspan.Base.{String, ◌≡◌, refl, none, [], ◌∷◌, lookup, insert, delete, ok}
use linkspan.Install.{Answers, fetch}

abbrev served : Answers
served = record {
  mkdir = none;
  response = ok (record { status = 200; line = "200 OK"; body = ok "ELF" });
  write = none;
  rename = none;
}

abbrev ttyd : String
ttyd = "/root/.cybershuttle/bin/ttyd"

-- The whole body at the destination, and no .part file.
fetch-ttyd : fetch served ttyd "https://host/ttyd" [] ≡ (none, (ttyd, "ELF") ∷ [])
unfolding fetch insert lookup delete
fetch-ttyd = refl
