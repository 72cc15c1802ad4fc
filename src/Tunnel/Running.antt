-- ===== src/Tunnel/Running.antt =====
-- internal/tunnel/devtunnel/devtunnel.go, Host: what it runs, and what its error says.
use linkspan.Base.{
  ℕ, String, ◌≡◌, refl, subst, sym, ap, inl, inr, ◌⊎◌, true, none, some, List, [], ◌∷◌, Map, lookup,
  Result, ok, err, concat, is_some, Option-cases, Bool-cases, false, ◌++◌, ◌||◌,
}
use linkspan.Install.{Platform, Answers, Outcome, asset, bin, download, fetch, fetch_lines}
use linkspan.Install.Fetching.{Published, fetch-Published}
use linkspan.Tunnel.Transports.{Tunnel}
use linkspan.Tunnel.Accepting.{tail, joined, write_all-tail}
use linkspan.Tunnel.Hosting.{
  HostProcess, Hosted, assets, cli_url, host_argv, running_line, exit_text, qualified_id, exec_host,
  fetched_host, host_asset, host,
}

module _ (p : Platform) (a : Answers) (exec : List String → HostProcess) (quoted : List ℕ → String)
    (t : Tunnel) (files : Map String) where
  abbrev pub cli : String
  unfolding bin
  cli = bin p "devtunnel"

  -- id.cluster, the arguments of the CLI, and its line, which has no token.
  abbrev pub argv_of : List String
  argv_of = cli ∷ "host" ∷ concat (t.id ∷ "." ∷ t.cluster ∷ []) ∷ "--access-token" ∷ t.token ∷ []

  abbrev pub running : String
  running = concat (
      "devtunnel: running "
      ∷ cli
      ∷ " host "
      ∷ concat (t.id ∷ "." ∷ t.cluster ∷ [])
      ∷ " --access-token [redacted]"
      ∷ [])

  abbrev pub downloading : String → String
  downloading name = concat ("install: downloading " ∷ cli_url name ∷ " -> " ∷ cli ∷ [])

  abbrev pub process : HostProcess
  process = exec argv_of

  -- The CLI ran: it was there, and the files are as they were, or it is the whole body of a 200 response,
  -- whose download is logged.
  abbrev pub IsInstalled : String → List String → Map String → Type 0
  IsInstalled name lines left =
      ((is_some (lookup cli files) ≡ true) × (left ≡ files) × (lines ≡ []))
      ⊎ (Published a cli left × (lines ≡ downloading name ∷ []))

  pub record IsRun (h : Hosted) : Type 0 where
    pub name : String
    pub lines : List String
    pub known : asset p assets "devtunnel" ≡ ok name
    pub installed : IsInstalled name lines h.files
    pub argv : h.ran ≡ some argv_of
    pub logged : h.logged ≡ lines ++ (running ∷ [])
    pub error :
        h.error
        ≡ concat (
            "host process exited (output="
            ∷ quoted (tail (joined process.writes))
            ∷ "): "
            ∷ exit_text process.result
            ∷ [])

  -- Nothing ran: there is no CLI for the platform, or Fetch of it failed, and that is the error; a download
  -- at most is logged.
  pub record IsRefused (h : Hosted) : Type 0 where
    pub quiet : h.ran ≡ none
    pub error :
        ((asset p assets "devtunnel" ≡ err h.error) × (h.files ≡ files) × (h.logged ≡ []))
        ⊎ ((name : String) × (asset p assets "devtunnel" ≡ ok name)
            × (fetch a cli (cli_url name) files ≡ (some h.error, h.files))
            × ((h.logged ≡ []) ⊎ (h.logged ≡ downloading name ∷ [])))

  lines-cases :
      (name : String)
      → (fetch_lines a cli (cli_url name) files ≡ [])
        ⊎ (fetch_lines a cli (cli_url name) files ≡ downloading name ∷ [])
  unfolding fetch_lines
  lines-cases name = elim (Bool-cases (is_some (lookup cli files) || is_some a.mkdir)) [
    | inl e ↦ inl (rw e refl)
    | inr e ↦ inr (rw e refl)
  ]

  mkdir-none :
      (url : String) (left : Map String)
      → lookup cli files ≡ none
      → fetch a cli url files ≡ (none, left)
      → is_some a.mkdir ≡ false
  unfolding fetch download
  mkdir-none url left absent e = elim (Option-cases a.mkdir) [
    | inl n ↦ rw n refl
    | inr (x, m) ↦ absurd (cc (ap (λ (o : Outcome). o.0) (rw (fetch, absent, m) at e)))
  ]

  fetch-IsInstalled :
      (name : String) (left : Map String)
      → fetch a cli (cli_url name) files ≡ (none, left)
      → IsInstalled name (fetch_lines a cli (cli_url name) files) left
  unfolding fetch fetch_lines
  fetch-IsInstalled name left e = elim (Option-cases (lookup cli files)) [
    | inl absent ↦ inr (
      subst (Published a cli) (ap (λ (o : Outcome). o.1) e)
          (fetch-Published cli files a (cli_url name) absent (ap (λ (o : Outcome). o.0) e)),
      rw (fetch_lines, absent, mkdir-none (cli_url name) left absent e) refl,
    )
    | inr (content, there) ↦ inl (
      rw there refl,
      sym (ap (λ (o : Outcome). o.1) (rw (fetch, there) at e)),
      rw (fetch_lines, there) refl,
    )
  ]

  exec_host-IsRun :
      (name : String) (lines : List String) (left : Map String)
      → asset p assets "devtunnel" ≡ ok name
      → IsInstalled name lines left
      → IsRun (exec_host p a exec quoted t lines left)
  unfolding exec_host host_argv running_line qualified_id
  exec_host-IsRun name lines left k i = record {
    name = name;
    lines = lines;
    known = k;
    installed = i;
    argv = refl;
    logged = refl;
    error =
        ap
          (λ o.
            concat
              ("host process exited (output=" ∷ quoted o ∷ "): " ∷ exit_text process.result ∷ []))
          (write_all-tail process.writes);
  }

  fetched_host-cases :
      (name : String) (o : Outcome)
      → asset p assets "devtunnel" ≡ ok name
      → fetch a cli (cli_url name) files ≡ o
      → let h = fetched_host p a exec quoted t (fetch_lines a cli (cli_url name) files) o in
        IsRun h ⊎ IsRefused h
  unfolding fetched_host
  fetched_host-cases name (none, left) k e =
      inl (exec_host-IsRun name _ left k (fetch-IsInstalled name left e))
  fetched_host-cases name (some m, left) k e =
      inr (record { quiet = refl; error = inr (name, k, e, lines-cases name) })

  host_asset-cases :
      (r : Result String)
      → asset p assets "devtunnel" ≡ r
      → IsRun (host_asset p a exec quoted t files r)
        ⊎ IsRefused (host_asset p a exec quoted t files r)
  unfolding host_asset
  host_asset-cases (ok name) k = fetched_host-cases name (fetch a cli (cli_url name) files) k refl
  host_asset-cases (err m) k = inr (record { quiet = refl; error = inl (k, refl, refl) })

-- Host on each branch, whatever the file system, the network and the process answer. Either it runs the
-- CLI once, with id.cluster and the token as its arguments: a file that was there, or else the whole
-- body of a 200 response, with no .part file left. It logs that download, if any, and the path and
-- id.cluster of what it runs, with [redacted] in the token's place, and its error quotes the last 64 KiB
-- of what the process wrote, in whatever parts, and says how it ended. Or it runs nothing, and its error
-- is that the platform has no CLI, the files as they were and nothing logged, or that of Fetch, with
-- the download logged at most.
pub host-cases :
    (p : Platform) (a : Answers) (exec : List String → HostProcess) (quoted : List ℕ → String)
    (t : Tunnel) (files : Map String)
    → IsRun p a exec quoted t files (host p a exec quoted t files)
      ⊎ IsRefused p a exec quoted t files (host p a exec quoted t files)
unfolding host
host-cases p a exec quoted t files =
    host_asset-cases p a exec quoted t files (asset p assets "devtunnel") refl
