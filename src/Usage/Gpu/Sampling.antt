-- ===== src/Usage/Gpu/Sampling.antt =====
-- internal/usage/gpu.go, openGPUs: the connection to DCGM over the samples of a run.
use linkspan.Base.{
  ℕ, ◌≡◌, refl, ap, ◌∙◌, inl, inr, Bool, Option, none, some, List, [], ◌∷◌, All, In,
}
use linkspan.Usage.Gpu.{
  Gpu, DcgmValue, Engine, Watch, disconnect, Gpus, Answers, Sampled, from_nvml, sample_gpus,
  open_gpus, samples, entries,
}
use linkspan.Usage.Gpu.Watching.{
  connections, Holding, disconnect_self, open_dcgm-Holding, read_dcgm-cases,
}

-- The open connections are that of the reader, and none without one.
abbrev pub IsConnected : Gpus → Type 0
IsConnected s = Holding (s.dcgm, s.live)

-- The values that DCGM answers are of the entities that it is asked for.
abbrev pub Asked : Answers → Type 0
Asked a = (es : List ℕ) → All (λ (v : DcgmValue). In v.entity es) (a.newest es).1

module _ (loaded : Bool) where
  from_nvml-IsConnected :
      (gpus : List Gpu) (a : Answers) (live : List ℕ)
      → live ≡ []
      → IsConnected (from_nvml loaded gpus a live).state
  unfolding from_nvml
  from_nvml-IsConnected gpus a live e = rw e (open_dcgm-Holding loaded a.engine gpus)

  held-IsConnected :
      (g : Gpu) (gs : List Gpu) (a : Answers) (live : List ℕ) (o : Option Watch)
      → Asked a
      → Holding (o, live)
      → (r : Sampled) × (sample_gpus loaded (g ∷ gs) a (record { live = live; dcgm = o }) ≡ some r)
        × IsConnected r.state
  unfolding sample_gpus
  held-IsConnected g gs a live none asked c =
      (from_nvml loaded (g ∷ gs) a live, refl, from_nvml-IsConnected (g ∷ gs) a live c.0)
  held-IsConnected g gs a live (some w) asked c =
      elim (read_dcgm-cases w.handle w (a.newest w.entities) c.1 (asked w.entities)) [
        | inl f ↦ (
          from_nvml loaded (g ∷ gs) a (disconnect w.handle live),
          rw (sample_gpus, f) refl,
          from_nvml-IsConnected (g ∷ gs) a (disconnect w.handle live)
              (ap (disconnect w.handle) c.0 ∙ disconnect_self w.handle []),
        )
        | inr (values, f) ↦ (
          record {
            source = some "dcgm";
            gpus = entries values (g ∷ gs);
            state = record { live = live; dcgm = some w };
          },
          rw (sample_gpus, f) refl,
          c,
        )
      ]

  pub sample-IsConnected :
      (gpus : List Gpu) (a : Answers) (s : Gpus)
      → Asked a
      → IsConnected s
      → (r : Sampled) × (sample_gpus loaded gpus a s ≡ some r) × IsConnected r.state
  unfolding sample_gpus
  sample-IsConnected [] a s asked c = (record { source = none; gpus = []; state = s }, refl, c)
  sample-IsConnected (g ∷ gs) a s asked c = held-IsConnected g gs a s.live s.dcgm asked c

  samples-IsConnected :
      (gpus : List Gpu) (asks : List Answers) (s : Gpus)
      → All Asked asks
      → IsConnected s
      → (t : Gpus) × (samples loaded gpus asks s ≡ some t) × IsConnected t
  unfolding samples
  samples-IsConnected gpus [] s asked c = (s, refl, c)
  samples-IsConnected gpus (a ∷ asks) s asked c =
      let (r, e, d) = sample-IsConnected gpus a s asked.0 c in
      let (t, f, b) = samples-IsConnected gpus asks r.state asked.1 d in (t, rw (e, samples) f, b)

  pub open_gpus-IsConnected : (e : Engine) (gpus : List Gpu) → IsConnected (open_gpus loaded e gpus)
  unfolding open_gpus
  open_gpus-IsConnected e [] = (refl, tt)
  open_gpus-IsConnected e (g ∷ gs) = open_dcgm-Holding loaded e (g ∷ gs)

-- While DCGM answers values of the entities that it is asked for only, and counts no more than the 32
-- devices that it is given room for, no sample of a run panics, whatever else the libraries answer and however often they fail; and behind every sample the
-- connections to DCGM that are open are the one of the reader in use, or none where no reader is: a
-- connection is never lost open, neither by an opening that fails half way nor by a reader that fails.
pub samples-Connected :
    (loaded : Bool) (e : Engine) (gpus : List Gpu) (asks : List Answers)
    → All Asked asks
    → (s : Gpus) × (samples loaded gpus asks (open_gpus loaded e gpus) ≡ some s)
      × (s.live ≡ connections s.dcgm)
samples-Connected loaded e gpus asks asked =
    let (s, r, c) =
      samples-IsConnected loaded gpus asks (open_gpus loaded e gpus) asked
        (open_gpus-IsConnected loaded e gpus) in
    (s, r, c.0)
