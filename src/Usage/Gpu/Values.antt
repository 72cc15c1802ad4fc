-- ===== src/Usage/Gpu/Values.antt =====
-- internal/usage/gpu.go: the metrics, a GPU, what is read, and the libraries that are loaded at run time.
-- A C buffer is a text of its bytes; a status is an int32; a float64 is the expression that makes it.
use Prim.Native.Char.{code}
use linkspan.Base.{
  ℕ, zero, suc, ◌+◌, ◌*◌, String, Bool, true, ◌&&◌, none, some, List, [], ◌∷◌, Map, insert, ◌==◌,
  if◌then◌else◌,
}
use linkspan.Base.Int.{ℤ, pos, int_eq}
use linkspan.Go.Strings.{cut}

pub record Metric : Type 0 where
  pub key : String
  pub dcgm : ℕ

abbrev pub metrics : List Metric
metrics =
    record { key = "utilPct"; dcgm = 203 }
    ∷ record { key = "memUtilPct"; dcgm = 204 }
    ∷ record { key = "memUsedMiB"; dcgm = 252 }
    ∷ record { key = "memTotalMiB"; dcgm = 250 }
    ∷ record { key = "powerW"; dcgm = 155 }
    ∷ record { key = "tempC"; dcgm = 150 }
    ∷ record { key = "memTempC"; dcgm = 140 }
    ∷ record { key = "smClockMHz"; dcgm = 100 }
    ∷ record { key = "memClockMHz"; dcgm = 101 }
    ∷ record { key = "throttleReasons"; dcgm = 112 }
    ∷ record { key = "eccErrors"; dcgm = 311 }
    ∷ record { key = "energyMJ"; dcgm = 156 }
    ∷ record { key = "xidLast"; dcgm = 230 }
    ∷ record { key = "smActive"; dcgm = 1002 }
    ∷ record { key = "smOccupancy"; dcgm = 1003 }
    ∷ record { key = "tensorActive"; dcgm = 1004 }
    ∷ record { key = "dramActive"; dcgm = 1005 }
    ∷ record { key = "fp64Active"; dcgm = 1006 }
    ∷ record { key = "fp32Active"; dcgm = 1007 }
    ∷ record { key = "fp16Active"; dcgm = 1008 }
    ∷ record { key = "pcieTxBytesPerSec"; dcgm = 1009 }
    ∷ record { key = "pcieRxBytesPerSec"; dcgm = 1010 }
    ∷ record { key = "nvlinkTxBytesPerSec"; dcgm = 1011 }
    ∷ record { key = "nvlinkRxBytesPerSec"; dcgm = 1012 }
    ∷ []

pub record Gpu : Type 0 where
  pub index : ℕ
  pub uuid : String
  pub name : String
  pub handle : ℕ

-- The float64 of an integer, of an integer times 0.001, and of 64 bits.
pub data Float : Type 0 where
  float : ℤ → Float
  thousandths : ℕ → Float
  of_bits : ℕ → Float

pub record Reading : Type 0 where
  pub value : Float
  pub good : Bool

-- What a C function answers: 0 is success.
abbrev pub succeeded : ℤ → Bool
succeeded status = status == pos 0

-- cstr
unfoldable pub cstr : String → String
unfolding cut
cstr b = elim (cut 0 b) [ none ↦ b | some (s, rest) ↦ s ]

pub data Scale : Type 0 where
  unit : Scale
  thousandth : Scale

abbrev pub scaled : Scale → ℕ → Float
scaled unit v = float (pos v)
scaled thousandth v = thousandths v

-- scalar, on what the call answers and writes.
abbrev pub scalar : Scale → ℤ × ℕ → Reading
scalar by (status, v) = record { value = scaled by v; good = succeeded status }

-- The run-time linker.
pub record Linker : Type 0 where
  pub dlopen : String → Bool
  pub dlsym : String → String → Bool

abbrev pub each_symbol : Linker → String → List String → Bool
each_symbol l lib [] = true
each_symbol l lib (name ∷ names) = let rest = each_symbol l lib names in l.dlsym lib name && rest

-- bind
abbrev pub bind : Linker → String → List String → Bool
bind l lib names = l.dlopen lib && each_symbol l lib names

-- e[key] = r.value, where r.ok
abbrev pub put : String → Reading → Map Float → Map Float
put key r e = if r.good then insert key r.value e else e

-- The first bytes as a native integer, the lowest first.
unfoldable pub native_endian : ℕ → String → ℕ
native_endian zero s = 0
native_endian (suc n) String.[] = 0
native_endian (suc n) (String.◌∷◌ c s) = code c + 256 * native_endian n s
