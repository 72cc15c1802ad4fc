-- ===== src/Usage/Gpu/Dcgm.antt =====
-- internal/usage/gpu.go, openDCGM: a connection to the DCGM host engine that watches every GPU of the job.
-- The host engine's answers are arguments; `live` are the handles of the connections that are open.
use linkspan.Base.{
  ℕ, length, ◌≤◌, ◌+◌, ◌*◌, ◌^◌, String, Bool, true, false, ◌&&◌, ◌||◌, Option, none, some, List,
  [], ◌∷◌, ◌++◌, Map, lookup, insert, ltb, leb, ◌==◌, nat_eq, if◌then◌else◌,
}
use linkspan.Base.Int.{ℤ, pos, negsuc, int_eq}
use linkspan.Usage.Defs.{wrap_positive}
use linkspan.Usage.Gpu.Values.{
  Metric, metrics, Gpu, Float, float, of_bits, Reading, succeeded, cstr, Linker, bind,
  native_endian,
}

pub record DcgmValue : Type 0 where
  pub entity : ℕ
  pub field : ℕ
  pub kind : ℕ
  pub status : ℤ
  pub value : String

-- The answers to one opening: connect and its handle, the devices, the values of their UUIDs, the
-- creation of a group, the addition of an entity to it, the creation of a field group, and watch. The
-- devices are ids[:n], of the 32 that ids has room for: DCGM counts no more (DCGM_MAX_NUM_DEVICES).
pub record Engine : Type 0 where
  pub connect : ℤ × ℕ
  pub devices : ℤ × List ℕ
  pub counted : length devices.1 ≤ 32
  pub uuids : List ℕ → ℤ × List DcgmValue
  pub group : ℤ
  pub add_entity : ℕ → ℤ
  pub field_group : ℤ
  pub watch : ℤ

abbrev pub dcgm_symbols : List String
dcgm_symbols =
    "dcgmInit" ∷ "dcgmConnect" ∷ "dcgmDisconnect" ∷ "dcgmGetAllSupportedDevices"
    ∷ "dcgmEntitiesGetLatestValues" ∷ "dcgmGroupCreate" ∷ "dcgmGroupAddEntity"
    ∷ "dcgmFieldGroupCreate" ∷ "dcgmWatchFields" ∷ "dcgmUpdateAllFields" ∷ []

-- loadDCGM: whether it answers the functions.
abbrev pub load_dcgm : Linker → ℤ → Bool
load_dcgm l initialize = bind l "libdcgm.so.4" dcgm_symbols && succeeded initialize

-- uuids[id] = uuid
unfoldable pub set_uuid : ℕ → String → List (ℕ × String) → List (ℕ × String)
set_uuid id uuid [] = (id, uuid) ∷ []
set_uuid id uuid ((first, old) ∷ rest) =
    let others = set_uuid id uuid rest in
    if first == id then (id, uuid) ∷ rest else (first, old) ∷ others

-- uuids[id]
unfoldable pub uuid_of : ℕ → List (ℕ × String) → String
uuid_of id [] = ""
uuid_of id ((first, uuid) ∷ rest) =
    let others = uuid_of id rest in if first == id then uuid else others

-- The reader that openDCGM answers, once every GPU is watched.
pub record Watch : Type 0 where
  pub handle : ℕ
  pub entities : List ℕ
  pub uuids : List (ℕ × String)

-- get: no values where the call fails.
abbrev pub values_of : ℤ × List DcgmValue → List DcgmValue
values_of (status, values) = if succeeded status then values else []

-- byUUID
unfoldable pub by_uuid : List DcgmValue → Map ℕ → Map ℕ
unfolding insert cstr
by_uuid [] ids = ids
by_uuid (v ∷ vs) ids =
    by_uuid vs (if succeeded v.status then insert (cstr v.value) v.entity ids else ids)

-- The loop that adds each GPU of the job to the group.
unfoldable pub add_each : Engine → ℕ → Map ℕ → List Gpu → List ℕ → List (ℕ × String) → Option Watch
unfolding lookup set_uuid
add_each e h ids [] entities uuids = some record { handle = h; entities = entities; uuids = uuids }
add_each e h ids (g ∷ gs) entities uuids = elim (lookup g.uuid ids) [
  | none ↦ none
  | some id ↦
      let rest = add_each e h ids gs (entities ++ (id ∷ [])) (set_uuid id g.uuid uuids) in
      if succeeded (e.add_entity id) then rest else none
]

-- The watch, where the fields are grouped and watched.
abbrev pub watch_fields : Engine → Option Watch → Option Watch
watch_fields e none = none
watch_fields e (some w) = if succeeded e.field_group && succeeded e.watch then some w else none

-- n != 0
abbrev pub has_any : List ℕ → Bool
has_any [] = false
has_any (id ∷ ids) = true

-- From the devices to the watch: `none` stands for each of the returns of fail().
unfoldable pub watch_gpus : Engine → List Gpu → ℕ → Option Watch
unfolding by_uuid add_each
watch_gpus e gpus h =
    if succeeded e.devices.0 && has_any e.devices.1
    then (if succeeded e.group
        then watch_fields e (add_each e h (by_uuid (values_of (e.uuids e.devices.1)) []) gpus [] [])
        else none)
    else none

-- disconnect
unfoldable pub disconnect : ℕ → List ℕ → List ℕ
disconnect h [] = []
disconnect h (first ∷ live) =
    let rest = disconnect h live in if first == h then live else first ∷ rest

-- What is left open: the connection of a watch, and none behind fail().
abbrev pub connected : ℕ → List ℕ → Option Watch → Option Watch × List ℕ
connected h live none = (none, disconnect h (h ∷ live))
connected h live (some w) = (some w, h ∷ live)

-- openDCGM: `none` is the reader that answers nil.
unfoldable pub open_dcgm : Bool → Engine → List Gpu → List ℕ → Option Watch × List ℕ
unfolding watch_gpus disconnect
open_dcgm loaded e gpus live =
    let h : ℕ = e.connect.1 in
    if loaded && succeeded e.connect.0 then connected h live (watch_gpus e gpus h) else (none, live)

-- int64(raw) < dcgmInt64Blank
abbrev pub int_known : ℤ → Bool
int_known (pos n) = ltb n 9223372036854775792
int_known (negsuc n) = true

-- Float64frombits(raw) < 2^47, on the bits: of the numbers without the sign those below the bits of
-- 2^47, and with it all but those behind the infinity, which are no numbers.
abbrev pub float_known : ℕ → Bool
float_known raw = ltb raw (1070 * 2 ^ 52) || leb (2 ^ 63) raw && leb raw (2 ^ 63 + 2047 * 2 ^ 52)

-- The map of the kinds: 'd' and 'i'.
unfoldable pub reading_of : ℕ → ℕ → Reading
unfolding wrap_positive
reading_of kind raw =
    if kind == 100
    then record { value = of_bits raw; good = float_known raw }
    else if kind == 105
    then record { value = float (wrap_positive raw); good = int_known (wrap_positive raw) }
    else record { value = float (pos 0); good = false }

-- keys[field], "" where it is missing
abbrev pub key_of : ℕ → List Metric → String
key_of field [] = ""
key_of field (m ∷ ms) = let rest = key_of field ms in if m.dcgm == field then m.key else rest

-- out[uuid][key] = value, which panics where out[uuid] is nil.
abbrev pub assign_key :
    String → String → Float → Option (Map Float) → Map (Map Float) → Option (Map (Map Float))
assign_key uuid key value none out = none
assign_key uuid key value (some e) out = some (insert uuid (insert key value e) out)

-- The body of the loop over the values.
unfoldable pub assign_value :
    List (ℕ × String) → DcgmValue → Map (Map Float) → Option (Map (Map Float))
unfolding uuid_of lookup insert reading_of native_endian
assign_value uuids v out =
    let r : Reading = reading_of v.kind (native_endian 8 v.value) in
    let uuid : String = uuid_of v.entity uuids in
    if succeeded v.status && r.good
    then assign_key uuid (key_of v.field metrics) r.value (lookup uuid out) out
    else some out

unfoldable pub assign_values :
    List (ℕ × String) → List DcgmValue → Map (Map Float) → Option (Map (Map Float))
unfolding assign_value
assign_values uuids [] out = some out
assign_values uuids (v ∷ vs) out = elim (assign_value uuids v out) [
  | none ↦ none
  | some next ↦ assign_values uuids vs next
]

-- out[u] = {} for each UUID
unfoldable pub empty_each : List (ℕ × String) → Map (Map Float)
unfolding insert
empty_each [] = []
empty_each ((id, uuid) ∷ uuids) = insert uuid [] (empty_each uuids)

-- What the reader does: it answers nil and disconnects, it panics, or it answers values.
pub data Read : Type 0 where
  failed : Read
  panicked : Read
  answered : Map (Map Float) → Read

abbrev pub read_of : Option (Map (Map Float)) → Read
read_of none = panicked
read_of (some out) = answered out

unfoldable pub read_dcgm : Watch → ℤ × List DcgmValue → Read
unfolding assign_values empty_each
read_dcgm w (status, values) =
    if succeeded status then read_of (assign_values w.uuids values (empty_each w.uuids)) else failed
