-- ===== src/Base/Json.antt =====
-- Values of encoding/json and of a YAML document: what an `any` holds.
use Prim.Native.String.{String}
use mathlib.Core.Bool.{Bool}
use mathlib.Core.List.{List, [], ◌∷◌}
use linkspan.Base.Int.{ℤ}
use linkspan.Base.Maps.{Map}

mutual
  pub data Json : Type 0 where
    null : Json
    boolean : Bool → Json
    number : ℤ → Json
    text : String → Json
    array : Items → Json
    object : Fields → Json

  pub data Items : Type 0 where
    nil : Items
    cons : Json → Items → Items

  pub data Fields : Type 0 where
    end : Fields
    field : String → Json → Fields → Fields

unfoldable pub fields_of : Map Json → Fields
fields_of [] = end
fields_of ((k, v) ∷ m) = field k v (fields_of m)

unfoldable pub items_of : List Json → Items
items_of [] = nil
items_of (v ∷ vs) = cons v (items_of vs)

-- A map as an object.
abbrev pub of_map : Map Json → Json
of_map m = object (fields_of m)
