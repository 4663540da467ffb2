-- ===== src/Json.antt =====
-- JSON as tokens carry it: typescript/src/canonical-json.ts and strict-json.ts. A text is the list of
-- its UTF-16 code units.
pub mod Strings
pub mod Numbers
pub mod Canonical
pub mod Strict
pub mod RoundTrip
pub mod Lengths
pub mod Turns
pub mod Total
pub mod Once
mod Tests
use licensing.Common.{ℕ, Bool, String, List, [], ◌∷◌, ◌++◌}

abbrev pub Units : Type 0
Units = List ℕ

-- A `number`: an integer with its sign, -0 being `whole true 0`, or another number by some text.
pub data Number : Type 0 where
  whole : Bool → ℕ → Number
  fraction : Units → Number

-- The JSON values. An object has its own properties in the order in which they were written: the order
-- in which JavaScript lists keys that look like numbers is left aside.
mutual
  pub data Value : Type 0 where
    null : Value
    bool : Bool → Value
    num : Number → Value
    str : Units → Value
    arr : Items → Value
    obj : Fields → Value

  pub data Items : Type 0 where
    no_items : Items
    item : Value → Items → Items

  pub data Fields : Type 0 where
    no_fields : Fields
    field : Units → Value → Fields → Fields

-- The own properties of an object as pairs, and back.
abbrev pub pairs_of : Fields → List (Units × Value)
pairs_of no_fields = []
pairs_of (field key v fs) = (key, v) ∷ pairs_of fs

abbrev pub fields_of : List (Units × Value) → Fields
fields_of [] = no_fields
fields_of ((key, v) ∷ pairs) = field key v (fields_of pairs)
