-- ===== src/Types/Json.antt =====
-- `JSONValue` of typescript/src/types.ts: the free-form values of `meta`, `entitlements` and the
-- audit snapshots. A number is a natural number, or any other number by its shortest decimal text.
use licensing.Common.{ℕ, String, Bool, Option, none, some}

mutual
  pub data JsonValue : Type 0 where
    null : JsonValue
    bool : Bool → JsonValue
    num : ℕ → JsonValue
    real : String → JsonValue
    str : String → JsonValue
    arr : JsonItems → JsonValue
    obj : JsonObject → JsonValue

  pub data JsonItems : Type 0 where
    nil : JsonItems
    cons : JsonValue → JsonItems → JsonItems

  -- `Record<string, JsonValue>`, its entries in order.
  pub data JsonObject : Type 0 where
    end : JsonObject
    field : String → JsonValue → JsonObject → JsonObject

-- A `string | null` as a JSON value.
abbrev pub opt_str : Option String → JsonValue
opt_str none = null
opt_str (some s) = str s
