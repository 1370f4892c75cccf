-- ===== src/Queue/Json.antt =====
-- The JSON values that a message carries and that a backend stores: numbers are counts or ticks of
-- the clock.
use competitor_intelligence.Base.{ℕ, Bool, Option, none, some, String, ite, string_discrete}

mutual
  pub data Json : Type 0 where
    null : Json
    flag : Bool → Json
    num : ℕ → Json
    text : String → Json
    arr : JsonItems → Json
    obj : JsonFields → Json

  pub data JsonItems : Type 0 where
    nil : JsonItems
    cons : Json → JsonItems → JsonItems

  pub data JsonFields : Type 0 where
    end : JsonFields
    field : String → Json → JsonFields → JsonFields

-- `data.get(k)`
unfoldable pub get : String → JsonFields → Option Json
get k end = none
get k (field j v fs) = ite (string_discrete j k) (some v) (get k fs)
