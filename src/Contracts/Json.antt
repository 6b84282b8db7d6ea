-- ===== src/Contracts/Json.antt =====
-- `serde_json::Value`, the payload of an event whose shape the core does not interpret.
use context_layer.Base.{ℕ, Bool, Text}

-- An unsigned integer, the absolute value of a negative one, or the bits of a double.
pub data Number : Type 0 where
  pos_int neg_int float : ℕ → Number

mutual
  pub data Value : Type 0 where
    null : Value
    bool : Bool → Value
    number : Number → Value
    string : Text → Value
    array : Items → Value
    object : Fields → Value

  pub data Items : Type 0 where
    nil : Items
    cons : Value → Items → Items

  pub data Fields : Type 0 where
    end : Fields
    field : Text → Value → Fields → Fields

-- `json!(n)` at an unsigned integer.
abbrev pub uint : ℕ → Value
uint n = number (Number.pos_int n)
