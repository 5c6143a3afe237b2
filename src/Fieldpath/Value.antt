-- ===== src/Fieldpath/Value.antt =====
-- The JSON data that a paved object holds: what `encoding/json` makes of a document. A map has no
-- order and one value for each key; here it is a list of entries in which the first entry of a
-- key counts. Two values of one object share no array and no map, as in data that was unmarshalled.
use crossplane_runtime.Base.{ℕ, Bool, Bytes}

mutual
  -- An int64 stands for its bits, as does a float64.
  pub data Value : Type 0 where
    null : Value
    bool : Bool → Value
    int : ℕ → Value
    float : ℕ → Value
    string : Bytes → Value
    array : Items → Value
    object : Fields → Value

  pub data Items : Type 0 where
    nil : Items
    cons : Value → Items → Items

  pub data Fields : Type 0 where
    end : Fields
    entry : Bytes → Value → Fields → Fields
