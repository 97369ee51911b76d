-- ===== src/Json.antt =====
-- `serde_json::Value`, the shape of a parsed JSON document. The numbers are those of the library,
-- and are a parameter. An object lists its members in the order in which the map is iterated.
use rs_runvault.Base.{Bool, Text}

mutual
  pub data Value (N : Type 0) : Type 0 where
    null : Value N
    bool : Bool → Value N
    number : N → Value N
    string : Text → Value N
    array : Items N → Value N
    object : Members N → Value N

  pub data Items (N : Type 0) : Type 0 where
    nil : Items N
    cons : Value N → Items N → Items N

  pub data Members (N : Type 0) : Type 0 where
    end : Members N
    member : Text → Value N → Members N → Members N
