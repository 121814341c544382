-- ===== src/Models/Values.antt =====
-- The values of the `dict[str, Any]` fields that the tools pass on unread (`params`, `config`).
use wow_server_sim.Common.{ℤ, String, Bool}

mutual
  pub data Json : Type 0 where
    null : Json
    bool : Bool → Json
    int : ℤ → Json
    number : String → Json  -- a float, as Python writes it
    string : String → Json
    array : Items → Json
    object : Fields → Json

  pub data Items : Type 0 where
    none_left : Items
    item : Json → Items → Items

  pub data Fields : Type 0 where
    no_fields : Fields
    field : String → Json → Fields → Fields
