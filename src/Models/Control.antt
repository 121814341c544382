-- ===== src/Models/Control.antt =====
-- The control channel's requests and responses. A request is one data type, with a constructor for
-- each request class and the `command` literal as its tag.
use wow_server_sim.Common.{ℕ, ℤ, String, Bool, Option, List}
use wow_server_sim.Models.Values.{Json}

abbrev pub Params : Type 0
Params = List (String × Json)

pub data Request : Type 0 where
  activate : (fault_id : String) (params : Params) (target_zone_id duration_ticks : ℤ) → Request
  deactivate : (fault_id : String) → Request
  deactivate_all : Request
  status : (fault_id : String) → Request
  list_faults : Request

abbrev pub command_name : Request → String
command_name (activate f p z d) = "activate"
command_name (deactivate f) = "deactivate"
command_name deactivate_all = "deactivate_all"
command_name (status f) = "status"
command_name list_faults = "list"

pub record FaultInfo : Type 0 where
  pub id : String
  pub mode : String
  pub active : Bool
  pub activations : ℕ
  pub ticks_elapsed : ℕ
  pub config : Params

pub record ControlResponse : Type 0 where
  pub success : Bool
  pub command : Option String
  pub fault_id : Option String
  pub error : Option String
  pub status : Option FaultInfo
  pub faults : Option (List FaultInfo)
