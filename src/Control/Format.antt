-- ===== src/Control/Format.antt =====
-- `format_fault_info` and `format_fault_list` of tools/wowsim/fault_trigger.py.
use Prim.Native.String.{count}
use wow_server_sim.Common.{
  String, List, [], ◌∷◌, concat, join, int_text, map, pad_right, repeat, repr_str, if◌then◌else◌,
}
use wow_server_sim.Models.{
  FaultInfo, Params, Json, Items, Fields, null, bool, int, number, string, array, object, none_left,
  item, no_fields, field,
}

-- `repr(v)` of a value that JSON gave.
mutual
  json_repr : Json → String
  json_repr null = "None"
  json_repr (bool b) = if b then "True" else "False"
  json_repr (int z) = int_text z
  json_repr (number n) = n
  json_repr (string s) = repr_str s
  json_repr (array items) = concat ("[" ∷ join ", " (item_texts items) ∷ "]" ∷ [])
  json_repr (object fields) = concat ("{" ∷ join ", " (field_texts fields) ∷ "}" ∷ [])

  item_texts : Items → List String
  item_texts none_left = []
  item_texts (item v rest) = json_repr v ∷ item_texts rest

  field_texts : Fields → List String
  field_texts no_fields = []
  field_texts (field k v rest) = concat (repr_str k ∷ ": " ∷ json_repr v ∷ []) ∷ field_texts rest

-- `str(v)`
json_str : Json → String
json_str (string s) = s
json_str v = json_repr v

config_text : Params → String
unfolding json_str
config_text [] = ""
config_text (p ∷ ps) =
    concat
      ("  (" ∷ join ", " (map (λ q. concat (q.0 ∷ "=" ∷ json_str q.1 ∷ [])) (p ∷ ps)) ∷ ")" ∷ [])

unfoldable pub format_fault_info : FaultInfo → String
unfolding json_repr config_text pad_right
format_fault_info info = concat (
    pad_right 22 info.id
    ∷ " "
    ∷ pad_right 14 info.mode
    ∷ " "
    ∷ (if info.active then "ACTIVE" else "inactive")
    ∷ config_text info.config
    ∷ [])

unfoldable pub format_fault_list : List FaultInfo → String
unfolding format_fault_info
format_fault_list faults =
    let header = join " " (pad_right 22 "FAULT ID" ∷ pad_right 14 "MODE" ∷ "STATUS" ∷ []) in
    join "\n" (header ∷ repeat "-" (count header) ∷ map format_fault_info faults)
