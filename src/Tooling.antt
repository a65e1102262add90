-- ===== src/Tooling.antt =====
-- internal/tooling/tooling.go: the registry of tools. A handler is a function of the arguments: its
-- result, and its error, if any.
pub mod Paths
pub mod Gate
use pancakes_harness.Prelude.{
  ℕ, zero, suc, ◌-◌, Bool, true, false, Option, none, some, List, [], ◌∷◌, ◌++◌, map, length,
  if◌then◌else◌,
}
use pancakes_harness.Bytes.{Str, codes, ◌==◌, lt_str, trim_space}
use pancakes_harness.Dict.{Dict, lookup, insert}
use pancakes_harness.Sort.{sort_by, sort_strings}
use pancakes_harness.Eventlog.Event.{Fields, end}

pub data ToolError : Type 0 where
  tool_not_found tool_not_ready : Str → ToolError
  name_required : ToolError
  no_handler : Str → ToolError
  failed : Str → ToolError

pub data ToolType : Type 0 where
  read write : ToolType

pub record ToolSchema : Type 0 where
  pub input : Fields
  pub output : Fields

pub record Tool : Type 0 where
  pub name : Str
  pub description : Str
  pub type : ToolType
  pub schema : ToolSchema
  pub handler : Option (Fields → Fields × Option Str)

pub record ToolResult : Type 0 where
  pub tool_name : Str
  pub result : Fields
  pub error : Option ToolError

abbrev pub Registry : Type 0
Registry = Dict Tool

abbrev pub new_registry : Registry
new_registry = []

-- `Register`
unfoldable pub register : Tool → Registry → Registry × Option ToolError
unfolding insert trim_space ◌==◌
register tool r =
    let name = trim_space tool.name in
    if name == codes "" then (r, some name_required) else elim tool.handler [
      | none ↦ (r, some (no_handler tool.name))
      | some _ ↦ (insert name tool r, none)
    ]

tools_of : Registry → List Tool
tools_of [] = []
tools_of ((name, tool) ∷ r) = tool ∷ tools_of r

names_of : Registry → List Str
names_of [] = []
names_of ((name, tool) ∷ r) = name ∷ names_of r

-- `List`
unfoldable pub list : Registry → List Tool
unfolding sort_by lt_str tools_of
list r = sort_by (λ a b. lt_str a.name b.name) (tools_of r)

-- `ListNames`
unfoldable pub list_names : Registry → List Str
unfolding sort_strings names_of
list_names r = sort_strings (names_of r)

abbrev no_result : ToolResult
no_result = record { tool_name = codes ""; result = end; error = none }

abbrev result_of : Str → Fields × Option Str → ToolResult × Option ToolError
result_of name (result, none) = (record { tool_name = name; result = result; error = none }, none)
result_of name (result, some e) =
    (record { tool_name = name; result = result; error = some (failed e) }, some (failed e))

-- `Execute`
unfoldable pub execute : Str → Fields → Registry → ToolResult × Option ToolError
unfolding lookup
execute name args r = elim (lookup name r) [
  | none ↦ (no_result, some (tool_not_found name))
  | some tool ↦ elim tool.handler [
    | none ↦ (no_result, some (tool_not_ready name))
    | some handler ↦ result_of name (handler args)
  ]
]
