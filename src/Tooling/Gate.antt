-- ===== src/Tooling/Gate.antt =====
-- internal/tooling/gate.go: which of the calls that a model proposes are admitted.
pub mod Support
pub mod Requests
pub mod Checks
pub mod Arguments
pub mod Admission
pub mod Trail
use mathlib.Core.List.{reverse}
use pancakes_harness.Prelude.{
  ℕ, ◌≡◌, refl, Bool, true, false, ◌&&◌, ◌||◌, not, Option, none, some, List, [], ◌∷◌, ◌++◌, nat_eq,
  leb, if◌then◌else◌, length,
}
use pancakes_harness.Bytes.{Str, codes, ◌==◌, contains, trim_space, fields}
use pancakes_harness.Dict.{Dict, lookup, insert}
use pancakes_harness.Sort.{sort_strings}
use pancakes_harness.Eventlog.Event.{Fields, end, field, get_field}
use pancakes_harness.Replay.Graph.{string_of, read_meta_string}
use pancakes_harness.Tooling.{Tool, Registry, list}
use pancakes_harness.Tooling.Paths.{is_in, dir, PathIndex}

pub data Verdict : Type 0 where
  accept abstain : Verdict

pub record Call : Type 0 where
  pub name : Str
  pub args : Fields

pub record Check : Type 0 where
  pub rule : Str
  pub ok : Bool
  pub detail : Str

pub record Decision : Type 0 where
  pub verdict : Verdict
  pub reason : Str
  pub call : Call
  pub checks : List Check

pub record Gate : Type 0 where
  pub tools : Dict (List Str)
  pub index : Option PathIndex

-- the argument of a tool that names a file or a directory
unfoldable pub path_arg : Str → Option Str
unfolding ◌==◌
path_arg name =
    if name == codes "read" || name == codes "write"
    then some (codes "ref")
    else if name == codes "glob"
    then some (codes "pattern")
    else none

keys_of : Fields → List Str
keys_of end = []
keys_of (field k v m) = k ∷ keys_of m

shapes_of : Dict (List Str) → List Tool → Dict (List Str)
unfolding insert sort_strings keys_of
shapes_of shapes [] = shapes
shapes_of shapes (t ∷ ts) =
    shapes_of (insert t.name (sort_strings (keys_of t.schema.input)) shapes) ts

-- `NewGate`
unfoldable pub new_gate : Registry → Option PathIndex → Gate
unfolding list shapes_of
new_gate reg index = record { tools = shapes_of [] (list reg); index = index }

tool_names : Dict (List Str) → List Str
tool_names [] = []
tool_names ((name, shape) ∷ r) = name ∷ tool_names r

-- `Tools`
unfoldable pub tools : Gate → List Str
unfolding sort_strings tool_names
tools g = sort_strings (tool_names g.tools)

-- the detail of the first key that is not declared
unfoldable pub undeclared : List Str → Fields → Str
unfolding is_in
undeclared declared end = codes ""
undeclared declared (field k v m) =
    let rest = undeclared declared m in
    if is_in declared k then rest else codes "undeclared argument: " ++ k

-- the detail of the first declared key without a text
unfoldable pub missing : List Str → Fields → Str
unfolding read_meta_string ◌==◌
missing [] args = codes ""
missing (k ∷ ks) args =
    let rest = missing ks args in
    if read_meta_string args k == codes "" then codes "missing argument: " ++ k else rest

unfoldable pub key_mismatch : List Str → Fields → Str
unfolding undeclared missing ◌==◌
key_mismatch declared args =
    let detail = undeclared declared args in
    if detail == codes "" then missing declared args else detail

-- the first declared key whose value is not in the request
unfoldable pub ungrounded : Str → List Str → Fields → Option Str
unfolding contains read_meta_string
ungrounded query [] args = none
ungrounded query (k ∷ ks) args =
    let rest = ungrounded query ks args in
    if contains query (read_meta_string args k) then rest else some k

-- the directory of a path, the root being empty
unfoldable pub parent_of : Str → Str
unfolding dir ◌==◌
parent_of value = if dir value == codes "." then codes "" else dir value

unfoldable pub resolve_in : PathIndex → Str → Str → Str
unfolding parent_of ◌==◌
resolve_in i name value =
    if name == codes "read"
    then (if i.has_path value then codes "" else codes "no such path: " ++ value)
    else if name == codes "write"
    then (if i.has_dir (parent_of value) then codes "" else codes "no such directory: " ++ value)
    else if name == codes "glob"
    then (if i.has_dir (parent_of value) || i.has_path value
        then codes ""
        else codes "no such directory: " ++ value)
    else codes ""

unfoldable pub resolve : Gate → Call → Str
unfolding path_arg resolve_in read_meta_string
resolve g call = elim (path_arg call.name) [
  | none ↦ codes ""
  | some key ↦ elim g.index [
    | none ↦ codes ""
    | some i ↦ resolve_in i call.name (read_meta_string call.args key)
  ]
]
