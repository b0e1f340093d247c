-- ===== src/Tools.antt =====
-- Which tools a run may call (src/suiban/tools/registry.py). A registry is the list of its tools' names,
-- in the order of its dict; a call of a tool is in Dispatch.
use suiban.Prelude.{
  Bool, true, false, ◌&&◌, ◌||◌, not, List, [], ◌∷◌, ◌++◌, String, any, keep, if◌then◌else◌,
}
use text.Mathlib.Text.{◌==◌ as str_eq}
mod OneWriter
pub mod Arguments
pub mod Dispatch
mod Tests

abbrev pub contains : String → List String → Bool
contains name names = any (λ n. str_eq n name) names

-- The names of `{t.name: t for t in tools}`: a name stays where it came first.
unfoldable pub dict_keys : List String → List String → List String
dict_keys seen [] = seen
dict_keys seen (n ∷ names) = dict_keys (if contains n seen then seen else seen ++ n ∷ []) names

unfoldable pub mode_toolsets : String → List String
mode_toolsets mode =
    if str_eq mode "chat"
    then "memory_search" ∷ "session_search" ∷ "browse_t1" ∷ "browse_t2" ∷ []
    else if str_eq mode "code"
    then "plan" ∷ "fs_read" ∷ "fs_write" ∷ "fs_list" ∷ "fs_undo" ∷ "shell" ∷ "git_ro"
      ∷ "memory_search" ∷ "session_search" ∷ []
    else if str_eq mode "ultra"
    then "plan" ∷ "fs_read" ∷ "fs_write" ∷ "fs_list" ∷ "shell" ∷ "git_ro" ∷ "memory_search" ∷ []
    else if str_eq mode "deep_research"
    then "browse_t1" ∷ "browse_t2" ∷ "memory_search" ∷ []
    else []

abbrev pub write_tool_names : List String
write_tool_names = "memory_write" ∷ "skill_save" ∷ "skill_improve" ∷ []

abbrev pub is_write_mode : String → Bool
is_write_mode mode = str_eq mode "chat" || str_eq mode "code"

unfoldable pub mode_tool_names : String → Bool → List String
mode_tool_names mode with_writes =
    mode_toolsets mode ++ (if with_writes && is_write_mode mode then write_tool_names else [])

-- The names of `available`.
unfoldable pub available : Bool → List String
available browse_t2_available =
    "memory_search"
    ∷ "session_search"
    ∷ "browse_t1"
    ∷ "plan"
    ∷ "fs_read"
    ∷ "fs_write"
    ∷ "fs_list"
    ∷ "fs_undo"
    ∷ "shell"
    ∷ "git_ro"
    ∷ (if browse_t2_available then "browse_t2" ∷ [] else [])

unfoldable pub build_registry : String → String → Bool → List String → List String
build_registry mode role browse_t2_available extra_tools =
    let tools = keep (λ n. contains n (available browse_t2_available)) (mode_toolsets mode) in
    let writes =
      if str_eq role "orchestrator" && is_write_mode mode then write_tool_names else [] in
    dict_keys [] (tools ++ (writes ++ extra_tools))

unfoldable pub worker_toolset : List String
worker_toolset =
    "fs_read" ∷ "fs_write" ∷ "fs_list" ∷ "shell" ∷ "git_ro" ∷ "browse_t1" ∷ "memory_search" ∷ []

unfoldable pub build_worker_registry : List String
build_worker_registry = dict_keys [] worker_toolset
