-- ===== src/Tools/Tests.antt =====
-- The tools of runs, and the one-writer rule on them.
use suiban.Prelude.{false, ◌≡◌, refl, ◌&&◌, List, [], ◌∷◌, String, any, true, ◌↔◌, some}
use text.Mathlib.Text.{◌==◌ as str_eq}
use suiban.Tools.{
  build_registry, dict_keys, mode_toolsets, available, is_write_mode, build_worker_registry,
  worker_toolset,
}
use suiban.Json.{Value, obj, str, member, no_member}
use suiban.Json.Schema.{object, Schema, plain, property, no_property}
use suiban.Slap.Shapes.{any_rules, any_text}
use suiban.Slap.Mirror.{IsBasic}
use suiban.Tools.Dispatch.{
  Tool, get_tool, unknown_tool, not_an_object, validate_args, Takes, validate_args-Takes,
}
use suiban.Tools.OneWriter.{is_write, any-build_registry}

-- A server that offers one tool twice.
abbrev servers : List String
servers = "mcp_files_read" ∷ "mcp_files_read" ∷ []

any-build_registry_example :
    any is_write (build_registry "chat" "orchestrator" false servers)
    ≡ (str_eq "orchestrator" "orchestrator" && is_write_mode "chat")
any-build_registry_example =
    any-build_registry "chat" "orchestrator" false servers (refl, (refl, tt))

-- A chat without the loadout for tier-2 browsing.
chat_tools :
    build_registry "chat" "orchestrator" false servers
    ≡ "memory_search" ∷ "session_search" ∷ "browse_t1" ∷ "memory_write" ∷ "skill_save"
      ∷ "skill_improve" ∷ "mcp_files_read" ∷ []
unfolding build_registry dict_keys mode_toolsets available
chat_tools = refl

worker_tools : build_worker_registry ≡ worker_toolset
unfolding build_worker_registry dict_keys worker_toolset
worker_tools = refl

abbrev path_schema : Schema
path_schema =
    plain (record any_rules { expected = some object; required = "path" ∷ []; closed = true })
      (property "path" any_text no_property)

abbrev reader : List Tool
reader = record { name = "fs_read"; parameters = path_schema } ∷ []

abbrev a_path : Value
a_path = obj (member "path" (str "README.md") no_member)

unknown_test : validate_args reader "fs_write" a_path ≡ unknown_tool ∷ []
unfolding validate_args get_tool
unknown_test = refl

text_test : validate_args reader "fs_read" (str "README.md") ≡ not_an_object ∷ []
unfolding validate_args get_tool
text_test = refl

validate_args-Takes_example :
    (validate_args reader "fs_read" a_path ≡ [])
    ↔ Takes (λ p t. true) (get_tool "fs_read" reader) a_path
unfolding get_tool IsBasic
validate_args-Takes_example =
    validate_args-Takes (λ p t. true) reader "fs_read" a_path
      ((refl, refl, refl), (((refl, refl, refl), tt), tt))
