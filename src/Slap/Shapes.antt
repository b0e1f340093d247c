-- ===== src/Slap/Shapes.antt =====
-- The shapes that the schemas of messages are made of (src/suiban/slap/schemas).
use suiban.Prelude.{true, false, none, some, List, [], ◌∷◌, String}
use suiban.Prelude.Int.{pos}
use suiban.Json.Schema.{
  Kind, object, array, string, number, Rules, Schema, plain, with_items, Properties, property,
  no_property,
}

abbrev pub any_rules : Rules
any_rules = record {
  expected = none;
  constant = none;
  enum = none;
  pattern = none;
  min_length = none;
  max_length = none;
  min_items = none;
  minimum = none;
  maximum = none;
  required = [];
  closed = false;
}

abbrev pub of_kind : Kind → Schema
of_kind kind = plain (record any_rules { expected = some kind }) no_property

abbrev pub any_text : Schema
any_text = of_kind string

abbrev pub some_text : Schema
some_text = plain (record any_rules { expected = some string; min_length = some 1 }) no_property

abbrev pub list_of : Schema → Schema
list_of items = with_items (record any_rules { expected = some array }) no_property items

abbrev pub at_least_zero : Kind → Schema
at_least_zero kind =
    plain (record any_rules { expected = some kind; minimum = some (pos 0) }) no_property

-- A number from 0 to 1.
abbrev pub share : Schema
share =
    plain
      (record any_rules { expected = some number; minimum = some (pos 0); maximum = some (pos 1) })
      no_property

abbrev pub one_of : List String → Schema
one_of texts = plain (record any_rules { enum = some texts }) no_property

abbrev pub constant_text : String → Schema
constant_text t = plain (record any_rules { constant = some t }) no_property

abbrev pub version_pattern : String
version_pattern = "^\\d+\\.\\d+$"

abbrev pub version_schema : Schema
version_schema =
    plain (record any_rules { expected = some string; pattern = some version_pattern }) no_property

-- The properties of every message, before those of its operation.
abbrev pub envelope_properties : String → Properties → Properties
envelope_properties operation rest = property "protocol" (constant_text "SLAP") (
    property "version" version_schema (
      property "message_id" some_text (
        property "task_id" some_text (
          property "operation" (constant_text operation) (
            property "parent_task" any_text
              (property "depends_on" (list_of any_text) (property "created_at" any_text rest)))))))

abbrev pub envelope_keys : List String → List String
envelope_keys more = "protocol" ∷ "version" ∷ "message_id" ∷ "task_id" ∷ "operation" ∷ more

abbrev pub operation_schema : String → List String → Properties → Schema
operation_schema operation required properties =
    plain
      (record any_rules {
        expected = some object;
        required = envelope_keys required;
        closed = true;
      })
      (envelope_properties operation properties)
