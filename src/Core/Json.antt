-- ===== src/Core/Json.antt =====
-- `serde_json::Value` as the program reads it. A number is kept as its text: no part of the
-- program that is modelled computes with one.
use mcp_oxide.Prelude.{String, Bool, Option, none, some, List, [], ◌∷◌, ◌==◌, if◌then◌else◌}

mutual
  pub data Json : Type 0 where
    null : Json
    boolean : Bool → Json
    number : String → Json
    string : String → Json
    array : Items → Json
    object : Fields → Json

  pub data Items : Type 0 where
    nil : Items
    cons : Json → Items → Items

  pub data Fields : Type 0 where
    end : Fields
    field : String → Json → Fields → Fields

abbrev pub items : Items → List Json
items nil = []
items (cons v vs) = v ∷ items vs

-- the value of a key of an object
unfoldable pub find_field : String → Fields → Option Json
find_field k end = none
find_field k (field j v fs) = if j == k then some v else find_field k fs

-- `Value::get` with a key: `None` unless the value is an object that has it
unfoldable pub get : String → Json → Option Json
unfolding find_field
get k (object fs) = find_field k fs
get k _ = none

-- `Value::as_str`
unfoldable pub as_str : Json → Option String
as_str (string s) = some s
as_str _ = none
