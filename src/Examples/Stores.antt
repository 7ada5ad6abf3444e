-- ===== src/Examples/Stores.antt =====
-- A database that is the list of its rows, and a session that was bound twice.
use mcp_oxide.Prelude.{
  ℕ, String, Bool, true, false, not, ◌&&◌, Option, none, some, List, [], ◌∷◌, keep, any, ◌==◌, ◌≡◌,
  ◌↔◌, ◌<◌, eq_iff, refl, arith, if◌then◌else◌, Bool-cases, ◌⊎◌, inl, inr,
}
use mcp_oxide.Core.Error.{Result, ok, err, Error}
use mcp_oxide.Core.Model.{Adapter, Tool, sticky}
use mcp_oxide.Metadata.Sql.{
  Table, adapters_table, tools_table, Row, Selected, Column, payload_column, tags_column, Database,
  Codec, put_adapter, get_adapter, put_tool, get_tool,
}
use mcp_oxide.Metadata.Sql.Laws.{
  DatabaseLaws, ReadsBack, merged, is_column, get_adapter-put_adapter, get_tool-put_tool,
}
use mcp_oxide.Core.Json.{Json}
use mcp_oxide.Session.{resolve}
use mcp_oxide.Session.History.{Call, bound, run, BoundTo, resolve_iff}

abbrev calls : List Call
calls =
    bound (record { session = "s" }) "a" (record { backend = "second" }) 100 20
    ∷ bound (record { session = "s" }) "a" (record { backend = "first" }) 100 10
    ∷ []

resolve_iff_example :
    (resolve (record { session = "s" }) "a" 50 (run calls)
      ≡ ok (some (record { backend = "second" })))
    ↔ ((until : ℕ) × BoundTo calls "s" "a" (record { backend = "second" }) until × (50 < until))
resolve_iff_example =
    resolve_iff calls (record { session = "s" }) "a" 50 (record { backend = "second" })

-- texts of JSON are kept as what they say
pub data Text : Type 0 where
  of_adapter : Adapter → Text
  of_tool : Tool → Text
  of_tags : List String → Text

abbrev as_adapter : Text → Result String Adapter
as_adapter (of_adapter a) = ok a
as_adapter _ = err "not an adapter"

abbrev as_tool : Text → Result String Tool
as_tool (of_tool t) = ok t
as_tool _ = err "not a tool"

abbrev as_tags : Text → Result String (List String)
as_tags (of_tags ts) = ok ts
as_tags _ = err "not a list"

abbrev codec : Codec Text
codec = record {
  encode_adapter = λ a. ok (of_adapter a);
  decode_adapter = as_adapter;
  encode_tool = λ t. ok (of_tool t);
  decode_tool = as_tool;
  encode_tags = λ ts. ok (of_tags ts);
  decode_tags = as_tags;
}

abbrev in_table : Table → Table → Bool
in_table adapters_table adapters_table = true
in_table tools_table tools_table = true
in_table _ _ = false

abbrev pub Rows : Type 0
Rows = List (Table × Row Text)

abbrev is_row : Table → String → Table × Row Text → Bool
is_row t name entry = in_table entry.0 t && entry.1.name == name

abbrev shown : Row Text → Selected Text
shown row = record { payload = ok row.payload; tags = ok row.tags }

unfoldable pub find_row : Table → String → Rows → Option (Row Text)
find_row t k [] = none
find_row t k (entry ∷ rest) = if is_row t k entry then some entry.1 else find_row t k rest

abbrev found : Option (Row Text) → Option (Selected Text)
found none = none
found (some row) = some (shown row)

-- the row after an `INSERT`, from the one that was there
abbrev stored : List Column → Row Text → Option (Row Text) → Row Text
stored set row none = row
stored set row (some old) = record row {
  payload = if any (is_column payload_column) set then row.payload else old.payload;
  tags = if any (is_column tags_column) set then row.tags else old.tags;
}

abbrev without : Table → String → Rows → Rows
without t name rows = keep (λ entry. not (is_row t name entry)) rows

abbrev in_rows : Table → Rows → List (Selected Text)
in_rows t [] = []
in_rows t (entry ∷ rest) =
    let others = in_rows t rest in if in_table entry.0 t then shown entry.1 ∷ others else others

abbrev pub rows_database : Database Text Rows
rows_database = record {
  create = λ stmt q. (ok tt, q);
  upsert =
      λ t on row q. (ok tt, (t, stored on.set row (find_row t row.name q)) ∷ without t row.name q);
  select = λ t k q. ok (found (find_row t k q));
  select_all = λ t q. ok (in_rows t q);
  remove = λ t name q. (ok tt, without t name q);
  now = λ q. "1970-01-01T00:00:00Z";
}

find_row-without :
    (t : Table) (name k : String) (q : Rows)
    → find_row t k (without t name q) ≡ (if name == k then none else find_row t k q)
unfolding find_row
find_row-without t name k [] = ground arith
find_row-without t name k (entry ∷ rest) =
    let ih = find_row-without t name k rest in
    ground (arith, ih, eq_iff entry.1.name name, eq_iff entry.1.name k, eq_iff name k)

in_table_self : (t : Table) → in_table t t ≡ true
in_table_self adapters_table = refl
in_table_self tools_table = refl

name-stored :
    (set : List Column) (row : Row Text) (o : Option (Row Text))
    → (stored set row o).name ≡ row.name
name-stored set row none = refl
name-stored set row (some old) = refl

found-stored :
    (set : List Column) (row : Row Text) (o : Option (Row Text))
    → ok (some (shown (stored set row o))) ≡ merged set row (ok (found o))
unfolding merged
found-stored set row none = refl
found-stored set row (some old) = elim (Bool-cases (any (is_column payload_column) set)) [
  | inl p ↦ elim (Bool-cases (any (is_column tags_column) set)) [
    | inl t ↦ rw (p, t) refl
    | inr t ↦ rw (p, t) refl
  ]
  | inr p ↦ elim (Bool-cases (any (is_column tags_column) set)) [
    | inl t ↦ rw (p, t) refl
    | inr t ↦ rw (p, t) refl
  ]
]

find_row-upsert :
    (t : Table) (row new : Row Text) (q : Rows) (k : String)
    → new.name ≡ row.name
    → find_row t k ((t, new) ∷ without t row.name q)
      ≡ (if row.name == k then some new else find_row t k q)
unfolding find_row
find_row-upsert t row new q k same =
    let rest = find_row-without t row.name k q in let own = in_table_self t in ground arith

rows_laws : DatabaseLaws rows_database
rows_laws = record {
  select-upsert = λ t set row q k h.
      let before = find_row t row.name q in
      let seen = find_row-upsert t row (stored set row before) q k (name-stored set row before) in
      rw seen (elim (Bool-cases (row.name == k)) [
        | inl here ↦
            let same = (eq_iff row.name k).0 here in rw (here, ← same) (found-stored set row before)
        | inr other ↦ rw other refl
      ]);
  failed-upsert = λ t on row q k e h. cc;
  select-remove = λ t name q k h. let rest = find_row-without t name k q in ground arith;
  failed-remove = λ t name q k e h. cc;
}

abbrev stored_adapter : Adapter
stored_adapter = record {
  name = "a";
  description = none;
  image = record { reference = "example:1" };
  endpoint = record { port = 8080; path = "/mcp" };
  upstream = none;
  replicas = 1;
  env = [];
  secret_refs = [];
  required_roles = [];
  tags = [];
  resources = record { cpu = none; memory = none };
  health = none;
  session_affinity = sticky;
  labels = [];
  revision = some 1;
  created_at = none;
  updated_at = none;
}

abbrev stored_tool : Tool
stored_tool = record {
  name = "t";
  description = none;
  image = record { reference = "example:1" };
  endpoint = record { port = 8080; path = "/mcp" };
  tool_definition = record {
    name = "t";
    title = none;
    description = none;
    input_schema = Json.null;
    annotations = none;
  };
  env = [];
  secret_refs = [];
  required_roles = [];
  tags = [];
  resources = record { cpu = none; memory = none };
  revision = some 1;
  created_at = none;
  updated_at = none;
}

reads_adapter : ReadsBack codec.encode_adapter codec.decode_adapter stored_adapter
reads_adapter j e = let same : of_adapter stored_adapter ≡ j = ground arith in rw (← same) refl

reads_tool : ReadsBack codec.encode_tool codec.decode_tool stored_tool
reads_tool j e = let same : of_tool stored_tool ≡ j = ground arith in rw (← same) refl

-- one put on the other: the second is seen
abbrev held : Rows
held = (put_adapter rows_database codec (record stored_adapter { replicas = 2 }) []).1

get_adapter-put_adapter_example :
    (((put_adapter rows_database codec stored_adapter held).0 ≡ ok tt)
      × (get_adapter rows_database codec "a" (put_adapter rows_database codec stored_adapter held).1
          ≡ ok (some stored_adapter)))
    ⊎ ((e : Error) × ((put_adapter rows_database codec stored_adapter held).0 ≡ err e)
        × (get_adapter rows_database codec "a"
              (put_adapter rows_database codec stored_adapter held).1
            ≡ get_adapter rows_database codec "a" held))
get_adapter-put_adapter_example =
    get_adapter-put_adapter rows_database rows_laws codec stored_adapter held "a" reads_adapter

get_tool-put_tool_example :
    (((put_tool rows_database codec stored_tool held).0 ≡ ok tt)
      × (get_tool rows_database codec "t" (put_tool rows_database codec stored_tool held).1
          ≡ ok (some stored_tool)))
    ⊎ ((e : Error) × ((put_tool rows_database codec stored_tool held).0 ≡ err e)
        × (get_tool rows_database codec "t" (put_tool rows_database codec stored_tool held).1
            ≡ get_tool rows_database codec "t" held))
get_tool-put_tool_example =
    get_tool-put_tool rows_database rows_laws codec stored_tool held "t" reads_tool
