-- ===== src/Metadata/Sql.antt =====
-- crates/metadata/src/sql.rs: the store that keeps its records as JSON in the rows of a SQLite
-- database. The database, by `sqlx`, and the JSON, by `serde_json`, are parameters: `Q` is the state
-- of the one, `J` the type of the texts of the other.
pub mod Laws
use mcp_oxide.Prelude.{
  ℕ, ◌-◌, ◌^◌, String, Bool, true, false, ◌&&◌, not, Option, none, some, unwrap_or, List, [], ◌∷◌,
  any, all, ◌==◌, leb, if◌then◌else◌,
}
use mcp_oxide.Text.{format, is_empty, trim, split}
use mcp_oxide.Core.Error.{Error, internal, Result, ok, err}
use mcp_oxide.Core.Model.{Adapter, Tool}
use mcp_oxide.Core.Providers.{Filter, MetadataStore}

pub data Table : Type 0 where
  adapters_table tools_table : Table

-- the columns of a row; an `INTEGER` is an `i64`
pub record Row (J : Type 0) : Type 0 where
  pub name : String
  pub tags : J
  pub payload : J
  pub revision : ℕ
  pub updated_at : String

pub data Column : Type 0 where
  name_column tags_column payload_column revision_column updated_at_column : Column

-- `ON CONFLICT(target) DO UPDATE SET c=excluded.c, …`, by the columns `c` that it sets
pub record OnConflict : Type 0 where
  pub target : Column
  pub set : List Column

-- the clause of both `INSERT`s
unfoldable pub put_conflict : OnConflict
put_conflict = record {
  target = name_column;
  set = tags_column ∷ payload_column ∷ revision_column ∷ updated_at_column ∷ [];
}

-- what `try_get` reads of the two columns of a row that a query returns
pub record Selected (J : Type 0) : Type 0 where
  pub payload : Result String J
  pub tags : Result String J

-- The statements: a `CREATE TABLE`; an `INSERT` of all columns of a row with its `ON CONFLICT`
-- clause; `SELECT … WHERE name = ?1`; `SELECT … ORDER BY name`; and
-- `DELETE … WHERE name = ?1`. The clock gives the time of a write.
pub record Database (J Q : Type 0) : Type 0 where
  pub create : String → Q → Result String (Unit {0}) × Q
  pub upsert : Table → OnConflict → Row J → Q → Result String (Unit {0}) × Q
  pub select : Table → String → Q → Result String (Option (Selected J))
  pub select_all : Table → Q → Result String (List (Selected J))
  pub remove : Table → String → Q → Result String (Unit {0}) × Q
  pub now : Q → String

-- `serde_json::to_string` and `serde_json::from_str`
pub record Codec (J : Type 0) : Type 0 where
  pub encode_adapter : Adapter → Result String J
  pub decode_adapter : J → Result String Adapter
  pub encode_tool : Tool → Result String J
  pub decode_tool : J → Result String Tool
  pub encode_tags : List String → Result String J
  pub decode_tags : J → Result String (List String)

abbrev pub map_sqlx_err : String → Error
map_sqlx_err e = internal (format ("sql: " ∷ e ∷ []))

abbrev pub json_encode : {A : Type 0} → Result String A → Result Error A
json_encode (ok j) = ok j
json_encode (err e) = err (internal (format ("json encode: " ∷ e ∷ [])))

abbrev pub json_decode : {A : Type 0} → Result String A → Result Error A
json_decode (ok a) = ok a
json_decode (err e) = err (internal (format ("json decode: " ∷ e ∷ [])))

abbrev pub executed : {Q : Type 0} → Result String (Unit {0}) × Q → Result Error (Unit {0}) × Q
executed (ok done, q) = (ok tt, q)
executed (err e, q) = (err (map_sqlx_err e), q)

-- `i64::try_from(…).unwrap_or(1)`
unfoldable pub revision_of : Option ℕ → ℕ
revision_of revision = let n = unwrap_or 1 revision in if leb n (2 ^ 63 - 1) then n else 1

abbrev pub schema_sql : String
schema_sql = format (
    "\nCREATE TABLE IF NOT EXISTS adapters (\n    name      TEXT PRIMARY KEY,\n"
    ∷ "    tags      TEXT NOT NULL DEFAULT '[]',\n    payload   TEXT NOT NULL,\n"
    ∷ "    revision  INTEGER NOT NULL DEFAULT 1,\n    updated_at TEXT NOT NULL\n);\n"
    ∷ "CREATE TABLE IF NOT EXISTS tools (\n    name      TEXT PRIMARY KEY,\n"
    ∷ "    tags      TEXT NOT NULL DEFAULT '[]',\n    payload   TEXT NOT NULL,\n"
    ∷ "    revision  INTEGER NOT NULL DEFAULT 1,\n    updated_at TEXT NOT NULL\n);\n" ∷ [])

module _ {J Q : Type 0} (db : Database J Q) where
  -- what follows a statement: the next one, unless it failed
  abbrev and_then :
      Result String (Unit {0}) × Q → (Q → Result Error (Unit {0}) × Q) → Result Error (Unit {0}) × Q
  and_then (err e, q) next = (err (map_sqlx_err e), q)
  and_then (ok done, q) next = next q

  unfoldable pub run_statements : List String → Q → Result Error (Unit {0}) × Q
  run_statements [] q = (ok tt, q)
  run_statements (stmt ∷ stmts) q =
      let s = trim stmt in
      let executed_first = and_then (db.create s q) (run_statements stmts) in
      let skipped = run_statements stmts q in if is_empty s then skipped else executed_first

  unfoldable pub init_schema : Q → Result Error (Unit {0}) × Q
  init_schema q = run_statements (split b';' schema_sql) q

  -- the row of a record whose JSON and whose tags' JSON are there
  abbrev pub put_row :
      Table → String → Option ℕ → Result Error J → Result Error J → Q → Result Error (Unit {0}) × Q
  put_row table name revision (err e) tags q = (err e, q)
  put_row table name revision (ok payload) (err e) q = (err e, q)
  put_row table name revision (ok payload) (ok tags) q = executed (
      db.upsert table put_conflict
        (record {
          name = name;
          tags = tags;
          payload = payload;
          revision = revision_of revision;
          updated_at = db.now q;
        })
        q)

  module _ {A : Type 0} (decode : J → Result String A) where
    abbrev pub payload_of : Result String J → Result Error A
    payload_of (err e) = err (map_sqlx_err e)
    payload_of (ok j) = json_decode (decode j)

    abbrev found : Result Error A → Result Error (Option A)
    found (err e) = err e
    found (ok a) = ok (some a)

    abbrev pub get_row : Result String (Option (Selected J)) → Result Error (Option A)
    get_row (err e) = err (map_sqlx_err e)
    get_row (ok none) = ok none
    get_row (ok (some row)) = found (payload_of row.payload)

    abbrev onto_listed : Result Error A → Result Error (List A) → Result Error (List A)
    onto_listed (err e) rest = err e
    onto_listed (ok a) (err e) = err e
    onto_listed (ok a) (ok rest) = ok (a ∷ rest)

    abbrev pub passes : List String → List String → Bool
    passes [] tags = true
    passes (t ∷ ts) tags = all (λ tag. any (λ own. own == tag) tags) (t ∷ ts)

    -- a row's tags are read first, and its payload only where they pass
    abbrev pub list_row :
        List String
        → Result Error (List String)
        → Selected J
        → Result Error (List A)
        → Result Error (List A)
    list_row wanted (err e) row rest = err e
    list_row wanted (ok tags) row rest =
        let taken = onto_listed (payload_of row.payload) rest in
        if passes wanted tags then taken else rest

    module _ (decode_tags : J → Result String (List String)) where
      abbrev tags_of : Result String J → Result Error (List String)
      tags_of (err e) = err (map_sqlx_err e)
      tags_of (ok j) = json_decode (decode_tags j)

      unfoldable pub list_rows : List String → List (Selected J) → Result Error (List A)
      list_rows wanted [] = ok []
      list_rows wanted (row ∷ rows) = list_row wanted (tags_of row.tags) row (list_rows wanted rows)

      abbrev pub list_selected :
          List String → Result String (List (Selected J)) → Result Error (List A)
      list_selected wanted (err e) = err (map_sqlx_err e)
      list_selected wanted (ok rows) = list_rows wanted rows

module _ {J Q : Type 0} (db : Database J Q) (json : Codec J) where
  unfoldable pub put_adapter : Adapter → Q → Result Error (Unit {0}) × Q
  put_adapter a q =
      put_row db adapters_table a.name a.revision (json_encode (json.encode_adapter a))
        (json_encode (json.encode_tags a.tags)) q

  unfoldable pub get_adapter : String → Q → Result Error (Option Adapter)
  get_adapter name q = get_row db json.decode_adapter (db.select adapters_table name q)

  unfoldable pub list_adapters : Filter → Q → Result Error (List Adapter)
  list_adapters filter q =
      list_selected db json.decode_adapter json.decode_tags filter.tags
        (db.select_all adapters_table q)

  unfoldable pub delete_adapter : String → Q → Result Error (Unit {0}) × Q
  delete_adapter name q = executed (db.remove adapters_table name q)

  unfoldable pub put_tool : Tool → Q → Result Error (Unit {0}) × Q
  put_tool t q =
      put_row db tools_table t.name t.revision (json_encode (json.encode_tool t))
        (json_encode (json.encode_tags t.tags)) q

  unfoldable pub get_tool : String → Q → Result Error (Option Tool)
  get_tool name q = get_row db json.decode_tool (db.select tools_table name q)

  unfoldable pub list_tools : Filter → Q → Result Error (List Tool)
  list_tools filter q =
      list_selected db json.decode_tool json.decode_tags filter.tags (db.select_all tools_table q)

  unfoldable pub delete_tool : String → Q → Result Error (Unit {0}) × Q
  delete_tool name q = executed (db.remove tools_table name q)

  abbrev pub sqlite_store : MetadataStore Q
  sqlite_store = record {
    put_adapter = put_adapter;
    get_adapter = get_adapter;
    list_adapters = list_adapters;
    delete_adapter = delete_adapter;
    put_tool = put_tool;
    get_tool = get_tool;
    list_tools = list_tools;
    delete_tool = delete_tool;
  }

-- `SqlitePoolOptions::connect` opens a database of at most so many connections, which then gets its
-- tables
module _ {J Q : Type 0} (db : Database J Q)
    (open_pool : (max_connections : ℕ) → String → Result String Q) where
  abbrev with_schema : Result Error (Unit {0}) × Q → Result Error Q
  with_schema (ok done, q) = ok q
  with_schema (err e, q) = err e

  abbrev opened : Result String Q → Result Error Q
  opened (err e) = err (map_sqlx_err e)
  opened (ok q) = with_schema (init_schema db q)

  unfoldable pub connect : String → Result Error Q
  connect url = opened (open_pool 8 url)
