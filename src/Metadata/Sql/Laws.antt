-- ===== src/Metadata/Sql/Laws.antt =====
-- The SQLite store of crates/metadata/src/sql.rs, from the laws of the database and of the
-- JSON that it relies on.
use mcp_oxide.Prelude.{
  ℕ, String, Option, none, some, ◌==◌, ◌≡◌, inl, inr, refl, arith, Bool-cases, if◌then◌else◌, Bool,
  true, false, List, any, ◌⊎◌, ap, ◌∙◌,
}
use mcp_oxide.Core.Error.{Error, Result, ok, err, Result-cases}
use mcp_oxide.Core.Model.{Adapter, Tool}
use mcp_oxide.Metadata.Sql.{
  Table, adapters_table, tools_table, Row, Database, Codec, json_encode, executed, put_row,
  revision_of, get_row, put_adapter, get_adapter, put_tool, get_tool, delete_tool, Selected, Column,
  name_column, tags_column, payload_column, revision_column, updated_at_column, OnConflict,
  put_conflict,
}

abbrev pub is_column : Column → Column → Bool
is_column name_column name_column = true
is_column tags_column tags_column = true
is_column payload_column payload_column = true
is_column revision_column revision_column = true
is_column updated_at_column updated_at_column = true
is_column _ _ = false

-- What the row of that name shows after an `INSERT` with an `ON CONFLICT(name)` clause: where there
-- was a row, a column that the clause does not set keeps its value.
unfoldable pub merged :
    {J : Type 0}
    → List Column
    → Row J
    → Result String (Option (Selected J))
    → Result String (Option (Selected J))
merged set row (ok (some old)) = ok (
    some (record {
      payload = if any (is_column payload_column) set then ok row.payload else old.payload;
      tags = if any (is_column tags_column) set then ok row.tags else old.tags;
    }))
merged set row (ok none) = ok (some (record { payload = ok row.payload; tags = ok row.tags }))
merged set row (err e) = ok (some (record { payload = ok row.payload; tags = ok row.tags }))

-- what is documented of the statements: a write that is executed is seen by the queries that
-- follow, by the table's primary key, and one that fails has changed nothing
pub record DatabaseLaws {J Q : Type 0} (db : Database J Q) : Type 0 where
  pub select-upsert :
      (t : Table) (set : List Column) (row : Row J) (q : Q) (k : String)
      → (db.upsert t (record { target = name_column; set = set }) row q).0 ≡ ok tt
      → db.select t k (db.upsert t (record { target = name_column; set = set }) row q).1
        ≡ (if row.name == k then merged set row (db.select t k q) else db.select t k q)
  pub failed-upsert :
      (t : Table) (on : OnConflict) (row : Row J) (q : Q) (k : String) (e : String)
      → (db.upsert t on row q).0 ≡ err e
      → db.select t k (db.upsert t on row q).1 ≡ db.select t k q
  pub select-remove :
      (t : Table) (name : String) (q : Q) (k : String)
      → (db.remove t name q).0 ≡ ok tt
      → db.select t k (db.remove t name q).1 ≡ (if name == k then ok none else db.select t k q)
  pub failed-remove :
      (t : Table) (name : String) (q : Q) (k : String) (e : String)
      → (db.remove t name q).0 ≡ err e
      → db.select t k (db.remove t name q).1 ≡ db.select t k q

-- the JSON that this record is written as, if it is written, is read back as the record
abbrev pub ReadsBack : {A J : Type 0} → (A → Result String J) → (J → Result String A) → A → Type 0
ReadsBack {J = J} encode decode a = (j : J) → encode a ≡ ok j → decode j ≡ ok a

-- the clause of the store's statements sets every column that is read
merged-put_conflict :
    {J : Type 0} (row : Row J) (before : Result String (Option (Selected J)))
    → merged put_conflict.set row before
      ≡ ok (some (record { payload = ok row.payload; tags = ok row.tags }))
unfolding merged put_conflict
merged-put_conflict row (ok (some old)) = refl
merged-put_conflict row (ok none) = refl
merged-put_conflict row (err e) = refl

module _ {Q : Type 0} where
  executed-state : (r : Result String (Unit {0}) × Q) → (executed r).1 ≡ r.1
  executed-state (ok done, q) = refl
  executed-state (err e, q) = refl

  executed-ok : (r : Result String (Unit {0}) × Q) → (executed r).0 ≡ ok tt → r.0 ≡ ok tt
  executed-ok (ok done, q) h = refl
  executed-ok (err e, q) h = absurd (ground arith)

  executed-err :
      (r : Result String (Unit {0}) × Q) (e : Error)
      → (executed r).0 ≡ err e
      → (e' : String) × (r.0 ≡ err e')
  executed-err (ok done, q) e h = absurd (ground arith)
  executed-err (err e', q) e h = (e', refl)

module _ {J Q : Type 0} (db : Database J Q) (laws : DatabaseLaws db) where
  -- the row is seen by its name, whatever was there before
  select-put_conflict :
      (t : Table) (row : Row J) (q : Q) (k : String)
      → (db.upsert t put_conflict row q).0 ≡ ok tt
      → db.select t k (db.upsert t put_conflict row q).1 ≡ (
          if row.name == k
          then ok (some (record { payload = ok row.payload; tags = ok row.tags }))
          else db.select t k q)
  unfolding put_conflict
  select-put_conflict t row q k h =
      laws.select-upsert t put_conflict.set row q k h
      ∙ ap (λ r. if row.name == k then r else db.select t k q)
          (merged-put_conflict row (db.select t k q))

  module _ {A : Type 0} (encode : A → Result String J) (decode : J → Result String A) where
    get-put_row :
        (t : Table) (name : String) (a : A) (revision : Option ℕ) (tags : Result Error J) (q : Q)
        (k : String)
        → ReadsBack encode decode a
        → (put_row db t name revision (json_encode (encode a)) tags q).0 ≡ ok tt
        → get_row db decode
            (db.select t k (put_row db t name revision (json_encode (encode a)) tags q).1)
          ≡ (if name == k then ok (some a) else get_row db decode (db.select t k q))
    get-put_row t name a revision tags q k reads h = elim (Result-cases (encode a)) [
      | inl (e, x) ↦ absurd (ground arith)
      | inr (j, x) ↦ elim (Result-cases tags) [
        | inl (e, y) ↦ absurd (ground arith)
        | inr (tags', y) ↦
            let row : Row J = record {
              name = name;
              tags = tags';
              payload = j;
              revision = revision_of revision;
              updated_at = db.now q;
            } in
            let done : (executed (db.upsert t put_conflict row q)).0 ≡ ok tt = rw (x, y) at h in
            let seen =
              select-put_conflict t row q k (executed-ok (db.upsert t put_conflict row q) done) in
            let back = reads j x in
            rw (x, y, executed-state (db.upsert t put_conflict row q), seen)
              (elim (Bool-cases (name == k)) [
                | inl here ↦ rw (here, back) refl
                | inr other ↦ rw other refl
              ])
      ]
    ]

    failed-put_row :
        (t : Table) (name : String) (a : A) (revision : Option ℕ) (tags : Result Error J) (q : Q)
        (k : String) (e : Error)
        → (put_row db t name revision (json_encode (encode a)) tags q).0 ≡ err e
        → get_row db decode
            (db.select t k (put_row db t name revision (json_encode (encode a)) tags q).1)
          ≡ get_row db decode (db.select t k q)
    failed-put_row t name a revision tags q k e h = elim (Result-cases (encode a)) [
      | inl (e', x) ↦ rw x refl
      | inr (j, x) ↦ elim (Result-cases tags) [
        | inl (e', y) ↦ rw (x, y) refl
        | inr (tags', y) ↦
            let row : Row J = record {
              name = name;
              tags = tags';
              payload = j;
              revision = revision_of revision;
              updated_at = db.now q;
            } in
            let (e', failed) = executed-err (db.upsert t put_conflict row q) e (rw (x, y) at h) in
            rw
              (
                x,
                y,
                executed-state (db.upsert t put_conflict row q),
                laws.failed-upsert t put_conflict row q k e' failed,
              )
              refl
      ]
    ]

  module _ {A : Type 0} (decode : J → Result String A) where
    get-remove :
        (t : Table) (name : String) (q : Q) (k : String)
        → (executed (db.remove t name q)).0 ≡ ok tt
        → get_row db decode (db.select t k (executed (db.remove t name q)).1)
          ≡ (if name == k then ok none else get_row db decode (db.select t k q))
    get-remove t name q k h =
        let seen = laws.select-remove t name q k (executed-ok (db.remove t name q) h) in
        rw (executed-state (db.remove t name q), seen)
          (elim (Bool-cases (name == k)) [ inl here ↦ rw here refl | inr other ↦ rw other refl ])

    failed-remove_lem :
        (t : Table) (name : String) (q : Q) (k : String) (e : Error)
        → (executed (db.remove t name q)).0 ≡ err e
        → get_row db decode (db.select t k (executed (db.remove t name q)).1)
          ≡ get_row db decode (db.select t k q)
    failed-remove_lem t name q k e h =
        let (e', failed) = executed-err (db.remove t name q) e h in
        rw (executed-state (db.remove t name q), laws.failed-remove t name q k e' failed) refl

  module _ (json : Codec J) where
    -- A put of an adapter whose JSON is read back as it was either answers ok, and a lookup then finds
    -- the adapter under its name and every other name as before, or it answers an error, and every
    -- lookup is as before. The database keeps its documented laws.
    pub get_adapter-put_adapter :
        (a : Adapter) (q : Q) (k : String)
        → ReadsBack json.encode_adapter json.decode_adapter a
        → (((put_adapter db json a q).0 ≡ ok tt)
            × (get_adapter db json k (put_adapter db json a q).1
                ≡ (if a.name == k then ok (some a) else get_adapter db json k q)))
          ⊎ ((e : Error) × ((put_adapter db json a q).0 ≡ err e)
              × (get_adapter db json k (put_adapter db json a q).1 ≡ get_adapter db json k q))
    unfolding put_adapter get_adapter
    get_adapter-put_adapter a q k reads = elim (Result-cases (put_adapter db json a q).0) [
      | inl (e, x) ↦ inr (
        e,
        x,
        failed-put_row json.encode_adapter json.decode_adapter adapters_table a.name a a.revision
            (json_encode (json.encode_tags a.tags)) q k e x,
      )
      | inr (tt, x) ↦ inl (
        x,
        get-put_row json.encode_adapter json.decode_adapter adapters_table a.name a a.revision
            (json_encode (json.encode_tags a.tags)) q k reads x,
      )
    ]

    -- A put of a tool whose JSON is read back as it was either answers ok, and a lookup then finds
    -- the tool under its name and every other name as before, or it answers an error, and every
    -- lookup is as before. The database keeps its documented laws.
    pub get_tool-put_tool :
        (a : Tool) (q : Q) (k : String)
        → ReadsBack json.encode_tool json.decode_tool a
        → (((put_tool db json a q).0 ≡ ok tt)
            × (get_tool db json k (put_tool db json a q).1
                ≡ (if a.name == k then ok (some a) else get_tool db json k q)))
          ⊎ ((e : Error) × ((put_tool db json a q).0 ≡ err e)
              × (get_tool db json k (put_tool db json a q).1 ≡ get_tool db json k q))
    unfolding put_tool get_tool
    get_tool-put_tool a q k reads = elim (Result-cases (put_tool db json a q).0) [
      | inl (e, x) ↦ inr (
        e,
        x,
        failed-put_row json.encode_tool json.decode_tool tools_table a.name a a.revision
            (json_encode (json.encode_tags a.tags)) q k e x,
      )
      | inr (tt, x) ↦ inl (
        x,
        get-put_row json.encode_tool json.decode_tool tools_table a.name a a.revision
            (json_encode (json.encode_tags a.tags)) q k reads x,
      )
    ]

    -- A deletion of a tool either answers ok, and a lookup then finds nothing under its name and
    -- every other name as before, or it answers an error, and every lookup is as before. The
    -- database keeps its documented laws.
    pub get_tool-delete_tool :
        (name : String) (q : Q) (k : String)
        → (((delete_tool db json name q).0 ≡ ok tt)
            × (get_tool db json k (delete_tool db json name q).1
                ≡ (if name == k then ok none else get_tool db json k q)))
          ⊎ ((e : Error) × ((delete_tool db json name q).0 ≡ err e)
              × (get_tool db json k (delete_tool db json name q).1 ≡ get_tool db json k q))
    unfolding delete_tool get_tool
    get_tool-delete_tool name q k = elim (Result-cases (delete_tool db json name q).0) [
      | inl (e, x) ↦ inr (e, x, failed-remove_lem json.decode_tool tools_table name q k e x)
      | inr (tt, x) ↦ inl (x, get-remove json.decode_tool tools_table name q k x)
    ]
