-- ===== src/Audit/Sqlite.antt =====
-- `SqliteAuditStore` of audit/store.py: the rows of `audit_events` in the order of their sequence. Canonical
-- JSON and its parser are arguments; a transaction that raises is rolled back.
pub mod Refines
use agent_roi.Base.{
  ℕ, String, Bool, true, false, Option, none, some, List, [], ◌∷◌, ◌==◌, any, length, not, ◌||◌,
  if◌then◌else◌,
}
use agent_roi.Result.{Result, ok, err, Exec}
use agent_roi.Dict
use agent_roi.Table.{insert}
use agent_roi.Audit.Event.{
  Body, AuditEvent, AuditError, stale_prev_hash, malformed_row, metadata_mismatch, duplicate_event,
  Entry, same_hash, create, verify_from,
}

pub record AuditRow : Type 0 where
  pub event_id : String
  pub correlation_id : String
  pub run_id : String
  pub event_type : String
  pub event_json : String
  pub event_hash : Option String

-- `_stable_json` of an event, and `_event_from_json`, which is `none` where it raises.
pub record Codec (P : Type 0) : Type 0 where
  pub to_json : AuditEvent P → String
  pub of_json : String → Option (AuditEvent P)

-- `WHERE correlation_id = ? ORDER BY sequence DESC LIMIT 1`
abbrev pub last_from : String → Option AuditRow → List AuditRow → Option AuditRow
last_from c found [] = found
last_from c found (r ∷ rows) = last_from c (if r.correlation_id == c then some r else found) rows

module _ {P : Type 0} (codec : Codec P) where
  -- the row of an event
  abbrev pub row_of : AuditEvent P → AuditRow
  row_of e = record {
    event_id = e.event_id;
    correlation_id = e.correlation_id;
    run_id = e.run_id;
    event_type = e.event_type;
    event_json = codec.to_json e;
    event_hash = e.hash;
  }

  -- `last_hash`, with which `record` and `append` begin
  unfoldable pub last_hash : String → List AuditRow → Result AuditError (Option String)
  last_hash c rows = elim (last_from c none rows) [
    | none ↦ ok none
    | some r ↦ elim (codec.of_json r.event_json) [ none ↦ err malformed_row | some e ↦ ok e.hash ]
  ]

  -- `INSERT INTO audit_events`, whose identifiers are unique
  unfoldable pub insert_row : AuditEvent P → Exec AuditError (List AuditRow) (Unit {0})
  insert_row e rows =
      if any (λ r. r.event_id == e.event_id) rows
      then (err duplicate_event, rows)
      else (ok tt, insert (row_of e) rows)

  module _ (sha256 : Body P → String) (hash_chain : Bool) where
    -- `record`
    unfoldable pub record_row : Entry P → Exec AuditError (List AuditRow) (AuditEvent P)
    unfolding last_hash insert_row create
    record_row n rows = elim (last_hash n.correlation_id rows) [
      | err x ↦ (err x, rows)
      | ok prev ↦
          let e = create sha256 n prev hash_chain in
          let (inserted, rows') = insert_row e rows in
          (elim inserted [ err x ↦ err x | ok _ ↦ ok e ], rows')
    ]

    -- `append` of an event that was built before
    unfoldable pub append_row : AuditEvent P → Exec AuditError (List AuditRow) (Unit {0})
    unfolding last_hash insert_row
    append_row e rows = elim (last_hash e.correlation_id rows) [
      | err x ↦ (err x, rows)
      | ok prev ↦
          if not (same_hash e.prev_hash prev)
          then (err stale_prev_hash, rows)
          else insert_row e rows
    ]

    -- the columns of a row say what its JSON says
    abbrev pub mismatch : AuditRow → AuditEvent P → Bool
    mismatch r e =
        not (e.event_id == r.event_id)
        || not (e.correlation_id == r.correlation_id)
        || not (e.run_id == r.run_id)
        || not (e.event_type == r.event_type)
        || not (same_hash e.hash r.event_hash)

    abbrev pub read_row : AuditRow → Result AuditError (AuditEvent P)
    read_row r = elim (codec.of_json r.event_json) [
      | none ↦ err malformed_row
      | some e ↦ if mismatch r e then err metadata_mismatch else ok e
    ]

    -- `_events`
    unfoldable pub read_events : List AuditRow → Result AuditError (List (AuditEvent P))
    read_events [] = ok []
    read_events (r ∷ rows) =
        let rest = read_events rows in
        elim (read_row r) [ err x ↦ err x | ok e ↦ elim rest [ err x ↦ err x | ok l ↦ ok (e ∷ l) ] ]

    -- `verify`; a hash that is missing is refused as one that is wrong
    unfoldable pub verify_rows : List AuditRow → Result AuditError ℕ
    unfolding read_events verify_from
    verify_rows rows = elim (read_events rows) [
      | err x ↦ err x
      | ok events ↦ elim (verify_from sha256 hash_chain Dict.empty events) [
        | err x ↦ err x
        | ok _ ↦ ok (length events)
      ]
    ]
