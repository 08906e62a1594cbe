-- ===== src/Audit/Lines.antt =====
-- `JsonlAuditStore` of audit/store.py: the lines of its file. The lock on the file makes each method atomic.
-- Canonical JSON, its parser and the hash of a text are arguments.
pub mod Refines
mod Tests
use agent_roi.Base.{
  ℕ, String, Bool, true, false, Option, none, some, List, [], ◌∷◌, ◌++◌, ◌==◌, length, not, ◌&&◌,
  if◌then◌else◌,
}
use agent_roi.Base.Text.{is_blank, is_empty}
use agent_roi.Result.{Result, ok, err, Exec}
use agent_roi.Dict
use agent_roi.Dict.{Dict}
use agent_roi.Audit.Event.{
  Body, AuditEvent, AuditError, stale_prev_hash, bad_prev_hash, missing_hash, bad_hash,
  unexpected_hash, missing_correlation, malformed_line, Entry, same_hash, create,
}

-- What `obj.get` finds: nothing or null, a text, or another value with its truth and its `str`.
pub data Field : Type 0 where
  absent : Field
  text_field : String → Field
  other_field : Bool → String → Field

-- A line as `json.loads` reads it; `rest` is the canonical JSON of the object without its hash.
pub record LineObject : Type 0 where
  pub correlation_id : String
  pub prev_hash : Field
  pub hash : Field
  pub rest : String

-- `_stable_json` of an event and of a body, `json.loads` of a line, `none` where it raises or gives no
-- object, and the SHA-256 of a text.
pub record Format (P : Type 0) : Type 0 where
  pub to_line : AuditEvent P → String
  pub body_json : Body P → String
  pub loads : String → Option LineObject
  pub hash_text : String → String

-- `obj["prev_hash"] == expected`
abbrev pub field_is : Field → Option String → Bool
field_is absent none = true
field_is (text_field h) (some k) = h == k
field_is _ _ = false

-- `str(obj["hash"])` if the hash is true
abbrev pub true_text : Field → Option String
true_text absent = none
true_text (text_field h) = if is_empty h then none else some h
true_text (other_field b t) = if b then some t else none

-- `_last_hash_from_objects`
abbrev pub last_hash_from : String → Option String → List LineObject → Option String
last_hash_from c last [] = last
last_hash_from c last (o ∷ l) =
    last_hash_from c
      (if o.correlation_id == c
        then (elim (true_text o.hash) [ none ↦ last | some h ↦ some h ])
        else last)
      l

module _ {P : Type 0} (f : Format P) where
  -- `_read_objects_from_handle`
  unfoldable pub read_objects : List String → Result AuditError (List LineObject)
  read_objects [] = ok []
  read_objects (line ∷ lines) =
      let rest = read_objects lines in
      if is_blank line then rest else elim (f.loads line) [
        | none ↦ err malformed_line
        | some o ↦ elim rest [ err x ↦ err x | ok l ↦ ok (o ∷ l) ]
      ]

  -- `record`
  unfoldable pub record_line : Bool → Entry P → Exec AuditError (List String) (AuditEvent P)
  unfolding read_objects create
  record_line hash_chain n file = elim (read_objects file) [
    | err x ↦ (err x, file)
    | ok objects ↦
        let previous = last_hash_from n.correlation_id none objects in
        let e = create (λ b. f.hash_text (f.body_json b)) n previous hash_chain in
        (ok e, file ++ f.to_line e ∷ [])
  ]

  -- `append` of an event that was built before
  unfoldable pub append_line : AuditEvent P → Exec AuditError (List String) (Unit {0})
  unfolding read_objects
  append_line e file = elim (read_objects file) [
    | err x ↦ (err x, file)
    | ok objects ↦
        if not (same_hash e.prev_hash (last_hash_from e.correlation_id none objects))
        then (err stale_prev_hash, file)
        else (ok tt, file ++ f.to_line e ∷ [])
  ]

  -- `last_hash`
  unfoldable pub last_hash_line : String → List String → Result AuditError (Option String)
  unfolding read_objects
  last_hash_line c file = elim (read_objects file) [
    | err x ↦ err x
    | ok objects ↦ ok (last_hash_from c none objects)
  ]

  -- one turn of the loop of `verify`: the last hashes after it
  abbrev pub check_object : Bool → Dict String → LineObject → Result AuditError (Dict String)
  check_object hash_chain last o =
      if is_empty o.correlation_id
      then err missing_correlation
      else if not (field_is o.prev_hash (Dict.get last o.correlation_id))
      then err bad_prev_hash
      else elim o.hash [
        | absent ↦ if hash_chain then err missing_hash else ok last
        | other_field b t ↦ if hash_chain then err missing_hash else err unexpected_hash
        | text_field h ↦
            if not hash_chain
            then err unexpected_hash
            else if is_empty h
            then err missing_hash
            else if not (f.hash_text o.rest == h)
            then err bad_hash
            else ok (Dict.put last o.correlation_id h)
      ]

  unfoldable pub verify_objects :
      Bool → Dict String → List LineObject → Result AuditError (Unit {0})
  verify_objects hash_chain last [] = ok tt
  verify_objects hash_chain last (o ∷ l) = elim (check_object hash_chain last o) [
    | err x ↦ err x
    | ok last' ↦ verify_objects hash_chain last' l
  ]

  -- `verify`
  unfoldable pub verify_lines : Bool → List String → Result AuditError ℕ
  unfolding read_objects verify_objects
  verify_lines hash_chain file = elim (read_objects file) [
    | err x ↦ err x
    | ok objects ↦ elim (verify_objects hash_chain Dict.empty objects) [
      | err x ↦ err x
      | ok _ ↦ ok (length objects)
    ]
  ]
