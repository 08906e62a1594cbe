-- ===== src/Audit/Event.antt =====
-- `AuditEvent` of audit/event.py, over a type `P` of payloads, and the check of a chain of events that
-- the stores of audit/store.py share.
use agent_roi.Base.{
  ℕ, String, Bool, true, false, Option, none, some, List, [], ◌∷◌, ◌==◌, is_some, not,
  if◌then◌else◌,
}
use agent_roi.Result.{Result, ok, err}
use agent_roi.Dict
use agent_roi.Dict.{Dict}

-- What is hashed: all fields but the hash.
pub record Body (P : Type 0) : Type 0 where
  pub event_id : String
  pub correlation_id : String
  pub run_id : String
  pub timestamp : ℕ
  pub event_type : String
  pub payload : P
  pub prev_hash : Option String

pub record AuditEvent (P : Type 0) : Type 0 where
  pub event_id : String
  pub correlation_id : String
  pub run_id : String
  pub timestamp : ℕ
  pub event_type : String
  pub payload : P
  pub prev_hash : Option String
  pub hash : Option String

-- `to_dict()` without the hash
abbrev pub body_of : {P : Type 0} → AuditEvent P → Body P
body_of e = record {
  event_id = e.event_id;
  correlation_id = e.correlation_id;
  run_id = e.run_id;
  timestamp = e.timestamp;
  event_type = e.event_type;
  payload = e.payload;
  prev_hash = e.prev_hash;
}

-- The errors of the stores.
pub data AuditError : Type 0 where
  stale_prev_hash bad_prev_hash missing_hash bad_hash unexpected_hash : AuditError
  malformed_row metadata_mismatch duplicate_event missing_correlation malformed_line : AuditError

-- What the caller of `record` says, and what is drawn for it: the identifier and the time.
pub record Entry (P : Type 0) : Type 0 where
  pub event_id : String
  pub correlation_id : String
  pub run_id : String
  pub timestamp : ℕ
  pub event_type : String
  pub payload : P

abbrev pub entry_body : {P : Type 0} → Entry P → Option String → Body P
entry_body n prev = record {
  event_id = n.event_id;
  correlation_id = n.correlation_id;
  run_id = n.run_id;
  timestamp = n.timestamp;
  event_type = n.event_type;
  payload = n.payload;
  prev_hash = prev;
}

abbrev pub same_hash : Option String → Option String → Bool
same_hash none none = true
same_hash (some h) (some k) = h == k
same_hash _ _ = false

-- `last_by_correlation[…] = event_hash`
abbrev pub remember : Dict String → String → Option String → Dict String
remember last correlation none = last
remember last correlation (some h) = Dict.put last correlation h

-- `sha256` hashes the canonical JSON of a body
module _ {P : Type 0} (sha256 : Body P → String) where
  -- `AuditEvent.create`
  unfoldable pub create : Entry P → Option String → Bool → AuditEvent P
  create n prev hash_chain = record {
    event_id = n.event_id;
    correlation_id = n.correlation_id;
    run_id = n.run_id;
    timestamp = n.timestamp;
    event_type = n.event_type;
    payload = n.payload;
    prev_hash = prev;
    hash = if hash_chain then some (sha256 (entry_body n prev)) else none;
  }

  -- the hash of one event in `verify`
  abbrev pub check_hash : Bool → AuditEvent P → Result AuditError (Unit {0})
  check_hash hash_chain e =
      if hash_chain
      then (if same_hash (some (sha256 (body_of e))) e.hash then ok tt else err bad_hash)
      else if is_some e.hash
      then err unexpected_hash
      else ok tt

  -- the loop of `verify`
  unfoldable pub verify_from :
      Bool → Dict String → List (AuditEvent P) → Result AuditError (Unit {0})
  verify_from hash_chain last [] = ok tt
  verify_from hash_chain last (e ∷ l) =
      let rest = verify_from hash_chain (remember last e.correlation_id e.hash) l in
      if not (same_hash e.prev_hash (Dict.get last e.correlation_id))
      then err bad_prev_hash
      else elim (check_hash hash_chain e) [ err x ↦ err x | ok _ ↦ rest ]
