-- ===== src/Audit/Memory.antt =====
-- `InMemoryAuditStore` of audit/store.py. Its lock makes each method atomic.
use agent_roi.Base.{
  ℕ, String, Bool, Option, none, some, List, [], ◌∷◌, ◌++◌, not, length, if◌then◌else◌,
}
use agent_roi.Base.Text.{is_empty}
use agent_roi.Result.{Result, ok, err, Exec}
use agent_roi.Dict
use agent_roi.Dict.{Dict}
use agent_roi.Audit.Event.{
  Body, AuditEvent, AuditError, stale_prev_hash, Entry, same_hash, create, verify_from,
}

pub record AuditStore (P : Type 0) : Type 0 where
  pub hash_chain : Bool
  pub events : List (AuditEvent P)
  pub last_hashes : Dict String

abbrev pub new_store : {P : Type 0} → Bool → AuditStore P
new_store hash_chain = record { hash_chain = hash_chain; events = []; last_hashes = Dict.empty }

-- `if event.hash: self._last_hash_cache[…] = event.hash`
abbrev pub cache : Dict String → String → Option String → Dict String
cache last correlation none = last
cache last correlation (some h) = if is_empty h then last else Dict.put last correlation h

-- append to the list and to the cache
abbrev pub keep : {P : Type 0} → AuditEvent P → AuditStore P → AuditStore P
keep e s = record s {
  events = s.events ++ e ∷ [];
  last_hashes = cache s.last_hashes e.correlation_id e.hash;
}

module _ {P : Type 0} (sha256 : Body P → String) where
  -- `record`
  unfoldable pub record_event : Entry P → Exec AuditError (AuditStore P) (AuditEvent P)
  unfolding create
  record_event n s =
      let e = create sha256 n (Dict.get s.last_hashes n.correlation_id) s.hash_chain in
      (ok e, keep e s)

  -- `append` of an event that was built before
  unfoldable pub append : AuditEvent P → Exec AuditError (AuditStore P) (Unit {0})
  append e s =
      if not (same_hash e.prev_hash (Dict.get s.last_hashes e.correlation_id))
      then (err stale_prev_hash, s)
      else (ok tt, keep e s)

  -- `last_hash`
  abbrev pub last_hash : AuditStore P → String → Option String
  last_hash s correlation = Dict.get s.last_hashes correlation

  -- `verify`
  unfoldable pub verify : AuditStore P → Result AuditError ℕ
  unfolding verify_from
  verify s = elim (verify_from sha256 s.hash_chain Dict.empty s.events) [
    | err x ↦ err x
    | ok _ ↦ ok (length s.events)
  ]
