-- ===== src/Resilience/Idempotency.antt =====
-- `SqliteIdempotencyStore` and `IdempotencyPolicy.prepare` of runtime/resilience.py. Times are the
-- instants that the ISO texts stand for. A response is stored as JSON text: `V` is what the codec of
-- `canonical_json` and `json.loads` makes of it, so a response is kept as the JSON value itself.
pub mod Laws
pub mod Invariant
mod Tests
use agent_roi.Base.{
  ℕ, ◌+◌, ◌*◌, String, Bool, true, false, Option, none, some, List, ◌==◌, ltb, max, not, ◌||◌, ◌&&◌,
  if◌then◌else◌, is_some,
}
use agent_roi.Base.Text.{strip, is_blank, is_empty}
use agent_roi.Result.{Result, ok, err, Exec}
use agent_roi.Table.{update, delete, insert, select_one}

pub data RecordStatus : Type 0 where
  pending completed failed : RecordStatus

abbrev pub is_pending : RecordStatus → Bool
is_pending pending = true
is_pending _ = false

-- A row of `idempotency_records`; its creation time is never read.
pub record IdempotencyRecord (V : Type 0) : Type 0 where
  pub namespace : String
  pub key : String
  pub request_digest : String
  pub status : RecordStatus
  pub response : Option V
  pub error_text : String
  pub expires_at : ℕ

pub data IdempotencyResult (V : Type 0) : Type 0 where
  started : IdempotencyResult V
  was_completed : Option V → IdempotencyResult V
  was_failed : String → IdempotencyResult V

pub data IdempotencyError : Type 0 where
  blank_key conflict in_progress not_pending : IdempotencyError

module _ {V : Type 0} where
  abbrev pub has_key : String → String → IdempotencyRecord V → Bool
  has_key ns k r = r.namespace == ns && r.key == k

  abbrev pub has_pending : String → String → IdempotencyRecord V → Bool
  has_pending ns k r = has_key ns k r && is_pending r.status

  -- `DELETE … WHERE expires_at_utc < now`
  abbrev pub purge : ℕ → List (IdempotencyRecord V) → List (IdempotencyRecord V)
  purge now = delete (λ r. ltb r.expires_at now)

  -- the status of a row with the same digest
  answer : IdempotencyRecord V → RecordStatus → Result IdempotencyError (IdempotencyResult V)
  answer r completed = ok (was_completed r.response)
  answer r failed = ok (was_failed r.error_text)
  answer r pending = err in_progress

  begin_row :
      String
      → String
      → String
      → ℕ
      → ℕ
      → List (IdempotencyRecord V)
      → Option (IdempotencyRecord V)
      → Result IdempotencyError (IdempotencyResult V) × List (IdempotencyRecord V)
  unfolding answer
  begin_row ns k digest ttl now t none = (
    ok started,
    insert
        (record {
          namespace = ns;
          key = k;
          request_digest = digest;
          status = pending;
          response = none;
          error_text = "";
          expires_at = now + max 1 ttl;
        })
        t,
  )
  begin_row ns k digest ttl now t (some r) =
      if r.request_digest == digest then (answer r r.status, t) else (err conflict, t)

  -- `begin`. A raise inside `with conn` rolls the transaction back, the purge included.
  pub begin :
      String
      → String
      → String
      → ℕ
      → ℕ
      → Exec IdempotencyError (List (IdempotencyRecord V)) (IdempotencyResult V)
  unfolding begin_row
  begin ns k digest ttl now t =
      if is_blank ns || is_blank k
      then (err blank_key, t)
      else (let t' = purge now t in
          let (r, t'') = begin_row ns k digest ttl now t' (select_one (has_key ns k) t') in
          (r, elim r [ ok _ ↦ t'' | err _ ↦ t ]))

  set_completed : V → IdempotencyRecord V → IdempotencyRecord V
  set_completed v r = record r { status = completed; response = some v; error_text = "" }

  set_failed : String → IdempotencyRecord V → IdempotencyRecord V
  set_failed e r = record r { status = failed; error_text = e }

  -- `UPDATE … WHERE namespace=? AND idempotency_key=? AND status='pending'`; the primary key makes the
  -- rowcount 0 or 1
  settle :
      (IdempotencyRecord V → IdempotencyRecord V)
      → String
      → String
      → Exec IdempotencyError (List (IdempotencyRecord V)) (Unit {0})
  settle f ns k t =
      if is_some (select_one (has_pending ns k) t)
      then (ok tt, update (has_pending ns k) f t)
      else (err not_pending, t)

  pub complete : String → String → V → Exec IdempotencyError (List (IdempotencyRecord V)) (Unit {0})
  unfolding settle set_completed
  complete ns k v = settle (set_completed v) ns k

  pub fail :
      String → String → String → Exec IdempotencyError (List (IdempotencyRecord V)) (Unit {0})
  unfolding settle set_failed
  fail ns k e = settle (set_failed e) ns k

-- `IdempotencyPolicy.prepare` for a key that the factory made and a request digest
pub prepare :
    {V : Type 0}
    → String
    → ℕ
    → String
    → String
    → ℕ
    → Exec IdempotencyError (List (IdempotencyRecord V)) (IdempotencyResult V)
prepare namespace ttl raw_key digest now t =
    if is_blank raw_key
    then (err blank_key, t)
    else begin namespace (strip raw_key) digest ttl now t
