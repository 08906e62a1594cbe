-- ===== src/Audit/Tests.antt =====
-- Trails with two correlations, and the theorems of this folder at them. A payload is a text.
use agent_roi.Base.{
  leb, Bool, ℕ, ◌≡◌, refl, String, true, false, none, some, List, [], ◌∷◌, arith, ◌==◌, eq_iff, map,
  inl, inr, Bool-cases, filter, ◌↔◌, if◌then◌else◌,
}
use agent_roi.Base.Text.{is_empty}
use agent_roi.Result.{ok}
use agent_roi.Dict
use agent_roi.Audit.Event.{Body, Entry, create, verify_from}
use agent_roi.Audit.Memory.{AuditStore, new_store, record_event, verify}
use agent_roi.Audit.Chain.{IsSound, records, records-verify, records-IsSound, new_store-IsSound}
use agent_roi.Audit.Tamper.{of_correlation, verify-tamper_evident}
use agent_roi.Audit.Sqlite.{AuditRow, Codec, row_of, last_hash, verify_rows, record_row}
use agent_roi.Audit.Sqlite.Refines.{record_row-record}
use agent_roi.Audit.Redact.{
  scalar, list, set, item, no_items, Json, text, object, field, no_fields, is_blocked, IsClean,
  redact, redact-IsClean, walk, walk_items, walk_fields,
}

abbrev entry : String → String → Entry String
entry id correlation = record {
  event_id = id;
  correlation_id = correlation;
  run_id = "r";
  timestamp = 3;
  event_type = "run_started";
  payload = "{}";
}

-- a digest that tells the identifiers apart
abbrev digest : Body String → String
digest b = if is_empty b.event_id then "-" else b.event_id

digest_full : (b : Body String) → is_empty (digest b) ≡ false
digest_full b = elim (Bool-cases (is_empty b.event_id)) [
  | inl empty ↦ rw empty refl
  | inr full ↦ rw full full
]

abbrev one : AuditStore String
unfolding record_event create
one = records digest (entry "e1" "c1" ∷ []) (new_store true)

abbrev two : AuditStore String
unfolding record_event create
two = records digest (entry "e1" "c1" ∷ entry "e2" "c2" ∷ []) (new_store true)

records-verify_example :
    verify digest (records digest (entry "e1" "c1" ∷ entry "e2" "c2" ∷ []) (new_store true)) ≡ ok 2
records-verify_example =
    records-verify digest true (entry "e1" "c1" ∷ entry "e2" "c2" ∷ []) digest_full

verify_two : verify digest two ≡ ok 2
unfolding verify verify_from two Dict.get Dict.empty Dict.put
verify_two = refl

verify_one : verify digest one ≡ ok 1
unfolding verify verify_from one Dict.get Dict.empty
verify_one = refl

apart : ◌≡◌ {A = String} "e2" "e1" → ⊥
apart e = ground (arith, eq_iff "e2" "e1", e)

verify-tamper_evident_example :
    filter (of_correlation "c1") two.events ≡ filter (of_correlation "c1") one.events
unfolding one two Dict.empty Dict.put Dict.get
verify-tamper_evident_example =
    verify-tamper_evident digest "c1" two one 2 1
      (((λ same. refl), tt), (((λ same. absurd (apart same)), tt), tt)) refl refl verify_two
      verify_one refl

one-IsSound : IsSound digest one
unfolding one
one-IsSound =
    records-IsSound digest (entry "e1" "c1" ∷ []) (new_store true) digest_full
      (new_store-IsSound digest true)

-- a codec that knows the first event
abbrev codec : Codec String
unfolding create
codec = record {
  to_json = λ e. e.event_id;
  of_json = λ t. if t == "e1" then some (create digest (entry "e1" "c1") none true) else none;
}

abbrev rows : List AuditRow
unfolding one
rows = map (row_of codec) one.events

record_row-record_example :
    (last_hash codec "c1" rows ≡ ok (Dict.get one.last_hashes "c1"))
    × (verify_rows codec digest true rows ≡ verify digest one)
    × (record_row codec digest true (entry "e2" "c1") rows ≡ (
      (record_event digest (entry "e2" "c1") one).0,
      map (row_of codec) (record_event digest (entry "e2" "c1") one).1.events,
    ))
unfolding one rows codec create Dict.get Dict.empty
record_row-record_example =
    record_row-record codec digest one (entry "e2" "c1") refl one-IsSound (refl, tt) refl

abbrev secret : Json ℕ
secret = object (
    field "Token" (text "t") (
      field "ids" (set (item (scalar 2) (item (scalar 1) no_items)))
        (field "user" (text "u") no_fields)))

abbrev lower : String → String
lower k = if k == "Token" then "token" else k

-- numbers below ten are in the order of their texts
abbrev by_digit : Json ℕ → Json ℕ → Bool
by_digit (scalar a) (scalar b) = leb a b
by_digit j k = true

redact_test :
    redact by_digit lower ("token" ∷ []) secret
    ≡ object (
        field "Token" (text "[REDACTED]") (
          field "ids"
            (list (item (scalar 1) (item (scalar 2) no_items)))
            (field "user" (text "u") no_fields)))
unfolding redact walk walk_items walk_fields
redact_test = refl

redact-IsClean_example :
    IsClean by_digit (is_blocked lower ("token" ∷ [])) (redact by_digit lower ("token" ∷ []) secret)
    × (IsClean by_digit (is_blocked lower ("token" ∷ [])) secret
        ↔ (redact by_digit lower ("token" ∷ []) secret ≡ secret))
    × (redact by_digit lower ("token" ∷ []) (redact by_digit lower ("token" ∷ []) secret)
        ≡ redact by_digit lower ("token" ∷ []) secret)
redact-IsClean_example = redact-IsClean by_digit lower ("token" ∷ []) secret
