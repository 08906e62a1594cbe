-- ===== src/Audit/Lines/Tests.antt =====
-- A file with one event, the theorem at it, and an event without a correlation.
use agent_roi.Base.{
  ◌≡◌, refl, String, true, false, none, some, List, [], ◌∷◌, map, ◌==◌, inl, inr, Bool-cases,
  if◌then◌else◌,
}
use agent_roi.Base.Text.{is_empty, is_space, strip}
use agent_roi.Result.{ok, err}
use agent_roi.Dict
use agent_roi.Audit.Event.{Body, Entry, create, missing_correlation}
use agent_roi.Audit.Memory.{AuditStore, new_store, record_event, verify}
use agent_roi.Audit.Chain.{IsSound, records, records-IsSound, new_store-IsSound}
use agent_roi.Audit.Lines.{
  LineObject, Format, absent, text_field, record_line, last_hash_line, verify_lines,
}
use agent_roi.Audit.Lines.Refines.{sha256, record_line-record}

abbrev entry : String → String → Entry String
entry id correlation = record {
  event_id = id;
  correlation_id = correlation;
  run_id = "r";
  timestamp = 3;
  event_type = "run_started";
  payload = "{}";
}

abbrev object : String → LineObject
object correlation = record {
  correlation_id = correlation;
  prev_hash = absent;
  hash = text_field "e1";
  rest = "e1";
}

-- lines and hashes are the identifiers of the events, of which `e1` alone reads back
abbrev format : String → Format String
format correlation = record {
  to_line = λ e. e.event_id;
  body_json = λ b. if is_empty b.event_id then "-" else b.event_id;
  loads = λ t. if t == "e1" then some (object correlation) else none;
  hash_text = λ t. t;
}

full : (b : Body String) → is_empty (sha256 (format "c1") b) ≡ false
full b = elim (Bool-cases (is_empty b.event_id)) [
  | inl blank ↦ rw blank refl
  | inr named ↦ rw named named
]

abbrev one : AuditStore String
unfolding record_event create
one = records (sha256 (format "c1")) (entry "e1" "c1" ∷ []) (new_store true)

one-IsSound : IsSound (sha256 (format "c1")) one
unfolding one
one-IsSound =
    records-IsSound (sha256 (format "c1")) (entry "e1" "c1" ∷ []) (new_store true) full
      (new_store-IsSound (sha256 (format "c1")) true)

abbrev file : List String
unfolding one
file = map (format "c1").to_line one.events

record_line-record_example :
    (last_hash_line (format "c1") "c1" file ≡ ok (Dict.get one.last_hashes "c1"))
    × (verify_lines (format "c1") true file ≡ verify (sha256 (format "c1")) one)
    × (record_line (format "c1") true (entry "e2" "c1") file ≡ (
      (record_event (sha256 (format "c1")) (entry "e2" "c1") one).0,
      map
          (format "c1").to_line
          (record_event (sha256 (format "c1")) (entry "e2" "c1") one).1.events,
    ))
unfolding one file create is_space strip Dict.get Dict.empty
record_line-record_example =
    record_line-record (format "c1") one (entry "e2" "c1") refl full one-IsSound
      ((refl, refl, refl), tt)

-- An event of the empty correlation is recorded, and refused by the next `verify`.
empty_correlation_test :
    ((record_line (format "") true (entry "e1" "") []).1 ≡ "e1" ∷ [])
    × (verify_lines (format "") true ("e1" ∷ []) ≡ err missing_correlation)
unfolding record_line verify_lines is_space strip Dict.get Dict.empty
empty_correlation_test = (refl, refl)
