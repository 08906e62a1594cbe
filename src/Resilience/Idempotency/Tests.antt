-- ===== src/Resilience/Idempotency/Tests.antt =====
-- Runs of the idempotency store, and its theorems at concrete tables.
use agent_roi.Base.{ℕ, ◌≡◌, refl, some, List, [], ◌∷◌, arith}
use agent_roi.Base.Text.{strip}
use agent_roi.Result.{ok}
use agent_roi.Resilience.Idempotency.{IdempotencyRecord, completed, was_completed, begin, prepare}
use agent_roi.Resilience.Idempotency.Invariant.{IsKeyed}

abbrev done : IdempotencyRecord ℕ
done = record {
  namespace = "pay";
  key = "7";
  request_digest = "d1";
  status = completed;
  response = some 5;
  error_text = "";
  expires_at = 50;
}

abbrev table : List (IdempotencyRecord ℕ)
table = done ∷ []

prepare_test : (prepare "pay" 60 " 7 " "d1" 20 table).0 ≡ ok (was_completed (some 5))
unfolding prepare begin strip
prepare_test = refl

IsKeyed-empty : IsKeyed {V = ℕ} []
IsKeyed-empty ns k = omega arith
