-- ===== src/Audit/Decision/Contract/Final.antt =====
-- Where an application's end stands.
use torq_cli_python.Prelude.{
  ◌≡◌, refl, String, Bool, true, false, none, List, [], ◌∷◌, ◌++◌, arith, ||-eq_false,
}
use torq_cli_python.Json.{Fields}
use torq_cli_python.Audit.Task.Contract.{Row}
use torq_cli_python.Audit.Decision.Contract.{found, find}
use torq_cli_python.Audit.Decision.Contract.Lifecycle.{
  final_before_last, is_final, apply_finding, review_finding, validate_decision_receipt_contract,
}
use torq_cli_python.Audit.Shape.{and_then-eq_none}

last_of_two :
    (r : Row) (after : List Row)
    → final_before_last r after ≡ false
    → is_final r ≡ true
    → after ≡ []
unfolding final_before_last
last_of_two r [] h e = refl
last_of_two r (a ∷ as_rows) h e = ground arith

final_after :
    (q : Row) (before : List Row) (r : Row) (after : List Row)
    → final_before_last q (before ++ r ∷ after) ≡ false
    → is_final r ≡ true
    → after ≡ []
unfolding final_before_last
final_after q [] r after h e = last_of_two r after (||-eq_false (is_final q) _ h).1 e
final_after q (b ∷ before) r after h e =
    final_after b before r after (||-eq_false (is_final q) _ h).1 e

apply_finding-final :
    (hexdigest : Fields → String) (receipts : List Fields) (sealed : Bool) (begin : Row)
    (rest : List Row)
    → apply_finding hexdigest receipts sealed (begin ∷ rest) ≡ none
    → final_before_last begin rest ≡ false
unfolding apply_finding
apply_finding-final hexdigest receipts sealed begin rest h = ground arith

final_is_last :
    (hexdigest : Fields → String) (receipts : List Fields) (sealed : Bool) (before : List Row)
    (r : Row) (after : List Row)
    → apply_finding hexdigest receipts sealed (before ++ r ∷ after) ≡ none
    → is_final r ≡ true
    → after ≡ []
final_is_last hexdigest receipts sealed [] r after h e =
    last_of_two r after (apply_finding-final hexdigest receipts sealed r after h) e
final_is_last hexdigest receipts sealed (b ∷ before) r after h e =
    final_after b before r after
      (apply_finding-final hexdigest receipts sealed b (before ++ r ∷ after) h) e

-- Where the decision contract accepts a list of receipts, a row of its application that rejects,
-- completes or rolls back the application is its last row: no application is both completed and
-- rolled back.
pub accepted-final_is_last :
    (hexdigest : Fields → String) (receipts : List Fields) (sealed : Bool)
    (reviews before : List Row) (r : Row) (after : List Row)
    → find receipts ≡ found reviews (before ++ r ∷ after)
    → validate_decision_receipt_contract hexdigest receipts sealed ≡ none
    → is_final r ≡ true
    → after ≡ []
unfolding validate_decision_receipt_contract
accepted-final_is_last hexdigest receipts sealed reviews before r after found_rows h e =
    let accepted =
      and_then-eq_none (review_finding hexdigest receipts reviews)
        (apply_finding hexdigest receipts sealed (before ++ r ∷ after)) (rw found_rows at h) in
    final_is_last hexdigest receipts sealed before r after accepted.1 e
