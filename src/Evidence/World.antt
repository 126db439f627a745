-- ===== src/Evidence/World.antt =====
-- What the validators of receipts take from outside: the digest of a canonical JSON document
-- (`hashlib` over `canonical_json`), the digest of a whole row (`hashlib` over `json.dumps`, in
-- src/torq_cli/domain/candidate_decision_evidence.py), and Python's `str` of a value that is no
-- text.
use torq_cli_python.Prelude.{String}
use torq_cli_python.Json.{Value, Fields}

pub record World : Type 0 where
  pub hexdigest : Fields → String
  pub row_digest : Fields → String
  pub render : Value → String
