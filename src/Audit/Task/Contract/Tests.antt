-- ===== src/Audit/Task/Contract/Tests.antt =====
-- One task from its start to a ready candidate.
use torq_cli_python.Prelude.{◌≡◌, refl, true, false, none, List, [], ◌∷◌}
use torq_cli_python.Json.{Fields, value_eq}
use torq_cli_python.Evidence.Payload.Shape.{sha256, positive_int}
use torq_cli_python.Audit.Shape.{digests, identifier, artifact}
use torq_cli_python.Audit.Task.Payload.{validate_task_audit_payload}
use torq_cli_python.Audit.Task.Contract.{
  collected, collect, is_terminal, last, row_of, receipt_finding, rows_finding,
  validate_task_receipt_contract,
}
use torq_cli_python.Audit.Task.Contract.Sample.{
  started, generated, checked_row, ready, labour, task,
}
use torq_cli_python.Audit.Task.Contract.Order.{accepted-terminal_is_last}
use torq_cli_python.Audit.Task.Contract.Ready.{IsReady, accepted-IsReady}
use torq_cli_python.Audit.Task.Contract.Live.{IsSealable, open-IsSealable}
use torq_cli_python.Audit.Task.Contract.Sealed.{sealed-is_terminal}

labour_collected :
    collect false labour ≡ collected (row_of started ∷ row_of generated ∷ row_of checked_row ∷ [])
unfolding collect receipt_finding validate_task_audit_payload value_eq positive_int sha256 digests
    identifier artifact
labour_collected = refl

labour_accepted : validate_task_receipt_contract false labour ≡ none
unfolding validate_task_receipt_contract collect receipt_finding validate_task_audit_payload
    value_eq positive_int sha256 digests identifier artifact rows_finding
labour_accepted = refl

task_collected :
    collect false task
    ≡ collected (row_of started ∷ row_of generated ∷ row_of checked_row ∷ row_of ready ∷ [])
unfolding collect receipt_finding validate_task_audit_payload value_eq positive_int sha256 digests
    identifier artifact
task_collected = refl

task_accepted : validate_task_receipt_contract true task ≡ none
unfolding validate_task_receipt_contract collect receipt_finding validate_task_audit_payload
    value_eq positive_int sha256 digests identifier artifact rows_finding
task_accepted = refl

abbrev nothing_after : List Fields
nothing_after = []

accepted-terminal_is_last_example : nothing_after ≡ []
accepted-terminal_is_last_example =
    accepted-terminal_is_last true labour ready nothing_after task_accepted refl refl

accepted-IsReady_example :
    IsReady (row_of started) (row_of generated ∷ row_of checked_row ∷ row_of ready ∷ [])
unfolding last
accepted-IsReady_example =
    accepted-IsReady true task (row_of started)
      (row_of generated ∷ row_of checked_row ∷ row_of ready ∷ []) task_collected task_accepted refl

sealed-is_terminal_example :
    is_terminal
      (last (row_of started) (row_of generated ∷ row_of checked_row ∷ row_of ready ∷ [])).body
    ≡ true
sealed-is_terminal_example =
    sealed-is_terminal task (row_of started)
      (row_of generated ∷ row_of checked_row ∷ row_of ready ∷ []) task_collected task_accepted

open-IsSealable_example : IsSealable labour
unfolding last
open-IsSealable_example =
    open-IsSealable labour (row_of started) (row_of generated ∷ row_of checked_row ∷ [])
      labour_collected labour_accepted refl
