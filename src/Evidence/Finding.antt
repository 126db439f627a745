-- ===== src/Evidence/Finding.antt =====
-- The findings that the receipt validators return: `none` in their place means no finding.
-- `raised` stands for a Python exception in a validator: `TypeError` where a list or a mapping is
-- tested for membership in a set, `KeyError` where a key is read that was not required.
pub data Finding : Type 0 where
  receipt_writer_unauthorized run_decision_value_unauthorized : Finding
  receipt_value_oversized receipt_payload_invalid : Finding
  receipt_after_terminal_decision receipt_after_terminating_decision : Finding
  attempt_role_invalid attempt_id_invalid attempt_ordinal_invalid : Finding
  attempt_repair_cycle_invalid attempt_dispatch_invalid stage_rejected_invalid : Finding
  stage_interrupted_observation_invalid : Finding
  lane_catalog_invalid lane_catalog_order_invalid lane_catalog_required_invalid : Finding
  lane_catalog_duplicate lane_catalog_missing : Finding
  run_plan_contract_invalid run_plan_hash_invalid : Finding
  repair_route_invalid repair_route_attempt_invalid repair_route_cycle_invalid : Finding
  repair_route_qualifying_defect_missing repair_route_attempt_duplicate : Finding
  repair_route_attempt_mismatch : Finding
  action_opened_invalid action_outcome_map_invalid action_id_duplicate action_cause_invalid :
      Finding
  action_open_missing action_open_link_invalid action_resolution_unauthorized : Finding
  action_resolved_invalid : Finding
  command_accept_invalid command_extraction_invalid command_target_invalid : Finding
  command_boundary_invalid command_rejection_invalid command_effective_attempt_invalid : Finding
  command_unapplied_invalid command_id_duplicate command_accept_missing : Finding
  command_already_finalized command_accept_link_invalid command_extraction_link_invalid : Finding
  command_replan_missing command_replan_attempt_mismatch command_boundary_violated : Finding
  command_unapplied_precondition_invalid command_pending_at_terminal : Finding
  run_replanned_invalid run_replanned_hash_invalid run_replanned_precondition_invalid : Finding
  run_replanned_attempt_invalid : Finding
  supervisor_decision_invalid supervisor_decision_link_invalid : Finding
  supervisor_decision_precondition_invalid : Finding
  operator_decision_invalid operator_decision_link_invalid : Finding
  operator_decision_outcome_mismatch operator_decision_actions_open : Finding
  run_decision_value_invalid run_decision_text_invalid run_decision_structure_invalid : Finding
  run_decision_precondition_invalid run_decision_required_lanes_incomplete : Finding
  run_abandoned_invalid run_abandoned_operator_action_open run_abandoned_attempts_invalid : Finding
  run_abandoned_empty_enumeration_invalid run_abandoned_coverage_invalid : Finding
  terminalization_started_invalid terminalization_started_precondition_invalid : Finding
  attempt_id_duplicate attempt_lane_not_cataloged attempt_lane_already_open : Finding
  attempt_ordinal_discontinuity attempt_created_missing attempt_identity_mismatch : Finding
  attempt_transition_after_terminal attempt_dispatch_duplicate : Finding
  attempt_blocked_after_dispatch attempt_completed_without_dispatch : Finding
  attempt_rejected_without_dispatch attempt_dispatch_evidence_missing : Finding
  attempt_terminal_missing run_terminating_incomplete : Finding
  task_event_invalid task_payload_keys_invalid task_id_invalid : Finding
  task_provider_dispatch_invalid task_hash_invalid task_artifact_invalid : Finding
  task_provider_invalid task_sequence_link_invalid task_termination_invalid : Finding
  task_check_profile_invalid task_check_exit_invalid task_check_output_invalid : Finding
  task_phase_invalid task_reason_invalid task_cancel_termination_invalid : Finding
  task_receipt_after_terminal task_transition_invalid task_run_id_mismatch : Finding
  task_id_mismatch task_terminal_link_invalid task_start_order_invalid : Finding
  task_terminal_duplicate task_event_duplicate task_generated_link_invalid : Finding
  task_check_link_invalid task_ready_prerequisite_missing task_ready_link_invalid : Finding
  task_terminal_missing : Finding
  candidate_review_payload_invalid candidate_review_identity_invalid : Finding
  candidate_review_detail_invalid candidate_accept_detail_invalid : Finding
  candidate_correction_detail_invalid candidate_review_event_invalid : Finding
  candidate_review_receipt_invalid candidate_review_lifecycle_invalid : Finding
  candidate_review_run_id_mismatch : Finding
  candidate_apply_payload_invalid candidate_apply_identity_invalid : Finding
  candidate_apply_detail_invalid candidate_apply_receipt_invalid : Finding
  candidate_apply_context_changed candidate_apply_begin_invalid : Finding
  candidate_apply_after_terminal candidate_apply_terminal_invalid : Finding
  candidate_apply_run_id_mismatch candidate_apply_prepared_order_invalid : Finding
  candidate_apply_started_order_invalid candidate_apply_progress_order_invalid : Finding
  candidate_apply_progress_link_invalid candidate_apply_rollback_order_invalid : Finding
  candidate_apply_rollback_progress_invalid candidate_apply_recovery_link_invalid : Finding
  candidate_apply_terminal_link_invalid candidate_apply_lifecycle_invalid : Finding
  raised : Finding
