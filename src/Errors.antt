-- ===== src/Errors.antt =====
-- The errors that the program raises, one constructor for each message, with what the message
-- quotes, and the tests that tell apart the exception classes that a handler names.
use unixtime_machine.Prelude.{ℕ, Bool, true, false, List, String}
use unixtime_machine.Prelude.Int.{ℤ}

pub data Error : Type 0 where
  -- scripts/utmlib.py
  unsafe_identifier : String → String → Error
  no_disk_set : Error
  permission_denied : String → Error
  is_a_directory : String → Error
  file_exists : String → Error
  not_regular_file : String → Error
  existing_file : String → Error
  incomplete_golden : List String → Error
  golden_inaccessible : Error
  golden_unreadable : Error
  golden_became_unreadable : Error
  existing_session : String → Error
  stale_transaction : String → Error
  media_as_golden : Error
  source_not_directory : Error
  incomplete_staging : List String → Error
  existing_golden_set : String → Error
  stale_import : String → Error
  no_golden_group : Error
  golden_changed_in_copy : Error
  target_not_empty : String → Error
  no_emulator_section : Error
  executable_not_absolute : Error
  executable_missing : String → Error
  session_missing : String → Error
  configuration_missing : Error
  unsafe_runtime_path : Error
  missing_session_disk : String → Error
  missing_artifact : String → Error
  bad_option_contract : String → Error
  unsafe_replacement : Error
  unsafe_whitespace : Error
  unresolved_token : Error
  -- scripts/manifestlib.py
  unsafe_system_id : String → Error
  unknown_system : String → Error
  mismatched_system : String → Error
  manifest_not_mapping : String → Error
  missing_key : String → Error
  -- scripts/validate_manifests.py; the text is the message after the file's name
  invalid_manifest : String → Error
  malformed_manifest : Error  -- a value of the wrong type, which Python itself refuses
  -- scripts/utm.py
  system_not_running : Error
  other_session : Error
  recorded_process_gone : Error
  one_attestation : Error
  emulator_not_stopped : Error
  system_already_running : Error
  malformed_state : Error  -- JSON of the wrong type, which Python itself refuses
  no_session : Error
  -- broker/session.py, broker/store.py
  storage_failed : Error  -- an `OSError` of a write below state/broker or logs
  invalid_transition : String → String → Error
  invalid_state_file : String → Error
  file_not_found : String → Error
  unreadable_json : String → Error
  mistyped_record : String → Error
  not_a_mapping : String → Error
  -- broker/backend.py, broker/shutdown.py
  no_adapter : Error
  unsupported_driver : String → Error
  unsupported_transport : String → Error
  -- broker/config.py
  unknown_config_keys : Error
  below_one : String → Error
  not_positive : String → Error
  bad_system_limit : Error
  mistyped_config : Error
  -- broker/manager.py
  no_workspace_path : Error
  total_limit_reached : Error
  system_limit_reached : String → Error
  duplicate_session : String → Error
  startup_failed : Error
  supervisor_exited : ℤ → Error
  startup_timeout_exceeded : Error
  unknown_session : String → Error
  stop_refused_failed : Error
  recovery_needs_failed : Error
  protocol_unavailable : Error
  guest_not_synced : Error
  supervisor_not_running : Error
  shutdown_wait_expired : Error
  emulator_may_run : Error
  release_needs_stopped : Error
  golden_unverified : Error
  golden_changed : Error
  reset_failed : Error
  supervisor_missing : Error
  stale_session : Error
  not_attachable : String → Error
  no_console_transport : Error
  console_unavailable : Error
  -- broker/supervisor.py
  no_client : Error
  monitor_entry_unconfirmed : Error
  shutdown_unconfirmed : Error
  expired : String → Error
  exited_before_confirmed : Error
  exited_unexpectedly : ℤ → Error
  -- scripts/media43bsd.py; the numbers are those of lines
  media_not_directory : Error
  destination_exists : Error
  destination_inside_source : Error
  incomplete_sources : List String → Error
  multiple_boots : Error
  boot_empty : Error
  boot_bad_header : Error
  boot_no_end : Error
  boot_data_after_end : Error
  boot_no_terminator : Error
  boot_invalid_characters : ℕ → Error
  boot_invalid_length : ℕ → Error
  boot_early_terminator : Error
  boot_length_mismatch : ℕ → Error
  boot_undecodable : Error
  -- a loop of the model has used up its fuel; the program has no such error
  out_of_fuel : Error
  -- raised by code that is a parameter of the model
  external_failure : ℕ → Error

-- `except FileNotFoundError`
abbrev pub is_file_not_found : Error → Bool
is_file_not_found (file_not_found _) = true
is_file_not_found _ = false

-- `except (OSError, ValueError, TypeError)`: what reading one state file may raise
abbrev pub is_bad_record : Error → Bool
is_bad_record (file_not_found _) = true
is_bad_record (unreadable_json _) = true
is_bad_record (mistyped_record _) = true
is_bad_record _ = false

-- `except PermissionError`
abbrev pub is_permission_error : Error → Bool
is_permission_error (permission_denied _) = true
is_permission_error _ = false

-- The `OSError` of a write
abbrev pub is_storage_failure : Error → Bool
is_storage_failure storage_failed = true
is_storage_failure e = false
