-- ===== src/Contract/Errors.antt =====
-- packages/contract/src/errors.ts: the error codes, and the exception that carries one. The message,
-- which is prose, is left out; the structured detail is kept.
use Prim.Native.Nat.{ℕ}

pub data ErrorCode : Type 0 where
  unauthenticated token_expired token_revoked device_pending device_revoked : ErrorCode
  pairing_invalid pairing_expired pairing_consumed pairing_locked rate_limited : ErrorCode
  forbidden folder_closed download_not_allowed print_not_allowed upload_not_allowed : ErrorCode
  not_found folder_unavailable path_escapes_root range_not_satisfiable : ErrorCode
  printer_not_found printer_disabled unprintable_type spooler_failed : ErrorCode
  upload_session_unknown upload_offset_mismatch upload_too_large : ErrorCode
  edge_not_ready edge_login_required edge_cert_unavailable edge_control_unreachable : ErrorCode
  edge_mode_unsupported bad_request internal : ErrorCode

-- The `detail` objects that the modelled code attaches.
pub data Detail : Type 0 where
  no_detail : Detail
  retry_after_ms : ℕ → Detail
  max_bytes : ℕ → Detail
  progress : ℕ → ℕ → Detail

pub record ApiException : Type 0 where
  pub code : ErrorCode
  pub detail : Detail

abbrev pub plain : ErrorCode → ApiException
plain c = record { code = c; detail = no_detail }

-- HTTP status of each code.
abbrev pub error_status : ErrorCode → ℕ
error_status unauthenticated = 401
error_status token_expired = 401
error_status token_revoked = 401
error_status device_pending = 403
error_status device_revoked = 403
error_status pairing_invalid = 400
error_status pairing_expired = 410
error_status pairing_consumed = 409
error_status pairing_locked = 429
error_status rate_limited = 429
error_status forbidden = 403
error_status folder_closed = 404
error_status download_not_allowed = 403
error_status print_not_allowed = 403
error_status upload_not_allowed = 403
error_status not_found = 404
error_status folder_unavailable = 503
error_status path_escapes_root = 400
error_status range_not_satisfiable = 416
error_status printer_not_found = 404
error_status printer_disabled = 403
error_status unprintable_type = 415
error_status spooler_failed = 502
error_status upload_session_unknown = 404
error_status upload_offset_mismatch = 409
error_status upload_too_large = 413
error_status edge_not_ready = 503
error_status edge_login_required = 503
error_status edge_cert_unavailable = 503
error_status edge_control_unreachable = 502
error_status edge_mode_unsupported = 400
error_status bad_request = 400
error_status internal = 500
