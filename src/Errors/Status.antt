-- ===== src/Errors/Status.antt =====
-- errors.go, `AsError`: the status that an error is answered with.
use openresponses.Prelude.{ℕ, ◌==◌, if◌then◌else◌}
use openresponses.Errors.{AnyError, error_status}

-- The status of an error.
abbrev pub status_of : AnyError → ℕ
status_of (AnyError.protocol_error e) = error_status e
status_of (AnyError.status_error status message) = if status == 0 then 500 else status
status_of (AnyError.other_error message) = 500
