-- ===== src/Errors.antt =====
-- errors/errors.go: errors whose wrapping messages may be sent to analytics.
pub mod Safe
use cfdev.Common.{String, ◌<>◌}

-- A Go error. `safe_nil` is `SafeWrap(nil, msg)`.
pub data Error : Type 0 where
  plain : String → Error
  safe_nil : String → Error
  safe : Error → String → Error

abbrev pub safe_wrap : Error → String → Error
safe_wrap err msg = safe err msg

-- The `Error` method.
unfoldable pub error : Error → String
error (plain msg) = msg
error (safe_nil msg) = msg
error (safe err msg) = msg <> ": " <> error err

-- The `safeError` method. The receiver is a `*safeError`.
safe_text : Error → String
safe_text (plain msg) = ""
safe_text (safe_nil msg) = msg
safe_text (safe (plain _) msg) = msg
safe_text (safe (safe_nil inner) msg) = msg <> ": " <> safe_text (safe_nil inner)
safe_text (safe (safe err inner) msg) = msg <> ": " <> safe_text (safe err inner)

-- `SafeError`
pub safe_error : Error → String
unfolding safe_text
safe_error (plain _) = ""
safe_error (safe_nil msg) = safe_text (safe_nil msg)
safe_error (safe err msg) = safe_text (safe err msg)
