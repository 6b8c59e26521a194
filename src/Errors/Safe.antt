-- ===== src/Errors/Safe.antt =====
-- What `SafeError` of errors/errors.go lets through.
use cfdev.Common.{String, ◌<>◌, ◌≡◌, refl, ap}
use cfdev.Errors.{Error, plain, safe_nil, safe, safe_error}

-- The same error with another text in place of every message that was not wrapped as safe.
abbrev pub redact : String → Error → Error
redact t (plain msg) = plain t
redact t (safe_nil msg) = safe_nil msg
redact t (safe err msg) = safe (redact t err) msg

-- What `SafeError` shows does not depend on the texts of errors that were never wrapped as safe.
pub safe_error-redact : (t : String) (err : Error) → safe_error (redact t err) ≡ safe_error err
unfolding safe_error
safe_error-redact t (plain msg) = refl
safe_error-redact t (safe_nil msg) = refl
safe_error-redact t (safe (plain inner) msg) = refl
safe_error-redact t (safe (safe_nil inner) msg) = refl
safe_error-redact t (safe (safe err inner) msg) =
    ap (λ s. msg <> ": " <> s) (safe_error-redact t (safe err inner))
