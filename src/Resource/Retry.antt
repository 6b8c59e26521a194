-- ===== src/Resource/Retry.antt =====
-- resource/retry/retry.go: runs a function again while its failures are worth it.
use cfdev.Common.{
  ℕ, zero, suc, ◌+◌, ◌-◌, ◌≤◌, ◌<◌, ◌≡◌, inl, inr, Bool, true, false, ◌&&◌, Option, none, some,
  arith, Option-cases, ltb, if◌then◌else◌,
}
use cfdev.Errors.{Error}

-- An error, with `WrapAsRetryable` around it or not.
pub data Failure : Type 0 where
  retryable_error : Error → Failure
  final : Error → Failure

abbrev pub wrap_as_retryable : Error → Failure
wrap_as_retryable = retryable_error

abbrev pub is_retry : Failure → Bool
is_retry (retryable_error e) = true
is_retry (final e) = false

-- The closure that `Retryable` returns: its counter after a failure, and whether to go on. The
-- message and the pause are left out.
unfoldable pub retryable : ℕ → ℕ → Failure → ℕ × Bool
retryable retries counter e = (counter + 1, is_retry e && ltb (counter + 1) retries)

module _ {S : Type 0} (fn : S → Option Failure × S) where
  -- `Retry`, with the counter of the closure it is given; `none` means that the fuel ran out.
  unfoldable pub retry : ℕ → (ℕ → Failure → ℕ × Bool) → ℕ → S → Option (Option Failure × S)
  retry zero should_retry counter s = none
  retry (suc fuel) should_retry counter s =
      let (failed, s') = fn s in
      elim failed [
        | none ↦ some (none, s')
        | some e ↦
            let (counter', again) = should_retry counter e in
            let rest = retry fuel should_retry counter' s' in
            if again then rest else some (some e, s')
      ]

  -- What is left of a run that may be tried `n` more times: an independent description.
  unfoldable pub attempts : ℕ → S → Option Failure × S
  attempts zero s = fn s
  attempts (suc n) s =
      let (failed, s') = fn s in
      let rest = attempts n s' in
      elim failed [ none ↦ (none, s') | some e ↦ if is_retry e then rest else (some e, s') ]

  retry-attempts_from :
      (n fuel retries counter : ℕ) (s : S)
      → counter + suc n ≡ retries
      → n < fuel
      → retry fuel (retryable retries) counter s ≡ some (attempts n s)
  unfolding retry attempts retryable
  retry-attempts_from n zero retries counter s e f = absurd (omega arith)
  retry-attempts_from zero (suc fuel) retries counter s e f = elim (Option-cases (fn s).0) [
    | inl done ↦ ground arith
    | inr (x, failed) ↦ ground arith
  ]
  retry-attempts_from (suc n) (suc fuel) retries counter s e f =
      let ih =
        retry-attempts_from n fuel retries (counter + 1) (fn s).1 (omega arith) (omega arith) in
      elim (Option-cases (fn s).0) [
        | inl done ↦ ground arith
        | inr (x, failed) ↦ ground (arith, ih)
      ]

-- With enough fuel for the retries, `Retry` ends, whatever the function does, and comes to what
-- running it up to `retries` times does, going on only after a failure that is worth it.
pub retry-attempts :
    {S : Type 0} (fn : S → Option Failure × S) (retries fuel : ℕ) (s : S)
    → 0 < retries
    → retries ≤ fuel
    → retry fn fuel (retryable retries) 0 s ≡ some (attempts fn (retries - 1) s)
retry-attempts fn retries fuel s positive enough =
    retry-attempts_from fn (retries - 1) fuel retries 0 s (omega arith) (omega arith)
