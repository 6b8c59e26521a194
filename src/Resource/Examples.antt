-- ===== src/Resource/Examples.antt =====
-- The theorems on the assets at concrete catalogs and servers.
use cfdev.Common.{◌≡◌, ℕ, ◌+◌, ◌-◌, true, ◌==◌, Option, none, some, [], All, arith, if◌then◌else◌}
use cfdev.Common.Int.{pos}
use cfdev.Errors.{plain}
use cfdev.Resource.{Item}
use cfdev.Resource.Progress
use cfdev.Resource.Progress.{Progress}
use cfdev.Resource.Progress.Bounds.{InRange, add-InRange}
use cfdev.Resource.Retry.{Failure, retryable_error, retryable, retry, attempts, retry-attempts}

abbrev helper : Item
helper = record {
  url = "https://example.com/cfdevd";
  name = "cfdevd";
  md5 = "aa";
  size = 3;
  in_use = true;
}

abbrev image : Item
image = record {
  url = "https://example.com/cf.iso";
  name = "cf.iso";
  md5 = "aa";
  size = 3;
  in_use = true;
}

abbrev half_way : Progress
half_way = record {
  current = 50;
  current_last_completed = 0;
  total = 100;
  last_percentage = pos 500;
  lines = [];
}

add-InRange_example :
    All InRange (Progress.add 25 half_way).lines × ((Progress.add 25 half_way).current ≡ 50 + 25)
add-InRange_example = add-InRange 25 half_way (omega arith) (omega arith) tt

-- Fails until the third run.
abbrev flaky : ℕ → Option Failure × ℕ
flaky n = (if n == 2 then none else some (retryable_error (plain "broken")), n + 1)

retry-attempts_example : retry flaky 10 (retryable 10) 0 0 ≡ some (attempts flaky (10 - 1) 0)
retry-attempts_example = retry-attempts flaky 10 10 0 (omega arith) (omega arith)
