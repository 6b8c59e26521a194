-- ===== src/Configuration/Examples.antt =====
-- The theorem on versions at a version.
use cfdev.Common.{◌≡◌, some, arith}
use cfdev.Common.Int.{pos}
use cfdev.Configuration.Semver.{new}
use cfdev.Configuration.Semver.Printed.{printed, new-printed}

new-printed_example :
    new (printed 1 12 203)
    ≡ some (record { major = pos 1; minor = pos 12; build = pos 203; original = printed 1 12 203 })
new-printed_example = new-printed 1 12 203 (omega arith) (omega arith) (omega arith)
