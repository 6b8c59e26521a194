-- ===== src/Resource/Progress.antt =====
-- resource/progress/progress.go: the progress bar, with the lines that it prints.
pub mod Bounds
use cfdev.Common.{ℕ, ◌+◌, ◌*◌, ◌/◌, ◌%◌, ◌^◌, ◌-◌, ltb, Bool, List, [], ◌∷◌, ◌==◌, if◌then◌else◌}
use cfdev.Common.Int.{ℤ, pos, negsuc, increment, equal}

pub data Shown : Type 0 where
  started ended : Shown
  bytes : ℕ → Shown
  -- In tenths of a percent.
  permille : ℕ → Shown
  -- A number below 0, on which `strings.Repeat` panics from -50 on.
  negative : ℕ → Shown

-- The lines come with the latest first.
pub record Progress : Type 0 where
  pub current : ℕ
  pub current_last_completed : ℕ
  pub total : ℕ
  pub last_percentage : ℤ
  pub lines : List Shown

abbrev pub uint64 : ℕ → ℕ
uint64 n = n % 2 ^ 64

abbrev pub new : Progress
new = record {
  current = 0;
  current_last_completed = 0;
  total = 0;
  last_percentage = pos 0;
  lines = [];
}

pub start : ℕ → Progress → Progress
start total c = record c {
  last_percentage = negsuc 0;
  current = 0;
  total = total;
  lines = started ∷ c.lines;
}

-- `int` of 64 bits of a uint64.
pub to_int : ℕ → ℤ
to_int n = if ltb n (2 ^ 63) then pos n else negsuc (2 ^ 64 - 1 - n)

-- `int(c.current * 1000 / c.total)`, for a total that is not 0.
pub percentage : Progress → ℤ
unfolding to_int
percentage c = to_int (uint64 (c.current * 1000) / c.total)

pub line : ℤ → Shown
line (pos n) = permille n
line (negsuc n) = negative n

unfoldable pub display : Progress → Progress
unfolding percentage line
display c =
    if c.total == 0
    then record c { lines = bytes c.current ∷ c.lines }
    else if equal c.last_percentage (percentage c)
    then c
    else record c { last_percentage = percentage c; lines = line (percentage c) ∷ c.lines }

-- `Add`, and `Write` of so many bytes.
pub add : ℕ → Progress → Progress
add n c = display (record c { current = uint64 (c.current + n) })

pub set_last_completed : Progress → Progress
set_last_completed c = record c { current_last_completed = c.current }

pub reset_current : Progress → Progress
reset_current c = record c {
  current = c.current_last_completed;
  last_percentage = increment c.last_percentage;
}

pub end_bar : Progress → Progress
end_bar c = record c { lines = ended ∷ c.lines }
