-- ===== src/App/Handlers/Ranges.antt =====
-- The bounds of parseScheduleRange of internal/app/schedule.go.
use family_dashboard.Common.{◌+◌, ◌≤◌, ◌<◌, ◌≡◌, ◌↔◌, some, arith, Text, Option-cases, inl, inr}
use family_dashboard.Time.{Time}
use family_dashboard.App.{Platform, granted}
use family_dashboard.App.Handlers.{parse_schedule_range, max_schedule_range}

-- A range is accepted exactly when both ends are times, the end is after the start, and it is at
-- most 62 days long.
pub parse_schedule_range-granted_iff :
    (lib : Platform) (raw_from raw_to : Text) (from to : Time)
    → (parse_schedule_range lib raw_from raw_to ≡ granted (from, to)) ↔ (
        (lib.parse_rfc3339 raw_from ≡ some from)
        × (lib.parse_rfc3339 raw_to ≡ some to)
        × (from < to)
        × (to ≤ from + max_schedule_range))
unfolding parse_schedule_range
parse_schedule_range-granted_iff lib raw_from raw_to from to = (
  λ h. elim (Option-cases (lib.parse_rfc3339 raw_from)) [
    | inl e ↦ absurd (ground arith)
    | inr (starts, e) ↦ elim (Option-cases (lib.parse_rfc3339 raw_to)) [
      | inl k ↦ absurd (ground arith)
      | inr (ends, k) ↦ (ground arith, ground arith, ground arith, ground arith)
    ]
  ],
  λ h. ground arith,
)
