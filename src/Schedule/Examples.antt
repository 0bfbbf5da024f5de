-- ===== src/Schedule/Examples.antt =====
-- The theorems on schedule items at concrete items.
use family_dashboard.Common.{
  select_rows, ◌+◌, ◌*◌, ◌≡◌, ◌↔◌, refl, true, none, some, [], ◌∷◌, arith, codes, text_eq, Among,
}
use family_dashboard.Time.{minute, hour, zero_time}
use family_dashboard.Schedule.{
  Item, View, other, comes_before, is_candidate, sort_items, parents_only, tv, contains, overlap,
  active_status,
}
use family_dashboard.Schedule.Overlap.{Meets, overlap_iff}
use family_dashboard.Schedule.Status.{
  IsStatus, IsRunning, active_status-IsStatus, active_status-none_iff,
}

abbrev clinic : Item
clinic = record {
  id = codes "s1";
  title = codes "Clinic";
  location_name = codes "Hospital";
  notes = codes "fasting";
  visibility = parents_only;
  starts_at = zero_time + 9 * hour;
  ends_at = zero_time + 10 * hour;
  participants = codes "mom" ∷ codes "dad" ∷ codes "mom" ∷ [];
  version = 1;
  created_at = zero_time;
  updated_at = zero_time;
}

abbrev drive : Item
drive = record clinic {
  id = codes "s3";
  starts_at = zero_time + 9 * hour + 30 * minute;
  ends_at = zero_time + 11 * hour;
}

overlap_iff_example : (overlap clinic drive ≡ true) ↔ Meets clinic drive
overlap_iff_example = overlap_iff clinic drive (omega arith) (omega arith)

abbrev drive_status : View
drive_status = record {
  id = [];
  title = codes "개인 일정";
  location_name = [];
  notes = [];
  visibility = other [];
  starts_at = none;
  ends_at = some (zero_time + 11 * hour);
  participants = [];
  version = 0;
  summary = true;
  overlap = true;
}

status_shown :
    active_status (drive ∷ clinic ∷ []) (codes "mom") (zero_time + 9 * hour + 45 * minute) tv
    ≡ some drive_status
unfolding active_status text_eq select_rows sort_items is_candidate contains comes_before
status_shown = refl

active_status-IsStatus_example :
    IsStatus
      (drive ∷ clinic ∷ [])
      (codes "mom")
      (zero_time + 9 * hour + 45 * minute)
      tv
      drive_status
active_status-IsStatus_example =
    active_status-IsStatus (drive ∷ clinic ∷ []) (codes "mom") (zero_time + 9 * hour + 45 * minute)
      tv drive_status status_shown

active_status-none_iff_example :
    (active_status (clinic ∷ []) (codes "mom") (zero_time + 10 * hour) tv ≡ none) ↔ (
      (item : Item)
      → Among item (clinic ∷ [])
      → ¬ IsRunning (codes "mom") (zero_time + 10 * hour) item)
active_status-none_iff_example =
    active_status-none_iff (clinic ∷ []) (codes "mom") (zero_time + 10 * hour) tv
