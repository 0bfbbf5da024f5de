-- ===== src/App/Handlers/Disclosure.antt =====
-- What the reading handlers of internal/app/schedule.go disclose of private items.
use family_dashboard.Database.Items
use family_dashboard.Time.{Time}
use family_dashboard.Common.{◌≡◌, Bool, true, false, ◌⊎◌}
use family_dashboard.Schedule.{Visibility, parents_only}
use family_dashboard.Database.State.{Database, DeviceType, trusted_pc, parent_mobile}

abbrev pub for_parents : Visibility → Bool
for_parents parents_only = true
for_parents v = false

-- The devices that show what is for the parents: the trusted PC and a parent's mobile.
abbrev pub IsOfParents : DeviceType → Type 0
IsOfParents kind = (kind ≡ trusted_pc) ⊎ (kind ≡ parent_mobile)
