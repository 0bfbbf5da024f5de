-- ===== src/Database/Examples/Histories.antt =====
-- The sample history as a sequence of operations.
use family_dashboard.Common.{refl, none, codes}
use family_dashboard.Database.State.{shared_tablet}
use family_dashboard.Database.Enrollment.Lifecycle.{creates, submits, approves, completes, step}
use family_dashboard.Database.Examples.{
  seed, first_setup, at_minute, tablet_setup, accepted, enrolled_too,
}
use family_dashboard.Database.Invariant.{WellFormed}
use family_dashboard.Database.Invariant.Reachable.{
  Migrated, Reachable, migrated, after, sets_up, enrolls, run, Reachable-WellFormed,
}

seed-Migrated : Migrated seed
seed-Migrated = record {
  no_requests = refl;
  no_devices = refl;
  no_sessions = refl;
  no_pushes = refl;
  not_set_up = refl;
}

pub accepted-Reachable : Reachable accepted
unfolding run step
accepted-Reachable = after (enrolls (approves (codes "e1") (codes "pc") (at_minute 4))) _ (
    after (enrolls (submits 31 32 (codes "Tablet") none none (at_minute 3))) _ (
      after (enrolls (creates (codes "e1") 31 shared_tablet (at_minute 60) (at_minute 2))) _
        (after (sets_up first_setup) seed (migrated seed seed-Migrated))))

enrolled-Reachable : Reachable enrolled_too
unfolding run step
enrolled-Reachable = after (enrolls (completes 32 33 tablet_setup none)) accepted accepted-Reachable

Reachable-WellFormed_example : WellFormed enrolled_too
Reachable-WellFormed_example = Reachable-WellFormed enrolled_too enrolled-Reachable
