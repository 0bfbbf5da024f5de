-- ===== src/App/Status/Members.antt =====
-- What familyStatus of internal/app/schedule.go answers for each member.
use family_dashboard.App.Handlers.Writes.{for_device-granted}
use family_dashboard.App.Handlers.{audience_for}
use family_dashboard.App.Access.{authenticated_device}
use family_dashboard.Database.Setup.{Device}
use family_dashboard.Common.{
  ◌+◌, ◌≡◌, ap, subst, refl, some, List, [], ◌∷◌, arith, map, AllRows, ◌⊎◌, ◌≢◌, ◌∙◌, sym, none,
  Option, Among, Text, text_eq, text_eq→eq, text_eq_iff, inl, inr, Bool-cases, if◌then◌else◌,
}
use family_dashboard.Time.{Time}
use family_dashboard.Schedule.{Item, View, Audience, parent, shared}
use family_dashboard.Schedule.Status.{
  IsStatus, active_status-IsStatus, IsRunning, active_status-none_iff,
}
use family_dashboard.Database.State.{
  Database, Result, ok, err, DeviceType, trusted_pc, parent_mobile, shared_tablet,
}
use family_dashboard.Database.Items.{FamilyMember, family_members, schedules_between}
use family_dashboard.App.{granted, Platform, Config, Request, Answer}
use family_dashboard.App.Status.{MemberStatus, statuses, status_answer, status_at, family_status}

-- Every status of the answer is one of its member's among the items, and a member without one has
-- no item that is running.
abbrev pub AllStatuses : Audience → Time → List Item → List MemberStatus → Type 0
AllStatuses audience at items answers =
    AllRows
      (λ (s : MemberStatus).
        ((view : View) → s.status ≡ some view → IsStatus items s.member.id at audience view)
        × (s.status ≡ none → (item : Item) → Among item items → ¬ IsRunning s.member.id at item))
      answers

statuses-AllStatuses :
    (audience : Audience) (at : Time) (members : List FamilyMember) (items : List Item)
    → AllStatuses audience at items (statuses audience at members items)
unfolding statuses
statuses-AllStatuses audience at [] items = tt
statuses-AllStatuses audience at (m ∷ ms) items = (
  (
    λ view e. active_status-IsStatus items m.id at audience view e,
    λ e. (active_status-none_iff items m.id at audience).0 e,
  ),
  statuses-AllStatuses audience at ms items,
)

statuses-members :
    (audience : Audience) (at : Time) (members : List FamilyMember) (items : List Item)
    → map (λ (s : MemberStatus). s.member) (statuses audience at members items) ≡ members
unfolding statuses
statuses-members audience at [] items = refl
statuses-members audience at (m ∷ ms) items =
    ap (λ r. m ∷ r) (statuses-members audience at ms items)

-- The statuses of one audience at one instant.
status_at-AllStatuses :
    (audience : Audience) (at : Time) (db : Database) (answers : List MemberStatus)
    → status_at audience (some at) db ≡ granted answers
    → (map (λ (s : MemberStatus). s.member) answers ≡ family_members db)
      × ((items : List Item) × (schedules_between at (at + 1) [] db ≡ ok items)
          × AllStatuses audience at items answers)
unfolding status_at status_answer
status_at-AllStatuses audience at db answers h = go (schedules_between at (at + 1) [] db) refl h
  where
    go :
        (found : Result (List Item))
        → schedules_between at (at + 1) [] db ≡ found
        → status_answer audience at (family_members db) found ≡ granted answers
        → (map (λ (s : MemberStatus). s.member) answers ≡ family_members db)
          × ((items : List Item) × (schedules_between at (at + 1) [] db ≡ ok items)
              × AllStatuses audience at items answers)
    go (err e) q k = absurd (ground arith)
    go (ok items) q k =
        let same : statuses audience at (family_members db) items ≡ answers = ground arith in
        (
          subst (λ list. map (λ (s : MemberStatus). s.member) list ≡ family_members db) same
              (statuses-members audience at (family_members db) items),
          (
            items,
            q,
            subst (AllStatuses audience at items) same
                (statuses-AllStatuses audience at (family_members db) items),
          ),
        )

-- The audience that each type of device shows to.
pub data ShowsTo : DeviceType → Audience → Type 0 where
  pc_to_parent : ShowsTo trusted_pc parent
  mobile_to_parent : ShowsTo parent_mobile parent
  tablet_to_shared : ShowsTo shared_tablet shared
  tv_to_tv : ShowsTo DeviceType.tv Audience.tv

audience_for-ShowsTo : (kind : DeviceType) → ShowsTo kind (audience_for kind)
unfolding audience_for
audience_for-ShowsTo trusted_pc = pc_to_parent
audience_for-ShowsTo parent_mobile = mobile_to_parent
audience_for-ShowsTo shared_tablet = tablet_to_shared
audience_for-ShowsTo DeviceType.tv = tv_to_tv

-- What `familyStatus` answers: to which device, of which instant, and from which items.
pub record IsFamilyStatus (lib : Platform) (config : Config) (r : Request) (raw_at : Text)
    (now later : Time) (db : Database) (answers : List MemberStatus) : Type 0 where
  pub device : Device
  pub left : Database
  pub known : authenticated_device lib config r now db ≡ (granted device, left)
  pub audience : Audience
  pub shown_to : ShowsTo device.device_type audience
  pub at : Time
  pub asked :
      ((raw_at ≡ []) × (at ≡ later)) ⊎ ((raw_at ≢ []) × (lib.parse_rfc3339 raw_at ≡ some at))
  pub items : List Item
  pub read : schedules_between at (at + 1) [] left ≡ ok items
  pub members : map (λ (s : MemberStatus). s.member) answers ≡ family_members left
  pub statuses : AllStatuses audience at items answers

status_at-granted :
    (audience : Audience) (wanted : Option Time) (db : Database) (answers : List MemberStatus)
    → status_at audience wanted db ≡ granted answers
    → (at : Time) × (wanted ≡ some at)
unfolding status_at
status_at-granted audience none db answers h = absurd (ground arith)
status_at-granted audience (some at) db answers h = (at, refl)

-- When `familyStatus` answers, it answers a device that its cookie identifies, at the instant of the
-- query, or now where it names none, for the members that the database lists, in their order. A
-- status that it shows is the current item of that member among the items that the query returned,
-- without the content of private items unless the device is a trusted PC or a parent's mobile, and
-- a member without a status has no item among them that is running.
pub family_status-IsFamilyStatus :
    (lib : Platform) (config : Config) (r : Request) (raw_at : Text) (now later : Time)
    (db db' : Database) (answers : List MemberStatus)
    → family_status lib config r raw_at now later db ≡ (granted answers, db')
    → IsFamilyStatus lib config r raw_at now later db answers
unfolding family_status
family_status-IsFamilyStatus lib config r raw_at now later db db' answers h =
    let (device, first, next) =
      for_device-granted (authenticated_device lib config r now db) _ answers db' h in
    let left = (authenticated_device lib config r now db).1 in
    let audience = audience_for device.device_type in
    let wanted = if text_eq raw_at [] then some later else lib.parse_rfc3339 raw_at in
    let answered : status_at audience wanted left ≡ granted answers =
      ap (λ (o : Answer (List MemberStatus) × Database). o.0) next in
    let (at, is) = status_at-granted audience wanted left answers answered in
    let (members, (items, read, all)) =
      status_at-AllStatuses audience at left answers
        (ap (λ (o : Option Time). status_at audience o left) (sym is) ∙ answered) in
    record {
      device = device;
      left = left;
      known = first;
      audience = audience;
      shown_to = audience_for-ShowsTo device.device_type;
      at = at;
      asked = elim (Bool-cases (text_eq raw_at [])) [
        | inl t ↦ inl (text_eq→eq raw_at [] t, ground arith)
        | inr f ↦ inr ((λ e. absurd (ground (arith, text_eq_iff raw_at []))), ground arith)
      ];
      items = items;
      read = read;
      members = members;
      statuses = all;
    }
