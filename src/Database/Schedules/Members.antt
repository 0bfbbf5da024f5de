-- ===== src/Database/Schedules/Members.antt =====
-- Who takes part in a schedule: the rows of internal/database/schedule.go against the lists of
-- internal/schedule/schedule.go.
use family_dashboard.Common.{
  ◌≡◌, ◌↔◌, ◌∙◌, ap, inl, inr, refl, Bool, true, false, not, ◌&&◌, List, [], ◌∷◌, arith, Text,
  length, ◌==◌, text_eq, text_lt, any_row, Among, AllRows, AllRows-Among, select_rows, sort_rows,
  Among-sort_rows, Among-map, Among-select_rows, select_rows-Among, Bool-cases, sym, subst,
}
use family_dashboard.Schedule.{contains, unique_from, unique_strings}
use family_dashboard.Schedule.Participants.{contains→Among, unique_strings-contains, AllDistinct}
use family_dashboard.Database.State.{Database, ParticipantRow}
use family_dashboard.Database.Items.{has_participant, unique, unique_after, schedule_participants}

-- The participants without repetition are the same in both packages.
unique_after-unique_from : (seen vs : List Text) → unique_after seen vs ≡ unique_from seen vs
unfolding unique_after unique_from
unique_after-unique_from seen [] = refl
unique_after-unique_from seen (v ∷ vs) = ground (
  arith,
  unique_after-unique_from seen vs,
  unique_after-unique_from (v ∷ seen) vs,
  Bool-cases (contains v seen),
  Bool-cases (text_eq v []),
)

pub contains-unique :
    (m : Text) (vs : List Text) → contains m (unique vs) ≡ (contains m vs && not (text_eq m []))
unfolding unique unique_strings
contains-unique m vs =
    ap (contains m) (unique_after-unique_from [] vs) ∙ (unique_strings-contains vs).1 m

pub AllDistinct-unique : (vs : List Text) → AllDistinct (unique vs)
unfolding unique unique_strings
AllDistinct-unique vs =
    subst AllDistinct (sym (unique_after-unique_from [] vs)) (unique_strings-contains vs).0

pub any_row-holds :
    {A : Type 0}
    → (p : A → Bool) (xs : List A) → (any_row p xs ≡ true) ↔ ((x : A) × Among x xs × (p x ≡ true))
unfolding any_row
any_row-holds p [] = (λ h. absurd (ground arith), λ (x, m, e). absurd m)
any_row-holds p (x ∷ xs) =
    let (to, from) = any_row-holds p xs in
    (
      (λ h. elim (Bool-cases (p x)) [
        | inl t ↦ (x, inl refl, t)
        | inr f ↦ let (y, m, e) = to (ground arith) in (y, inr m, e)
      ]),
      (λ (y, m, e). elim m [ inl s ↦ ground arith | inr k ↦ ground (arith, from (y, k, e)) ]),
    )

pub members-Among :
    (m schedule : Text) (db : Database)
    → Among m (schedule_participants schedule db) ↔ (
        (p : ParticipantRow) × Among p db.schedule_participants
        × (text_eq p.schedule_id schedule ≡ true)
        × (m ≡ p.family_member_id))
unfolding schedule_participants
members-Among m schedule db =
    let before = λ (a b : ParticipantRow). text_lt a.family_member_id b.family_member_id in
    let own = λ (p : ParticipantRow). text_eq p.schedule_id schedule in
    let chosen = select_rows own db.schedule_participants in
    let (out, back) =
      Among-map (λ (p : ParticipantRow). p.family_member_id) m (sort_rows before chosen) in
    (
      (λ k.
          let (p, among, e) = out k in
          let (stored, holds) =
            Among-select_rows own p db.schedule_participants
              ((Among-sort_rows before p chosen).0 among) in
          (p, stored, holds, e)),
      (λ (p, stored, holds, e). back (
        p,
        (Among-sort_rows before p chosen).1
            (select_rows-Among own p db.schedule_participants holds stored),
        e,
      )),
    )

abbrev pub IsNamed : Text → Type 0
IsNamed v = text_eq v [] ≡ false

named-contains :
    (m : Text) (vs : List Text) → AllRows IsNamed vs → contains m (unique vs) ≡ contains m vs
named-contains m vs named = elim (Bool-cases (contains m vs)) [
  | inl t ↦
      let there = AllRows-Among IsNamed vs m named (contains→Among m vs t) in
      ground (arith, contains-unique m vs, there)
  | inr f ↦ ground (arith, contains-unique m vs)
]

pub has_participant-shared :
    (vs : List Text) (schedule : Text) (db : Database)
    → AllRows IsNamed vs
    → (has_participant (λ m. contains m (unique vs)) schedule db ≡ true)
      ↔ (any_row (λ m. contains m vs) (schedule_participants schedule db) ≡ true)
unfolding has_participant
has_participant-shared vs schedule db named =
    let joined = λ (p : ParticipantRow).
      text_eq p.schedule_id schedule && contains p.family_member_id (unique vs) in
    let taking = λ (m : Text). contains m vs in
    (
      (λ h.
          let (p, among, e) = (any_row-holds joined db.schedule_participants).0 h in
          (any_row-holds taking (schedule_participants schedule db)).1 (
            p.family_member_id,
            (members-Among p.family_member_id schedule db).1 (p, among, ground arith, refl),
            ground (
              arith,
              named-contains p.family_member_id vs named,
              Bool-cases (text_eq p.schedule_id schedule),
            ),
          )),
      (λ h.
          let (m, among, e) = (any_row-holds taking (schedule_participants schedule db)).0 h in
          let (p, stored, own, same) = (members-Among m schedule db).0 among in
          (any_row-holds joined db.schedule_participants).1
            (p, stored, ground (arith, named-contains m vs named))),
    )

pub unshared :
    (vs members : List Text)
    → (length vs == 0) ≡ true
    → any_row (λ m. contains m vs) members ≡ false
unfolding any_row contains
unshared [] [] e = refl
unshared [] (m ∷ members) e = unshared [] members e
unshared (v ∷ vs) members e = absurd (ground arith)
