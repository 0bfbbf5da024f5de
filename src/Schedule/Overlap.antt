-- ===== src/Schedule/Overlap.antt =====
-- Overlap of internal/schedule/schedule.go.
use family_dashboard.Common.{
  ◌≤◌, ◌<◌, ◌≡◌, ◌↔◌, inl, inr, true, List, [], ◌∷◌, arith, Text, text_eq_iff, Bool-cases,
  if◌then◌else◌, any_row, ltb,
}
use family_dashboard.Time.{Time}
use family_dashboard.Schedule.{Item, overlap, contains}

shared_member :
    (xs ys : List Text)
    → any_row (λ member. contains member xs) ys ≡ true
    → (v : Text) × (contains v xs ≡ true) × (contains v ys ≡ true)
unfolding any_row contains
shared_member xs [] h = cc
shared_member xs (y ∷ ys) h = elim (Bool-cases (contains y xs)) [
  | inl e ↦ (y, e, ground (arith, text_eq_iff y y))
  | inr e ↦ let (v, p, q) = shared_member xs ys (ground arith) in (v, p, ground arith)
]

any_row-shared :
    (v : Text) (xs ys : List Text)
    → contains v xs ≡ true
    → contains v ys ≡ true
    → any_row (λ member. contains member xs) ys ≡ true
unfolding any_row contains
any_row-shared v xs [] h k = cc
any_row-shared v xs (y ∷ ys) h k = ground (arith, text_eq_iff y v, any_row-shared v xs ys h)

-- A moment at which both items run, and a member who takes part in both.
pub record Meets (left right : Item) : Type 0 where
  pub moment : Time
  pub in_left : (left.starts_at ≤ moment) × (moment < left.ends_at)
  pub in_right : (right.starts_at ≤ moment) × (moment < right.ends_at)
  pub member : Text
  pub takes_part :
      (contains member left.participants ≡ true) × (contains member right.participants ≡ true)

-- The later of two starts.
later : Time → Time → Time
later a b = if ltb a b then b else a

-- Of items that end after they start, `Overlap` says whether somebody is in both at some moment.
pub overlap_iff :
    (left right : Item)
    → left.starts_at < left.ends_at
    → right.starts_at < right.ends_at
    → (overlap left right ≡ true) ↔ Meets left right
unfolding overlap later
overlap_iff left right h k = (sound, complete)
  where
    sound : overlap left right ≡ true → Meets left right
    sound o =
        let (v, p, q) = shared_member left.participants right.participants (ground arith) in
        record {
          moment = later left.starts_at right.starts_at;
          in_left = ground arith;
          in_right = ground arith;
          member = v;
          takes_part = (p, q);
        }

    complete : Meets left right → overlap left right ≡ true
    complete m = ground (
      arith,
      any_row-shared m.member left.participants right.participants m.takes_part.0 m.takes_part.1,
    )
