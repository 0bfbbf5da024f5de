-- ===== src/Schedule/Validation.antt =====
-- Validate of internal/schedule/schedule.go.
use family_dashboard.Common.{
  ◌<◌, ◌≡◌, ◌≢◌, ◌↔◌, ◌⊎◌, refl, true, false, none, List, [], ◌∷◌, arith, Text, text_eq_iff,
  trim_space,
}
use family_dashboard.Schedule.{
  Item, family, tv_summary, parents_only, validate, contains, unique_strings, is_empty,
  known_visibility,
}
use family_dashboard.Schedule.Participants.{unique_strings-contains}

-- What a schedule must satisfy, said without the code's functions but for trimming.
pub record IsAcceptable (item : Item) : Type 0 where
  pub titled : trim_space item.title ≢ []
  pub ordered : item.starts_at < item.ends_at
  pub attended : (v : Text) × (contains v item.participants ≡ true) × (v ≢ [])
  pub visible :
      (item.visibility ≡ family) ⊎ (item.visibility ≡ tv_summary) ⊎ (item.visibility ≡ parents_only)

first_member : (xs : List Text) → is_empty xs ≡ false → (v : Text) × (contains v xs ≡ true)
unfolding is_empty contains
first_member [] h = cc
first_member (x ∷ xs) h = (x, ground (arith, text_eq_iff x x))

is_empty-contains : (v : Text) (xs : List Text) → contains v xs ≡ true → is_empty xs ≡ false
unfolding is_empty contains
is_empty-contains v [] h = cc
is_empty-contains v (x ∷ xs) h = refl

attended_of :
    (xs : List Text)
    → is_empty (unique_strings xs) ≡ false
    → (v : Text) × (contains v xs ≡ true) × (v ≢ [])
attended_of xs h =
    let (v, m) = first_member (unique_strings xs) h in
    (
      v,
      ground (arith, (unique_strings-contains xs).1 v),
      ground (arith, (unique_strings-contains xs).1 v, text_eq_iff v []),
    )

-- `Validate` returns no error exactly for an item with a title that is not blank, an end after its
-- start, a participant that is not the empty text, and a known visibility.
pub validate_iff : (item : Item) → (validate item ≡ none) ↔ IsAcceptable item
unfolding validate known_visibility
validate_iff item = (sound, complete)
  where
    sound : validate item ≡ none → IsAcceptable item
    sound h = record {
      titled = ground (arith, text_eq_iff (trim_space item.title) []);
      ordered = ground arith;
      attended = attended_of item.participants (ground arith);
      visible = ground arith;
    }

    complete : IsAcceptable item → validate item ≡ none
    complete a = ground (
      arith,
      text_eq_iff (trim_space item.title) [],
      text_eq_iff a.attended.0 [],
      (unique_strings-contains item.participants).1 a.attended.0,
      is_empty-contains a.attended.0 (unique_strings item.participants),
    )
