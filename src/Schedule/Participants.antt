-- ===== src/Schedule/Participants.antt =====
-- uniqueStrings of internal/schedule/schedule.go: which texts it keeps.
use family_dashboard.Common.{
  ◌≡◌, refl, true, false, ◌&&◌, not, List, [], ◌∷◌, arith, Text, text_eq, text_eq_iff, Among,
  count_rows, if◌then◌else◌,
}
use family_dashboard.Schedule.{contains, unique_from, unique_strings}

pub contains→Among : (v : Text) (xs : List Text) → contains v xs ≡ true → Among v xs
unfolding contains
contains→Among v [] h = cc
contains→Among v (x ∷ xs) h = ground (arith, text_eq_iff x v, contains→Among v xs)

pub Among→contains : (v : Text) (xs : List Text) → Among v xs → contains v xs ≡ true
unfolding contains
Among→contains v [] h = absurd h
Among→contains v (x ∷ xs) h = ground (arith, text_eq_iff x v, Among→contains v xs)

-- No text stands twice.
abbrev pub AllDistinct : List Text → Type 0
AllDistinct [] = Unit
AllDistinct (x ∷ xs) = (contains x xs ≡ false) × AllDistinct xs

contains-unique_from :
    (v : Text) (seen xs : List Text)
    → contains v (unique_from seen xs)
      ≡ (contains v xs && not (text_eq v []) && not (contains v seen))
unfolding unique_from contains
contains-unique_from v seen [] = refl
contains-unique_from v seen (x ∷ xs) =
    ground
      (arith, text_eq_iff x v, contains-unique_from v seen xs, contains-unique_from v (x ∷ seen) xs)

AllDistinct-unique_from : (seen xs : List Text) → AllDistinct (unique_from seen xs)
unfolding unique_from contains
AllDistinct-unique_from seen [] = tt
AllDistinct-unique_from seen (x ∷ xs) = ground (
  arith,
  text_eq_iff x x,
  contains-unique_from x (x ∷ seen) xs,
  AllDistinct-unique_from seen xs,
  AllDistinct-unique_from (x ∷ seen) xs,
)

-- `uniqueStrings` keeps exactly the texts that are not empty, each once.
pub unique_strings-contains :
    (values : List Text)
    → AllDistinct (unique_strings values)
      × ((v : Text)
          → contains v (unique_strings values) ≡ (contains v values && not (text_eq v [])))
unfolding unique_strings contains
unique_strings-contains values =
    (AllDistinct-unique_from [] values, λ v. ground (arith, contains-unique_from v [] values))

-- In a list without repetition a text stands once or not at all.
pub count_rows-AllDistinct :
    (m : Text) (xs : List Text)
    → AllDistinct xs
    → count_rows (λ v. text_eq v m) xs ≡ (if contains m xs then 1 else 0)
unfolding contains count_rows
count_rows-AllDistinct m [] d = refl
count_rows-AllDistinct m (x ∷ xs) d =
    ground (arith, text_eq_iff x m, count_rows-AllDistinct m xs d.1, d.0)
