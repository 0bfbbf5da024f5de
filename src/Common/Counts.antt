-- ===== src/Common/Counts.antt =====
-- How many rows of a table meet a condition, before and after a statement; a UNIQUE column is a
-- count of at most one for each of its values.
use Prim.Native.Nat.{◌+◌, ◌≤◌}
use mathlib.Core.Path.{◌≡◌, refl}
use mathlib.Core.Logic.{inl, inr}
use mathlib.Core.Bool.{Bool, true, false, not, ◌&&◌, ◌||◌}
use mathlib.Core.Option.{some}
use mathlib.Core.List.{List, [], ◌∷◌, ◌++◌}
use native.Mathlib.Omega.{arith}
use family_dashboard.Common.Tests.{if◌then◌else◌, Bool-cases}
use family_dashboard.Common.Rows.{find_row, any_row, count_rows, update_rows, Among}

-- Rows are plain data.
module _ {A : Type 0} where
  pub count_rows_mono :
      (p q : A → Bool) (xs : List A)
      → ((x : A) → p x ≡ true → q x ≡ true)
      → count_rows p xs ≤ count_rows q xs
  unfolding count_rows
  count_rows_mono p q [] h = omega arith
  count_rows_mono p q (x ∷ xs) h = ground (arith, h x, count_rows_mono p q xs h)

  -- Rows that meet the condition after an update met it before.
  pub count_rows-update_le :
      (p q : A → Bool) (f : A → A) (xs : List A)
      → ((x : A) → q x ≡ true → p (f x) ≡ true → p x ≡ true)
      → count_rows p (update_rows q f xs) ≤ count_rows p xs
  unfolding count_rows update_rows
  count_rows-update_le p q f [] h = omega arith
  count_rows-update_le p q f (x ∷ xs) h = ground (arith, h x, count_rows-update_le p q f xs h)

  -- After an update only rows that it chose meet the condition.
  pub count_rows-update_chosen :
      (p q : A → Bool) (f : A → A) (xs : List A)
      → any_row (λ x. p x && not (q x)) xs ≡ false
      → count_rows p (update_rows q f xs) ≤ count_rows q xs
  unfolding count_rows update_rows any_row
  count_rows-update_chosen p q f [] h = omega arith
  count_rows-update_chosen p q f (x ∷ xs) h = ground (arith, count_rows-update_chosen p q f xs)

  -- An update that takes the condition away from every row that meets it.
  pub count_rows-update_none :
      (p q : A → Bool) (f : A → A) (xs : List A)
      → ((x : A) → p (if q x then f x else x) ≡ false)
      → count_rows p (update_rows q f xs) ≡ 0
  unfolding count_rows update_rows
  count_rows-update_none p q f [] h = refl
  count_rows-update_none p q f (x ∷ xs) h = ground (arith, h x, count_rows-update_none p q f xs h)

  pub count_rows-any_row : (p : A → Bool) (xs : List A) → any_row p xs ≡ false → count_rows p xs ≡ 0
  unfolding count_rows any_row
  count_rows-any_row p [] h = refl
  count_rows-any_row p (x ∷ xs) h = ground (arith, count_rows-any_row p xs)

  pub count_rows-append_one :
      (p : A → Bool) (xs : List A) (y : A)
      → count_rows p (xs ++ y ∷ []) ≡ count_rows p xs + (if p y then 1 else 0)
  unfolding count_rows
  count_rows-append_one p [] y = omega arith
  count_rows-append_one p (x ∷ xs) y = omega (arith, count_rows-append_one p xs y)

  pub count_rows-Among :
      (p : A → Bool) (xs : List A) (x : A) → Among x xs → p x ≡ true → 1 ≤ count_rows p xs
  unfolding count_rows
  count_rows-Among p [] x m h = absurd m
  count_rows-Among p (y ∷ ys) x m h = ground (arith, count_rows-Among p ys x)

  -- The only row of a key.
  pub Among-unique :
      (p : A → Bool) (xs : List A) (x y : A)
      → count_rows p xs ≤ 1
      → Among x xs
      → Among y xs
      → p x ≡ true
      → p y ≡ true
      → x ≡ y
  unfolding count_rows
  Among-unique p [] x y one m n h k = absurd m
  Among-unique p (z ∷ zs) x y one m n h k =
      ground (arith, count_rows-Among p zs x, count_rows-Among p zs y, Among-unique p zs x y)

  -- A row that is inserted where no row shares its key.
  pub count_rows-append_fresh :
      (p q : A → Bool) (xs : List A) (y : A)
      → (p y ≡ true → (x : A) → p x ≡ true → q x ≡ true)
      → any_row q xs ≡ false
      → count_rows p xs ≤ 1
      → count_rows p (xs ++ y ∷ []) ≤ 1
  count_rows-append_fresh p q xs y shared free few = elim (Bool-cases (p y)) [
    | inl e ↦ ground (
      arith,
      count_rows-append_one p xs y,
      count_rows_mono p q xs (shared e),
      count_rows-any_row q xs free,
    )
    | inr e ↦ ground (arith, count_rows-append_one p xs y)
  ]

  pub count_rows-found :
      (p : A → Bool) (xs : List A) → 1 ≤ count_rows p xs → (x : A) × Among x xs × (p x ≡ true)
  unfolding count_rows
  count_rows-found p [] h = absurd (omega arith)
  count_rows-found p (x ∷ xs) h = elim (Bool-cases (p x)) [
    | inl e ↦ (x, inl refl, e)
    | inr e ↦ let (y, among, holds) = count_rows-found p xs (ground arith) in (y, inr among, holds)
  ]

  pub Among-update_rows :
      (p : A → Bool) (f : A → A) (xs : List A) (x : A)
      → Among x xs
      → p x ≡ true
      → Among (f x) (update_rows p f xs)
  unfolding update_rows
  Among-update_rows p f [] x m h = absurd m
  Among-update_rows p f (y ∷ ys) x (inl e) h = inl (ground arith)
  Among-update_rows p f (y ∷ ys) x (inr m) h = inr (Among-update_rows p f ys x m h)

  -- A row that takes the place of those which the update before it has set aside.
  pub count_rows-replace_one :
      (p q : A → Bool) (f : A → A) (xs : List A) (y : A)
      → (p y ≡ true → (x : A) → p (if q x then f x else x) ≡ false)
      → ((x : A) → q x ≡ true → p (f x) ≡ true → p x ≡ true)
      → count_rows p xs ≤ 1
      → count_rows p (update_rows q f xs ++ y ∷ []) ≤ 1
  count_rows-replace_one p q f xs y aside same few = elim (Bool-cases (p y)) [
    | inl e ↦ ground (
      arith,
      count_rows-append_one p (update_rows q f xs) y,
      count_rows-update_none p q f xs (aside e),
    )
    | inr e ↦
        ground (
          arith,
          count_rows-append_one p (update_rows q f xs) y,
          count_rows-update_le p q f xs same,
        )
  ]

  -- The only row of a key is the one that a condition on the key finds.
  pub find_row-only :
      (p k : A → Bool) (xs : List A) (x : A)
      → ((y : A) → p y ≡ true → k y ≡ true)
      → count_rows k xs ≤ 1
      → Among x xs
      → p x ≡ true
      → find_row p xs ≡ some x
  unfolding find_row count_rows
  find_row-only p k [] x h few m e = absurd m
  find_row-only p k (y ∷ ys) x h few (inl s) e = ground arith
  find_row-only p k (y ∷ ys) x h few (inr m) e =
      ground
        (arith, h y, count_rows-Among k ys x m (h x e), find_row-only p k ys x h (ground arith) m e)

  pub any_row-append_one :
      (p : A → Bool) (xs : List A) (y : A) → any_row p (xs ++ y ∷ []) ≡ (any_row p xs || p y)
  unfolding any_row
  any_row-append_one p [] y = ground arith
  any_row-append_one p (x ∷ xs) y = ground (arith, any_row-append_one p xs y)
