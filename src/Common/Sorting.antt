-- ===== src/Common/Sorting.antt =====
-- The rows of a sorted table, of a mapped one and of a chosen part are those of the table.
use mathlib.Core.Path.{◌≡◌, refl}
use mathlib.Core.Logic.{◌↔◌, ◌⊎◌, inl, inr}
use mathlib.Core.Bool.{Bool, true, false}
use mathlib.Core.List.{List, [], ◌∷◌, ◌++◌, map}
use native.Mathlib.Omega.{arith}
use Prim.Native.Nat.{◌+◌}
use family_dashboard.Common.Tests.{if◌then◌else◌, Bool-cases}
use family_dashboard.Common.Rows.{
  Among, AllRows, any_row, select_rows, sort_rows, insert_row, count_rows,
}

-- Rows are plain data.
module _ {A : Type 0} where
  pub Among-insert_row :
      (before : A → A → Bool) (x z : A) (xs : List A)
      → Among z (insert_row before x xs) ↔ ((z ≡ x) ⊎ Among z xs)
  unfolding insert_row
  Among-insert_row before x z [] = (λ m. m, λ m. m)
  Among-insert_row before x z (y ∷ ys) = elim (Bool-cases (before y x)) [
    | inl e ↦
        let (to, from) = Among-insert_row before x z ys in
        rw e (
          (λ m. elim m [
            | inl s ↦ inr (inl s)
            | inr r ↦ elim (to r) [ inl s ↦ inl s | inr t ↦ inr (inr t) ]
          ]),
          (λ m. elim m [
            | inl s ↦ inr (from (inl s))
            | inr r ↦ elim r [ inl s ↦ inl s | inr t ↦ inr (from (inr t)) ]
          ]),
        )
    | inr e ↦ rw e (λ m. m, λ m. m)
  ]

  pub Among-sort_rows :
      (before : A → A → Bool) (z : A) (xs : List A) → Among z (sort_rows before xs) ↔ Among z xs
  unfolding sort_rows
  Among-sort_rows before z [] = (λ m. m, λ m. m)
  Among-sort_rows before z (x ∷ xs) =
      let (to, from) = Among-sort_rows before z xs in
      let (split, join) = Among-insert_row before x z (sort_rows before xs) in
      (
        (λ m. elim (split m) [ inl s ↦ inl s | inr r ↦ inr (to r) ]),
        (λ m. elim m [ inl s ↦ join (inl s) | inr r ↦ join (inr (from r)) ]),
      )

  count_rows-insert_row :
      (p : A → Bool) (before : A → A → Bool) (x : A) (ys : List A)
      → count_rows p (insert_row before x ys) ≡ (if p x then 1 else 0) + count_rows p ys
  unfolding insert_row count_rows
  count_rows-insert_row p before x [] = refl
  count_rows-insert_row p before x (y ∷ ys) = ground (arith, count_rows-insert_row p before x ys)

  pub count_rows-sort_rows :
      (p : A → Bool) (before : A → A → Bool) (xs : List A)
      → count_rows p (sort_rows before xs) ≡ count_rows p xs
  unfolding sort_rows count_rows
  count_rows-sort_rows p before [] = refl
  count_rows-sort_rows p before (x ∷ xs) = ground (
    arith,
    count_rows-insert_row p before x (sort_rows before xs),
    count_rows-sort_rows p before xs,
  )

  -- The part of a table that a condition chooses, where only what was added meets it.
  pub select_rows-append_new :
      (p : A → Bool) (xs ys : List A)
      → any_row p xs ≡ false
      → AllRows (λ y. p y ≡ true) ys
      → select_rows p (xs ++ ys) ≡ ys
  unfolding select_rows any_row
  select_rows-append_new p [] [] h k = refl
  select_rows-append_new p [] (y ∷ ys) h k =
      ground (arith, k.0, select_rows-append_new p [] ys h k.1)
  select_rows-append_new p (x ∷ xs) ys h k =
      ground (arith, select_rows-append_new p xs ys (ground arith) k)

module _ {A B : Type 0} where
  pub Among-map :
      (f : A → B) (z : B) (xs : List A) → Among z (map f xs) ↔ ((x : A) × Among x xs × (z ≡ f x))
  Among-map f z [] = (λ m. absurd m, λ (x, m, e). absurd m)
  Among-map f z (x ∷ xs) =
      let (to, from) = Among-map f z xs in
      (
        (λ m. elim m [
          | inl e ↦ (x, inl refl, e)
          | inr r ↦ let (y, among, e) = to r in (y, inr among, e)
        ]),
        (λ (y, among, e). elim among [ inl s ↦ inl (ground arith) | inr r ↦ inr (from (y, r, e)) ]),
      )

  pub count_rows-map :
      (f : A → B) (p : B → Bool) (xs : List A)
      → count_rows p (map f xs) ≡ count_rows (λ x. p (f x)) xs
  unfolding count_rows
  count_rows-map f p [] = refl
  count_rows-map f p (x ∷ xs) = ground (arith, count_rows-map f p xs)
