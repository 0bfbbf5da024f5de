-- ===== src/Common/Rows.antt =====
-- Tables as lists of rows, in the order in which the rows were inserted, and the statements on
-- them: SELECT of the first row, EXISTS, COUNT, UPDATE and DELETE with a condition, JOIN.
use Prim.Native.Nat.{ℕ, ◌+◌, ◌≤◌}
use mathlib.Core.Path.{◌≡◌, refl, ap, fun_ext}
use mathlib.Core.Logic.{◌⊎◌, inl, inr}
use mathlib.Core.Bool.{Bool, true, false, ◌||◌}
use mathlib.Core.Option.{Option, none, some}
use mathlib.Core.List.{List, [], ◌∷◌, ◌++◌}
use native.Mathlib.Omega.{arith}
use family_dashboard.Common.Tests.{if◌then◌else◌, Bool-cases}

-- Rows are plain data.
module _ {A : Type 0} where
  unfoldable pub find_row : (A → Bool) → List A → Option A
  find_row p [] = none
  find_row p (x ∷ xs) = if p x then some x else find_row p xs

  unfoldable pub any_row : (A → Bool) → List A → Bool
  any_row p [] = false
  any_row p (x ∷ xs) = p x || any_row p xs

  unfoldable pub count_rows : (A → Bool) → List A → ℕ
  count_rows p [] = 0
  count_rows p (x ∷ xs) = (if p x then 1 else 0) + count_rows p xs

  unfoldable pub select_rows : (A → Bool) → List A → List A
  select_rows p [] = []
  select_rows p (x ∷ xs) = let rest = select_rows p xs in if p x then x ∷ rest else rest

  unfoldable pub update_rows : (A → Bool) → (A → A) → List A → List A
  update_rows p f [] = []
  update_rows p f (x ∷ xs) = (if p x then f x else x) ∷ update_rows p f xs

  unfoldable pub delete_rows : (A → Bool) → List A → List A
  delete_rows p [] = []
  delete_rows p (x ∷ xs) = let rest = delete_rows p xs in if p x then rest else x ∷ rest

  unfoldable pub insert_row : (A → A → Bool) → A → List A → List A
  insert_row before x [] = x ∷ []
  insert_row before x (y ∷ ys) =
      let rest = insert_row before x ys in if before y x then y ∷ rest else x ∷ y ∷ ys

  -- ORDER BY.
  unfoldable pub sort_rows : (A → A → Bool) → List A → List A
  unfolding insert_row
  sort_rows before [] = []
  sort_rows before (x ∷ xs) = insert_row before x (sort_rows before xs)

  -- Membership and universal statements, with the witness kept.
  abbrev pub Among : A → List A → Type 0
  Among x [] = ⊥
  Among x (y ∷ ys) = (x ≡ y) ⊎ Among x ys

  abbrev pub AllRows {κ} : (A → Type κ) → List A → Type κ
  AllRows P [] = Unit {_}
  AllRows P (x ∷ xs) = P x × AllRows P xs

  pub find_row-Among : (p : A → Bool) (xs : List A) (x : A) → find_row p xs ≡ some x → Among x xs
  unfolding find_row
  find_row-Among p [] x h = cc
  find_row-Among p (y ∷ ys) x h = ground (arith, find_row-Among p ys x)

  pub find_row-holds : (p : A → Bool) (xs : List A) (x : A) → find_row p xs ≡ some x → p x ≡ true
  unfolding find_row
  find_row-holds p [] x h = cc
  find_row-holds p (y ∷ ys) x h = ground (arith, find_row-holds p ys x)

  pub find_row-eq_none :
      (p : A → Bool) (xs : List A) → AllRows (λ x. p x ≡ false) xs → find_row p xs ≡ none
  unfolding find_row
  find_row-eq_none p [] h = refl
  find_row-eq_none p (y ∷ ys) h = ground (arith, find_row-eq_none p ys h.1)

  pub find_row-none :
      (p : A → Bool) (xs : List A) → find_row p xs ≡ none → AllRows (λ x. p x ≡ false) xs
  unfolding find_row
  find_row-none p [] h = tt
  find_row-none p (x ∷ xs) h = ground (arith, find_row-none p xs)

  pub find_row-append :
      (p : A → Bool) (xs ys : List A) → find_row p xs ≡ none → find_row p (xs ++ ys) ≡ find_row p ys
  unfolding find_row
  find_row-append p [] ys h = refl
  find_row-append p (x ∷ xs) ys h = ground (arith, find_row-append p xs ys)

  pub AllRows-append {κ} :
      (P : A → Type κ) (xs ys : List A) → AllRows P xs → AllRows P ys → AllRows P (xs ++ ys)
  AllRows-append P [] ys h k = k
  AllRows-append P (x ∷ xs) ys h k = (h.0, AllRows-append P xs ys h.1 k)

  pub AllRows-Among {κ} : (P : A → Type κ) (xs : List A) (x : A) → AllRows P xs → Among x xs → P x
  AllRows-Among P [] x h m = absurd m
  AllRows-Among P (y ∷ ys) x h (inl e) = rw e h.0
  AllRows-Among P (y ∷ ys) x h (inr m) = AllRows-Among P ys x h.1 m

  pub AllRows-tabulate {κ} :
      (P : A → Type κ) (xs : List A) → ((x : A) → Among x xs → P x) → AllRows P xs
  AllRows-tabulate P [] h = tt
  AllRows-tabulate P (x ∷ xs) h = (h x (inl refl), AllRows-tabulate P xs (λ y m. h y (inr m)))

  pub Among-select_rows :
      (p : A → Bool) (x : A) (xs : List A) → Among x (select_rows p xs) → Among x xs × (p x ≡ true)
  unfolding select_rows
  Among-select_rows p x [] m = absurd m
  Among-select_rows p x (y ∷ ys) m = ground (arith, Among-select_rows p x ys)

  pub select_rows-Among :
      (p : A → Bool) (x : A) (xs : List A) → p x ≡ true → Among x xs → Among x (select_rows p xs)
  unfolding select_rows
  select_rows-Among p x [] h m = absurd m
  select_rows-Among p x (y ∷ ys) h m = ground (arith, select_rows-Among p x ys h)

  pub AllRows-select_rows {κ} :
      (P : A → Type κ) (p : A → Bool) (xs : List A)
      → AllRows P (select_rows p xs)
      → (x : A) → Among x xs
      → p x ≡ true
      → P x
  AllRows-select_rows P p xs a x m h =
      AllRows-Among P (select_rows p xs) x a (select_rows-Among p x xs h m)

  -- What the update makes of every row.
  pub AllRows-update_rows {κ} :
      (P : A → Type κ) (p : A → Bool) (f : A → A) (xs : List A)
      → ((x : A) → P (if p x then f x else x))
      → AllRows P (update_rows p f xs)
  unfolding update_rows
  AllRows-update_rows P p f [] h = tt
  AllRows-update_rows P p f (x ∷ xs) h = (h x, AllRows-update_rows P p f xs h)

  -- What the update keeps.
  pub AllRows-update_rows_keep {κ} :
      (P : A → Type κ) (p : A → Bool) (f : A → A) (xs : List A)
      → ((x : A) → P x → P (if p x then f x else x))
      → AllRows P xs
      → AllRows P (update_rows p f xs)
  unfolding update_rows
  AllRows-update_rows_keep P p f [] h a = tt
  AllRows-update_rows_keep P p f (x ∷ xs) h a = (h x a.0, AllRows-update_rows_keep P p f xs h a.1)

  pub find_row-append_miss :
      (p : A → Bool) (xs : List A) (y : A) → p y ≡ false → find_row p (xs ++ y ∷ []) ≡ find_row p xs
  unfolding find_row
  find_row-append_miss p [] y h = ground arith
  find_row-append_miss p (x ∷ xs) y h = ground (arith, find_row-append_miss p xs y h)

  -- An update of rows that the condition does not choose, neither before nor after.
  pub find_row-update_miss :
      (p q : A → Bool) (f : A → A) (xs : List A)
      → ((x : A) → q x ≡ true → (p x ≡ false) × (p (f x) ≡ false))
      → find_row p (update_rows q f xs) ≡ find_row p xs
  unfolding find_row update_rows
  find_row-update_miss p q f [] h = refl
  find_row-update_miss p q f (x ∷ xs) h = ground (arith, h x, find_row-update_miss p q f xs h)

  -- Rows that an update chooses are counted after it by what it makes of them.
  pub count_rows-update_rows :
      (p q : A → Bool) (f : A → A) (xs : List A)
      → ((x : A) → p x ≡ true → q (f x) ≡ true)
      → count_rows p xs ≤ count_rows q (update_rows p f xs)
  unfolding count_rows update_rows
  count_rows-update_rows p q f [] h = omega arith
  count_rows-update_rows p q f (x ∷ xs) h = ground (arith, h x, count_rows-update_rows p q f xs h)

  -- An update that its own condition does not see.
  pub find_row-update_rows :
      (p : A → Bool) (f : A → A) (xs : List A) (x : A)
      → ((y : A) → p (f y) ≡ p y)
      → find_row p xs ≡ some x
      → find_row p (update_rows p f xs) ≡ some (f x)
  unfolding find_row update_rows
  find_row-update_rows p f [] x same h = cc
  find_row-update_rows p f (y ∷ ys) x same h =
      ground (arith, same y, same x, find_row-update_rows p f ys x same)

  pub any_row-AllRows :
      (p : A → Bool) (xs : List A) → any_row p xs ≡ false → AllRows (λ x. p x ≡ false) xs
  unfolding any_row
  any_row-AllRows p [] h = tt
  any_row-AllRows p (x ∷ xs) h = ground (arith, any_row-AllRows p xs)

  pub AllRows-mono {κ μ} :
      (P : A → Type κ) (Q : A → Type μ) (xs : List A)
      → ((x : A) → P x → Q x)
      → AllRows P xs
      → AllRows Q xs
  AllRows-mono P Q [] h a = tt
  AllRows-mono P Q (x ∷ xs) h a = (h x a.0, AllRows-mono P Q xs h a.1)

  pub count_rows-eq_zero :
      (p : A → Bool) (xs : List A) → AllRows (λ x. p x ≡ false) xs → count_rows p xs ≡ 0
  unfolding count_rows
  count_rows-eq_zero p [] h = refl
  count_rows-eq_zero p (x ∷ xs) h = ground (arith, count_rows-eq_zero p xs h.1)

  pub count_rows-append :
      (p : A → Bool) (xs ys : List A) → count_rows p (xs ++ ys) ≡ count_rows p xs + count_rows p ys
  unfolding count_rows
  count_rows-append p [] ys = omega arith
  count_rows-append p (x ∷ xs) ys = omega (arith, count_rows-append p xs ys)

module _ {A B : Type 0} where
  -- The first row of a JOIN of two tables.
  unfoldable pub find_pair : (A → B → Bool) → List A → List B → Option (A × B)
  find_pair p [] ys = none
  find_pair p (x ∷ xs) ys =
      let rest = find_pair p xs ys in
      elim (find_row (p x) ys) [ some y ↦ some (x, y) | none ↦ rest ]

  pub find_pair-holds :
      (p : A → B → Bool) (xs : List A) (ys : List B) (x : A) (y : B)
      → find_pair p xs ys ≡ some (x, y)
      → p x y ≡ true
  unfolding find_pair
  find_pair-holds p [] ys x y h = cc
  find_pair-holds p (z ∷ zs) ys x y h =
      ground (arith, find_row-holds (p z) ys y, find_pair-holds p zs ys x y)

  pub find_pair-Among :
      (p : A → B → Bool) (xs : List A) (ys : List B) (x : A) (y : B)
      → find_pair p xs ys ≡ some (x, y)
      → Among x xs × Among y ys
  unfolding find_pair
  find_pair-Among p [] ys x y h = cc
  find_pair-Among p (z ∷ zs) ys x y h =
      ground (arith, find_row-Among (p z) ys y, find_pair-Among p zs ys x y)

  pub find_pair-append :
      (p : A → B → Bool) (xs zs : List A) (ys : List B)
      → AllRows (λ x. (y : B) → p x y ≡ false) xs
      → find_pair p (xs ++ zs) ys ≡ find_pair p zs ys
  unfolding find_pair
  find_pair-append p [] zs ys h = refl
  find_pair-append p (x ∷ xs) zs ys h = ground (
    arith,
    find_row-eq_none (p x) ys (AllRows-tabulate _ ys (λ y _. h.0 y)),
    find_pair-append p xs zs ys h.1,
  )

  pub find_pair-eq_none :
      (p : A → B → Bool) (xs : List A) (ys : List B)
      → ((x : A) (y : B) → Among x xs → Among y ys → p x y ≡ false)
      → find_pair p xs ys ≡ none
  unfolding find_pair
  find_pair-eq_none p [] ys h = refl
  find_pair-eq_none p (x ∷ xs) ys h = ground (
    arith,
    find_row-eq_none (p x) ys (AllRows-tabulate _ ys (λ y m. h x y (inl refl) m)),
    find_pair-eq_none p xs ys (λ x' y m k. h x' y (inr m) k),
  )

  pub find_pair-append_some :
      (p : A → B → Bool) (xs zs : List A) (ys : List B) (r : A × B)
      → find_pair p xs ys ≡ some r
      → find_pair p (xs ++ zs) ys ≡ some r
  unfolding find_pair
  find_pair-append_some p [] zs ys r h = cc
  find_pair-append_some p (x ∷ xs) zs ys r h = ground (arith, find_pair-append_some p xs zs ys r)

  -- An update that the condition of the JOIN does not see.
  pub find_pair-update_rows :
      (p : A → B → Bool) (q : A → Bool) (f : A → A) (xs : List A) (ys : List B)
      → ((x : A) (y : B) → p (f x) y ≡ p x y)
      → (x : A) (y : B) → find_pair p xs ys ≡ some (x, y)
      → find_pair p (update_rows q f xs) ys ≡ some (if q x then f x else x, y)
  unfolding find_pair update_rows
  find_pair-update_rows p q f [] ys same x y h = cc
  find_pair-update_rows p q f (z ∷ zs) ys same x y h = elim (Bool-cases (q z)) [
    | inl e ↦ ground (
      arith,
      ap (λ t. find_row t ys) (fun_ext (λ w. same z w)),
      find_pair-update_rows p q f zs ys same x y,
    )
    | inr e ↦ ground (arith, find_pair-update_rows p q f zs ys same x y)
  ]
