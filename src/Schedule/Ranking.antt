-- ===== src/Schedule/Ranking.antt =====
-- The order in which ActiveStatus of internal/schedule/schedule.go ranks the running items.
use family_dashboard.Common.{
  ◌≡◌, ◌≢◌, inl, inr, true, false, List, [], ◌∷◌, arith, text_lt_asymm, text_lt_irrefl,
  text_lt_trans, text_lt_total, AllRows, Bool-cases,
}
use family_dashboard.Schedule.{Item, comes_before, insert_item, sort_items}

comes_before_asymm : (i j : Item) → comes_before i j ≡ true → comes_before j i ≡ false
unfolding comes_before
comes_before_asymm i j h = ground (arith, text_lt_asymm i.id j.id)

comes_before_irrefl : (i : Item) → comes_before i i ≡ false
unfolding comes_before
comes_before_irrefl i = ground (arith, text_lt_irrefl i.id)

-- Not to come before is transitive: the order is a strict weak order.
pub not_before_trans :
    (x y z : Item) → comes_before y x ≡ false → comes_before z y ≡ false → comes_before z x ≡ false
unfolding comes_before
not_before_trans x y z h k = ground (
  arith,
  text_lt_asymm y.id x.id,
  text_lt_trans z.id x.id y.id,
  text_lt_trans y.id z.id x.id,
  text_lt_total x.id y.id,
  text_lt_total y.id x.id,
  text_lt_total z.id y.id,
)

abbrev HeadLeast : List Item → Type 0
HeadLeast [] = Unit
HeadLeast (x ∷ xs) = AllRows (λ y. comes_before y x ≡ false) xs

AllRows-trans :
    (x y : Item) (ys : List Item)
    → comes_before y x ≡ false
    → AllRows (λ z. comes_before z y ≡ false) ys
    → AllRows (λ z. comes_before z x ≡ false) ys
AllRows-trans x y [] e h = tt
AllRows-trans x y (z ∷ zs) e h = (not_before_trans x y z e h.0, AllRows-trans x y zs e h.1)

AllRows-insert_item :
    (P : Item → Type 0) (x : Item) (ys : List Item)
    → P x
    → AllRows P ys
    → AllRows P (insert_item x ys)
unfolding insert_item
AllRows-insert_item P x [] h a = (h, tt)
AllRows-insert_item P x (y ∷ ys) h a = ground (arith, AllRows-insert_item P x ys h a.1)

insert_item-AllRows :
    (P : Item → Type 0) (x : Item) (ys : List Item)
    → AllRows P (insert_item x ys)
    → P x × AllRows P ys
unfolding insert_item
insert_item-AllRows P x [] a = a
insert_item-AllRows P x (y ∷ ys) a = ground (arith, insert_item-AllRows P x ys)

pub sort_items-AllRows :
    (P : Item → Type 0) (xs : List Item) → AllRows P (sort_items xs) → AllRows P xs
unfolding sort_items
sort_items-AllRows P [] a = tt
sort_items-AllRows P (x ∷ xs) a =
    let (h, t) = insert_item-AllRows P x (sort_items xs) a in (h, sort_items-AllRows P xs t)

pub AllRows-sort_items :
    (P : Item → Type 0) (xs : List Item) → AllRows P xs → AllRows P (sort_items xs)
unfolding sort_items
AllRows-sort_items P [] a = tt
AllRows-sort_items P (x ∷ xs) a =
    AllRows-insert_item P x (sort_items xs) a.0 (AllRows-sort_items P xs a.1)

HeadLeast-insert_item : (x : Item) (ys : List Item) → HeadLeast ys → HeadLeast (insert_item x ys)
unfolding insert_item
HeadLeast-insert_item x [] h = tt
HeadLeast-insert_item x (y ∷ ys) h = elim (Bool-cases (comes_before y x)) [
  | inl e ↦
      rw e (AllRows-insert_item (λ z. comes_before z y ≡ false) x ys (comes_before_asymm y x e) h)
  | inr e ↦ rw e (e, AllRows-trans x y ys e h)
]

HeadLeast-sort_items : (xs : List Item) → HeadLeast (sort_items xs)
unfolding sort_items
HeadLeast-sort_items [] = tt
HeadLeast-sort_items (x ∷ xs) = HeadLeast-insert_item x (sort_items xs) (HeadLeast-sort_items xs)

-- The first of the sorted items: nothing comes before it.
pub sort_items-first :
    (xs : List Item) (s : Item) (rest : List Item)
    → sort_items xs ≡ s ∷ rest
    → AllRows (λ y. comes_before y s ≡ false) xs
sort_items-first xs s rest e = sort_items-AllRows _ xs (rw e (comes_before_irrefl s, least))
  where
    least : AllRows (λ y. comes_before y s ≡ false) rest
    least = rw e at (HeadLeast-sort_items xs)

pub sort_items-ne_nil : (x : Item) (xs : List Item) → sort_items (x ∷ xs) ≢ []
unfolding sort_items insert_item
sort_items-ne_nil x xs e = go (sort_items xs) e
  where
    go : (ys : List Item) → insert_item x ys ≢ []
    go [] e = cc
    go (y ∷ ys) e = ground arith
