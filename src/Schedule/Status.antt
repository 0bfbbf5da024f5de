-- ===== src/Schedule/Status.antt =====
-- ActiveStatus of internal/schedule/schedule.go: which item is a member's status, and what of it
-- is shown.
use family_dashboard.Common.{
  ◌≤◌, ◌<◌, ◌≡◌, ◌≢◌, ◌↔◌, ◌⊎◌, inl, refl, sym, ◌∙◌, ap, Bool, true, false, none, some, List, [],
  ◌∷◌, arith, Text, ltb, length, AllRows, Among, Among-select_rows, select_rows-Among,
  AllRows-select_rows, AllRows-tabulate, text_eq_iff,
}
use family_dashboard.Time.{Time}
use family_dashboard.Schedule.{
  Item, View, Audience, parent, is_candidate, comes_before, candidates, sort_items, select_status,
  active_status, full_view,
}
use family_dashboard.Schedule.Participants.{contains→Among, Among→contains}
use family_dashboard.Schedule.Ranking.{sort_items-first, sort_items-ne_nil, AllRows-sort_items}
use family_dashboard.Schedule.Privacy.{
  IsAnonymous, IsOpen, status_as-IsAnonymous, status_as-full, status_as-ne_none, status_as-overlap,
}

-- The member takes part in the item, which has a place and runs at the moment.
pub record IsRunning (member : Text) (at : Time) (item : Item) : Type 0 where
  pub placed : item.location_name ≢ []
  pub started : item.starts_at ≤ at
  pub unfinished : at < item.ends_at
  pub takes_part : Among member item.participants

is_candidate→IsRunning :
    (member : Text) (at : Time) (item : Item)
    → is_candidate member at item ≡ true
    → IsRunning member at item
unfolding is_candidate
is_candidate→IsRunning member at item h = record {
  placed = ground (arith, text_eq_iff item.location_name []);
  started = ground arith;
  unfinished = ground arith;
  takes_part = contains→Among member item.participants (ground arith);
}

IsRunning→is_candidate :
    (member : Text) (at : Time) (item : Item)
    → IsRunning member at item
    → is_candidate member at item ≡ true
unfolding is_candidate
IsRunning→is_candidate member at item r =
    ground (
      arith,
      text_eq_iff item.location_name [],
      Among→contains member item.participants r.takes_part,
    )

-- The item whose view is a member's status: it runs, and no running item comes before it, that is
-- starts later, or at the same time and was created later, or both and has a lesser id.
pub record IsCurrent (items : List Item) (member : Text) (at : Time) (item : Item) : Type 0 where
  pub among : Among item items
  pub runs : IsRunning member at item
  pub first : (y : Item) → Among y items → IsRunning member at y → comes_before y item ≡ false

pub record IsStatus (items : List Item) (member : Text) (at : Time) (audience : Audience)
    (view : View) : Type 0 where
  pub item : Item
  pub current : IsCurrent items member at item
  pub marked : view.overlap ≡ ltb 1 (length (candidates items member at))
  pub hides : audience ≢ parent → ¬ IsOpen item.visibility → IsAnonymous view
  pub shows :
      (audience ≡ parent) ⊎ IsOpen item.visibility
      → view ≡ record (full_view item) { overlap = view.overlap }

first-IsCurrent :
    (items : List Item) (member : Text) (at : Time) (s : Item) (rest : List Item)
    → sort_items (candidates items member at) ≡ s ∷ rest
    → IsCurrent items member at s
first-IsCurrent items member at s rest e =
    let found = candidates items member at in
    let m : Among s items × (is_candidate member at s ≡ true) =
      Among-select_rows _ s items (rw e at all).0 in
    record {
      among = m.0;
      runs = is_candidate→IsRunning member at s m.1;
      first = λ y my r.
          AllRows-select_rows (λ z. comes_before z s ≡ false) _ items
            (sort_items-first found s rest e) y my (IsRunning→is_candidate member at y r);
    }
  where
    all :
        AllRows
          (λ y. Among y (candidates items member at))
          (sort_items (candidates items member at))
    all = AllRows-sort_items _ _ (AllRows-tabulate _ _ (λ x m. m))

-- What `ActiveStatus` shows is the first item, in its order, that has a place, is running and is the
-- member's: whole to those who may see the item, without its content to the others, and marked as
-- overlapping when more than one item runs.
pub active_status-IsStatus :
    (items : List Item) (member : Text) (at : Time) (audience : Audience) (view : View)
    → active_status items member at audience ≡ some view
    → IsStatus items member at audience view
unfolding active_status
active_status-IsStatus items member at audience view h =
    go (sort_items (candidates items member at)) refl h
  where
    go :
        (sorted : List Item)
        → sort_items (candidates items member at) ≡ sorted
        → select_status sorted (ltb 1 (length (candidates items member at))) audience ≡ some view
        → IsStatus items member at audience view
    go [] e k = cc
    go (s ∷ rest) e k = record {
      item = s;
      current = first-IsCurrent items member at s rest e;
      marked = status_as-overlap s.visibility s _ audience view k;
      hides = λ a o. status_as-IsAnonymous s.visibility s _ audience view refl a o k;
      shows = λ o.
          status_as-full s.visibility s _ audience view refl o k
          ∙ ap (λ b. record (full_view s) { overlap = b })
              (sym (status_as-overlap s.visibility s _ audience view k));
    }

select_status-none :
    (found : List Item) (more : Bool) (audience : Audience)
    → select_status (sort_items found) more audience ≡ none
    → found ≡ []
unfolding select_status
select_status-none [] more audience h = refl
select_status-none (x ∷ xs) more audience h = go (sort_items (x ∷ xs)) refl h
  where
    go :
        (sorted : List Item)
        → sort_items (x ∷ xs) ≡ sorted
        → select_status sorted more audience ≡ none
        → x ∷ xs ≡ []
    go [] e k = absurd (sort_items-ne_nil x xs e)
    go (s ∷ rest) e k = absurd (status_as-ne_none s.visibility s more audience refl k)

select_status-nil :
    (found : List Item) (more : Bool) (audience : Audience)
    → ((x : Item) → ¬ Among x found)
    → select_status (sort_items found) more audience ≡ none
unfolding select_status sort_items
select_status-nil [] more audience h = refl
select_status-nil (x ∷ xs) more audience h = absurd (h x (inl refl))

-- `ActiveStatus` shows nothing exactly when no item with a place is running in which the member
-- takes part.
pub active_status-none_iff :
    (items : List Item) (member : Text) (at : Time) (audience : Audience)
    → (active_status items member at audience ≡ none)
      ↔ ((item : Item) → Among item items → ¬ IsRunning member at item)
unfolding active_status
active_status-none_iff items member at audience = (
  λ h item m r. rw (select_status-none (candidates items member at) _ audience h) at (
      select_rows-Among (is_candidate member at) item items
        (IsRunning→is_candidate member at item r) m),
  λ h. select_status-nil _ _ audience λ x m.
      let (k, p) = Among-select_rows _ x items m in h x k (is_candidate→IsRunning member at x p),
)
