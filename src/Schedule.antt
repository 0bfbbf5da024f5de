-- ===== src/Schedule.antt =====
-- internal/schedule/schedule.go: schedule items, their validation and overlap, and what each
-- audience may see of them.
pub mod Participants
pub mod Validation
pub mod Overlap
pub mod Privacy
pub mod Ranking
pub mod Status
pub mod Examples
use family_dashboard.Common.{
  ℕ, Bool, true, false, not, ◌&&◌, ◌||◌, Option, none, some, List, [], ◌∷◌, ltb, leb, ◌==◌,
  if◌then◌else◌, Text, codes, length, text_eq, text_lt, trim_space, any_row, select_rows,
}
use family_dashboard.Time.{Time}

-- The three visibilities; any other text that a request may hold is `other`.
pub data Visibility : Type 0 where
  family tv_summary parents_only : Visibility
  other : Text → Visibility

pub data ScheduleError : Type 0 where
  invalid_title invalid_time_range participants_required invalid_visibility : ScheduleError

pub record Item : Type 0 where
  pub id : Text
  pub title : Text
  pub location_name : Text
  pub notes : Text
  pub visibility : Visibility
  pub starts_at : Time
  pub ends_at : Time
  pub participants : List Text
  pub version : ℕ
  pub created_at : Time
  pub updated_at : Time

pub record View : Type 0 where
  pub id : Text
  pub title : Text
  pub location_name : Text
  pub notes : Text
  pub visibility : Visibility
  pub starts_at : Option Time
  pub ends_at : Option Time
  pub participants : List Text
  pub version : ℕ
  pub summary : Bool
  pub overlap : Bool

pub data Audience : Type 0 where
  parent shared tv : Audience

unfoldable pub contains : Text → List Text → Bool
contains v [] = false
contains v (x ∷ xs) = text_eq x v || contains v xs

unfoldable pub unique_from : List Text → List Text → List Text
unfolding contains
unique_from seen [] = []
unique_from seen (v ∷ vs) =
    let skipped = unique_from seen vs in
    let kept = v ∷ unique_from (v ∷ seen) vs in
    if contains v seen || text_eq v [] then skipped else kept

-- `uniqueStrings`: the first occurrence of each text that is not empty.
unfoldable pub unique_strings : List Text → List Text
unfolding unique_from
unique_strings values = unique_from [] values

unfoldable pub is_empty : List Text → Bool
is_empty [] = true
is_empty (x ∷ xs) = false

unfoldable pub known_visibility : Visibility → Bool
known_visibility (other t) = false
known_visibility family = true
known_visibility tv_summary = true
known_visibility parents_only = true

-- `Validate`; `none` is the nil error.
unfoldable pub validate : Item → Option ScheduleError
unfolding is_empty known_visibility
validate item =
    if text_eq (trim_space item.title) []
    then some invalid_title
    else if not (ltb item.starts_at item.ends_at)
    then some invalid_time_range
    else if is_empty (unique_strings item.participants)
    then some participants_required
    else if known_visibility item.visibility
    then none
    else some invalid_visibility

-- `Overlap`: the half-open time ranges meet, and a participant is in both.
unfoldable pub overlap : Item → Item → Bool
overlap left right =
    if not (ltb left.starts_at right.ends_at) || not (ltb right.starts_at left.ends_at)
    then false
    else any_row (λ member. contains member left.participants) right.participants

abbrev pub private_title : Text
private_title = codes "개인 일정"

abbrev pub empty_view : View
empty_view = record {
  id = [];
  title = [];
  location_name = [];
  notes = [];
  visibility = other [];
  starts_at = none;
  ends_at = none;
  participants = [];
  version = 0;
  summary = false;
  overlap = false;
}

unfoldable pub full_view : Item → View
full_view item = record empty_view {
  id = item.id;
  title = item.title;
  location_name = item.location_name;
  notes = item.notes;
  visibility = item.visibility;
  starts_at = some item.starts_at;
  ends_at = some item.ends_at;
  participants = item.participants;
  version = item.version;
}

unfoldable pub summary_view : Item → View
summary_view item = record empty_view {
  title = private_title;
  starts_at = some item.starts_at;
  ends_at = some item.ends_at;
  summary = true;
}

unfoldable pub project_as : Visibility → Item → Audience → Option View
unfolding full_view summary_view
project_as v item parent = some (full_view item)
project_as parents_only item audience = none
project_as tv_summary item audience = some (summary_view item)
project_as v item audience = some (full_view item)

-- `Project`; `none` is the result whose second part is false.
unfoldable pub project : Item → Audience → Option View
unfolding project_as
project item audience = project_as item.visibility item audience

-- The filter of `ActiveStatus`.
unfoldable pub is_candidate : Text → Time → Item → Bool
is_candidate member at item =
    not (text_eq item.location_name [] || ltb at item.starts_at || not (ltb at item.ends_at))
    && contains member item.participants

-- The order of `ActiveStatus`: latest start, then latest creation, then least id.
unfoldable pub comes_before : Item → Item → Bool
unfolding text_lt
comes_before i j =
    if i.starts_at == j.starts_at
    then if i.created_at == j.created_at then text_lt i.id j.id else ltb j.created_at i.created_at
    else ltb j.starts_at i.starts_at

unfoldable pub insert_item : Item → List Item → List Item
insert_item x [] = x ∷ []
insert_item x (y ∷ ys) =
    let rest = insert_item x ys in if comes_before y x then y ∷ rest else x ∷ y ∷ ys

-- `sort.Slice`, as an insertion sort.
unfoldable pub sort_items : List Item → List Item
unfolding insert_item
sort_items [] = []
sort_items (x ∷ xs) = insert_item x (sort_items xs)

unfoldable pub mark_overlap : Bool → Option View → Option View
mark_overlap more none = none
mark_overlap more (some view) = some (record view { overlap = more })

unfoldable pub hidden_status : Item → Bool → View
hidden_status item more = record empty_view {
  title = private_title;
  ends_at = some item.ends_at;
  summary = true;
  overlap = more;
}

unfoldable pub status_as : Visibility → Item → Bool → Audience → Option View
unfolding mark_overlap hidden_status project
status_as v item more parent = mark_overlap more (project item parent)
status_as parents_only item more audience = some (hidden_status item more)
status_as v item more audience = mark_overlap more (project item audience)

unfoldable pub select_status : List Item → Bool → Audience → Option View
unfolding status_as
select_status [] more audience = none
select_status (selected ∷ rest) more audience = status_as selected.visibility selected more audience

abbrev pub candidates : List Item → Text → Time → List Item
candidates items member at = select_rows (is_candidate member at) items

-- `ActiveStatus`.
unfoldable pub active_status : List Item → Text → Time → Audience → Option View
unfolding select_status
active_status items member at audience =
    let found = candidates items member at in
    select_status (sort_items found) (ltb 1 (length found)) audience
