-- ===== src/Schedule/Privacy.antt =====
-- What Project and ActiveStatus of internal/schedule/schedule.go disclose.
use family_dashboard.Common.{◌≡◌, ◌≢◌, ap, ◌∙◌, ◌⊎◌, refl, Bool, true, none, some, [], arith}
use family_dashboard.Schedule.{
  Item, View, Visibility, family, tv_summary, parents_only, other, Audience, parent, project,
  project_as, status_as, private_title, full_view,
}

-- A view that says nothing of an item but its title's place holder and its times.
pub record IsAnonymous (v : View) : Type 0 where
  pub id : v.id ≡ []
  pub title : v.title ≡ private_title
  pub location_name : v.location_name ≡ []
  pub notes : v.notes ≡ []
  pub participants : v.participants ≡ []
  pub version : v.version ≡ 0
  pub summary : v.summary ≡ true

-- The items of which the shared devices may see the content.
abbrev pub IsOpen : Visibility → Type 0
IsOpen tv_summary = ⊥
IsOpen parents_only = ⊥
IsOpen v = Unit

project_as_same_times :
    (v : Visibility) (i j : Item) (audience : Audience)
    → audience ≢ parent
    → ¬ IsOpen v
    → i.starts_at ≡ j.starts_at
    → i.ends_at ≡ j.ends_at
    → project_as v i audience ≡ project_as v j audience
unfolding project_as
project_as_same_times v i j parent a o s e = absurd (a refl)
project_as_same_times tv_summary i j _ a o s e = ground arith
project_as_same_times parents_only i j _ a o s e = ground arith
project_as_same_times _ i j _ a o s e = absurd (o tt)

-- To a device that is not a parent's, two items of one private visibility and with the same times
-- look the same: no other field has an influence on the projection.
pub project_noninterference :
    (i j : Item) (audience : Audience)
    → audience ≢ parent
    → ¬ IsOpen i.visibility
    → i.visibility ≡ j.visibility
    → i.starts_at ≡ j.starts_at
    → i.ends_at ≡ j.ends_at
    → project i audience ≡ project j audience
unfolding project
project_noninterference i j audience a o v s e =
    project_as_same_times i.visibility i j audience a o s e ∙ ap (λ w. project_as w j audience) v

pub status_as-IsAnonymous :
    (v : Visibility) (item : Item) (more : Bool) (audience : Audience) (view : View)
    → item.visibility ≡ v
    → audience ≢ parent
    → ¬ IsOpen v
    → status_as v item more audience ≡ some view
    → IsAnonymous view
unfolding status_as
status_as-IsAnonymous v item more parent view h a o e = absurd (a refl)
status_as-IsAnonymous tv_summary item more _ view h a o e = ground arith
status_as-IsAnonymous parents_only item more _ view h a o e = ground arith
status_as-IsAnonymous _ item more _ view h a o e = absurd (o tt)

-- Where the audience may see the item, the status is the whole item.
pub status_as-full :
    (v : Visibility) (item : Item) (more : Bool) (audience : Audience) (view : View)
    → item.visibility ≡ v
    → (audience ≡ parent) ⊎ IsOpen v
    → status_as v item more audience ≡ some view
    → view ≡ record (full_view item) { overlap = more }
unfolding status_as
status_as-full v item more parent view h o e = ground arith
status_as-full tv_summary item more _ view h o e = ground arith
status_as-full parents_only item more _ view h o e = ground arith
status_as-full family item more _ view h o e = ground arith
status_as-full (other t) item more _ view h o e = ground arith

pub status_as-ne_none :
    (v : Visibility) (item : Item) (more : Bool) (audience : Audience)
    → item.visibility ≡ v
    → status_as v item more audience ≢ none
unfolding status_as
status_as-ne_none v item more parent h e = ground arith
status_as-ne_none tv_summary item more _ h e = ground arith
status_as-ne_none parents_only item more _ h e = ground arith
status_as-ne_none family item more _ h e = ground arith
status_as-ne_none (other t) item more _ h e = ground arith

pub status_as-overlap :
    (v : Visibility) (item : Item) (more : Bool) (audience : Audience) (view : View)
    → status_as v item more audience ≡ some view
    → view.overlap ≡ more
unfolding status_as
status_as-overlap parents_only item more parent view e = ground arith
status_as-overlap parents_only item more _ view e = ground arith
status_as-overlap v item more parent view e = ground arith
status_as-overlap v item more _ view e = ground arith
