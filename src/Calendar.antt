-- ===== src/Calendar.antt =====
-- The owner's calendar: apps/web/src/features/calendar/calendar-model.ts. A date is its day number, and
-- the comparison of names by the platform's locale is a parameter.
pub mod Bars
pub mod Rows
use sambung.Common.{
  ℕ, String, Bool, true, not, ◌&&◌, Option, none, some, List, [], ◌∷◌, ◌++◌, ◌==◌, select,
  non_empty, if◌then◌else◌,
}
use sambung.Common.Int.{ℤ, pos, ltb_ℤ}
use sambung.Stay.{count_nights}

pub record Window : Type 0 where
  pub from : ℕ
  pub to : ℕ

pub record BarSpan : Type 0 where
  pub start : ℤ
  pub end : ℤ
  pub continues_left : Bool
  pub continues_right : Bool

-- `Math.min`, `Math.max`
abbrev pub min_ℤ : ℤ → ℤ → ℤ
min_ℤ a b = if ltb_ℤ b a then b else a

abbrev pub max_ℤ : ℤ → ℤ → ℤ
max_ℤ a b = if ltb_ℤ a b then b else a

unfoldable pub clip_column : ℤ → ℤ → ℤ
clip_column day_count raw = max_ℤ (pos 0) (min_ℤ raw day_count)

unfoldable pub bar_span : Window → ℕ → ℕ → Option BarSpan
unfolding clip_column
bar_span window check_in check_out =
    let day_count = count_nights window.from window.to in
    let raw_start = count_nights window.from check_in in
    let raw_end = count_nights window.from check_out in
    let start = clip_column day_count raw_start in
    let end = clip_column day_count raw_end in
    if not (ltb_ℤ start end)
    then none
    else some (record {
      start = start;
      end = end;
      continues_left = ltb_ℤ raw_start (pos 0);
      continues_right = ltb_ℤ day_count raw_end;
    })

pub record CalendarProperty : Type 0 where
  pub id : ℕ
  pub name : String

pub record CalendarUnit : Type 0 where
  pub id : ℕ
  pub property_id : ℕ
  pub name : String
  pub archived : Bool

pub record CalendarBooking : Type 0 where
  pub id : ℕ
  pub unit_id : ℕ

pub record CalendarRow : Type 0 where
  pub unit : CalendarUnit
  pub archived : Bool
  pub bookings : List CalendarBooking

pub record CalendarGroup : Type 0 where
  pub property : CalendarProperty
  pub rows : List CalendarRow

-- A `Map` from an id to the as of its rows: `get` and `push`, or `set` of a first one.
module _ {A : Type 0} (key : A → ℕ) where
  unfoldable pub push_row : A → List (ℕ × List A) → List (ℕ × List A)
  push_row a [] = (key a, a ∷ []) ∷ []
  push_row a ((k, list) ∷ m) =
      let rest = push_row a m in if k == key a then (k, list ++ a ∷ []) ∷ m else (k, list) ∷ rest

  unfoldable pub group_rows : List (ℕ × List A) → List A → List (ℕ × List A)
  group_rows m [] = m
  group_rows m (a ∷ list) = group_rows (push_row a m) list

unfoldable pub rows_for : {A : Type 0} → ℕ → List (ℕ × List A) → List A
rows_for id [] = []
rows_for id ((k, list) ∷ m) = let rest = rows_for id m in if k == id then list else rest

-- `sort`, which is stable
module _ {A : Type 0} (before : A → A → Bool) where
  unfoldable pub insert_sorted : A → List A → List A
  insert_sorted a [] = a ∷ []
  insert_sorted a (b ∷ bs) =
      let rest = insert_sorted a bs in if before a b then a ∷ b ∷ bs else b ∷ rest

  unfoldable pub sort : List A → List A
  unfolding insert_sorted
  sort [] = []
  sort (a ∷ list) = insert_sorted a (sort list)

abbrev pub is_visible : Option ℕ → CalendarProperty → Bool
is_visible none p = true
is_visible (some id) p = p.id == id

abbrev pub calendar_row : CalendarUnit → List CalendarBooking → CalendarRow
calendar_row u bookings = record { unit = u; archived = u.archived; bookings = bookings }

-- An archived unit without bookings has no row.
unfoldable pub calendar_rows :
    List (ℕ × List CalendarBooking) → List CalendarUnit → List CalendarRow
unfolding rows_for
calendar_rows by_unit [] = []
calendar_rows by_unit (u ∷ us) =
    let rest = calendar_rows by_unit us in
    let bookings = rows_for u.id by_unit in
    if u.archived && not (non_empty bookings) then rest else calendar_row u bookings ∷ rest

module _ (name_before : String → String → Bool) where
  unfoldable pub calendar_groups :
      List (ℕ × List CalendarBooking)
      → List (ℕ × List CalendarUnit)
      → List CalendarProperty
      → List CalendarGroup
  unfolding calendar_rows rows_for sort
  calendar_groups by_unit by_property [] = []
  calendar_groups by_unit by_property (p ∷ ps) =
      let rest = calendar_groups by_unit by_property ps in
      let rows =
        calendar_rows by_unit
          (sort (λ a b. name_before a.name b.name) (rows_for p.id by_property)) in
      if non_empty rows then record { property = p; rows = rows } ∷ rest else rest

  unfoldable pub build_calendar :
      List CalendarProperty
      → List CalendarUnit
      → List CalendarBooking
      → Option ℕ
      → List CalendarGroup
  unfolding calendar_groups group_rows sort
  build_calendar properties units bookings property_id =
      calendar_groups (group_rows (λ b. b.unit_id) [] bookings)
        (group_rows (λ u. u.property_id) [] units)
        (sort (λ a b. name_before a.name b.name) (select (is_visible property_id) properties))
