-- ===== src/Calendar/Rows.antt =====
-- Which units have a row, and which bookings stand in it.
use sambung.Common.{
  ℕ, ◌≡◌, refl, sym, ap, ◌∙◌, String, Bool, false, not, ◌&&◌, ◌||◌, Option, List, [], ◌∷◌, ◌++◌,
  ◌==◌, ==_iff, any, any-select, select, non_empty, Bool-cases, inl, inr, arith, if◌then◌else◌,
}
use mathlib.Core.List.{append-nil, append_assoc}
use sambung.Calendar.{
  CalendarProperty, CalendarUnit, CalendarBooking, CalendarRow, push_row, group_rows, rows_for,
  insert_sorted, sort, is_visible, calendar_row, calendar_rows, calendar_groups, build_calendar,
}

module _ {A : Type 0} (key : A → ℕ) where
  rows_for-push_row :
      (id : ℕ) (a : A) (m : List (ℕ × List A))
      → rows_for id (push_row key a m)
        ≡ (if key a == id then rows_for id m ++ a ∷ [] else rows_for id m)
  unfolding rows_for push_row
  rows_for-push_row id a [] = refl
  rows_for-push_row id a ((k, list) ∷ m) = elim (Bool-cases (k == key a)) [
    | inl y ↦
        let same : (k == id) ≡ (key a == id) = ap (λ j. j == id) ((==_iff k (key a)).0 y) in
        rw (y, same) (elim (Bool-cases (key a == id)) [ inl e ↦ rw e refl | inr n ↦ rw n refl ])
    | inr n ↦
        rw (n, rows_for-push_row id a m)
          (elim (Bool-cases (k == id)) [
            | inr f ↦ rw f refl
            | inl e ↦ let other : (key a == id) ≡ false = ground arith in rw (e, other) refl
          ])
  ]

  rows_for-group_rows :
      (id : ℕ) (m : List (ℕ × List A)) (list : List A)
      → rows_for id (group_rows key m list) ≡ rows_for id m ++ select (λ a. key a == id) list
  unfolding group_rows
  rows_for-group_rows id m [] = sym (append-nil (rows_for id m))
  rows_for-group_rows id m (a ∷ list) =
      rows_for-group_rows id (push_row key a m) list
      ∙ (rw (rows_for-push_row id a m) (elim (Bool-cases (key a == id)) [
        | inl y ↦ rw y (append_assoc (rows_for id m) (a ∷ []) (select (λ b. key b == id) list))
        | inr n ↦ rw n refl
      ]))

module _ {A : Type 0} (before : A → A → Bool) (q : A → Bool) where
  any-insert_sorted :
      (a : A) (list : List A) → any q (insert_sorted before a list) ≡ any q (a ∷ list)
  unfolding insert_sorted
  any-insert_sorted a [] = refl
  any-insert_sorted a (b ∷ list) = ground (arith, any-insert_sorted a list)

  any-sort : (list : List A) → any q (sort before list) ≡ any q list
  unfolding sort
  any-sort [] = refl
  any-sort (a ∷ list) = any-insert_sorted a (sort before list) ∙ ap (λ b. q a || b) (any-sort list)

any-calendar_rows :
    (q : CalendarRow → Bool) (by_unit : List (ℕ × List CalendarBooking)) (units : List CalendarUnit)
    → any q (calendar_rows by_unit units)
      ≡ any
          (λ u.
            not (u.archived && not (non_empty (rows_for u.id by_unit)))
            && q (calendar_row u (rows_for u.id by_unit)))
          units
unfolding calendar_rows
any-calendar_rows q by_unit [] = refl
any-calendar_rows q by_unit (u ∷ units) = ground (arith, any-calendar_rows q by_unit units)

any-empty :
    {A : Type 0} (q : A → Bool) (list : List A) → non_empty list ≡ false → any q list ≡ false
any-empty q [] h = refl
any-empty q (a ∷ list) h = cc

any-calendar_groups :
    (name_before : String → String → Bool) (p : CalendarProperty → Bool) (q : CalendarRow → Bool)
    (by_unit : List (ℕ × List CalendarBooking)) (by_property : List (ℕ × List CalendarUnit))
    (properties : List CalendarProperty)
    → any
        (λ g. p g.property && any q g.rows)
        (calendar_groups name_before by_unit by_property properties)
      ≡ any
          (λ r.
            p r
            && any q (
                calendar_rows by_unit
                  (sort (λ a b. name_before a.name b.name) (rows_for r.id by_property))))
          properties
unfolding calendar_groups
any-calendar_groups name_before p q by_unit by_property [] = refl
any-calendar_groups name_before p q by_unit by_property (r ∷ properties) =
    let rows =
      calendar_rows by_unit (sort (λ a b. name_before a.name b.name) (rows_for r.id by_property)) in
    elim (Bool-cases (non_empty rows)) [
      | inl y ↦ rw (y, any-calendar_groups name_before p q by_unit by_property properties) refl
      | inr n ↦
          rw
            (
              n,
              any-empty q rows n,
              any-calendar_groups name_before p q by_unit by_property properties,
            )
            (ground arith)
    ]

non_empty-any-select :
    (u : CalendarUnit) (bookings : List CalendarBooking)
    → non_empty (select (λ b. b.unit_id == u.id) bookings) ≡ any (λ b. b.unit_id == u.id) bookings
non_empty-any-select u [] = refl
non_empty-any-select u (b ∷ bookings) = ground (arith, non_empty-any-select u bookings)

-- A unit is drawn if it is active, or if it has a booking.
abbrev pub is_drawn : List CalendarBooking → CalendarUnit → Bool
is_drawn bookings u = not (u.archived && not (any (λ b. b.unit_id == u.id) bookings))

module _ (q : CalendarRow → Bool) (bookings : List CalendarBooking) where
  drawn : CalendarUnit → Bool
  drawn u = is_drawn bookings u && q (calendar_row u (select (λ b. b.unit_id == u.id) bookings))

  by_unit : List (ℕ × List CalendarBooking)
  by_unit = group_rows (λ b. b.unit_id) [] bookings

  drawn-eq :
      (u : CalendarUnit)
      → (not (u.archived && not (non_empty (rows_for u.id by_unit)))
          && q (calendar_row u (rows_for u.id by_unit)))
        ≡ drawn u
  unfolding drawn by_unit rows_for
  drawn-eq u =
      rw (rows_for-group_rows (λ b. b.unit_id) u.id [] bookings, non_empty-any-select u bookings)
        refl

  group-any :
      (before : CalendarUnit → CalendarUnit → Bool) (property : ℕ) (units : List CalendarUnit)
      → any q (
          calendar_rows by_unit
            (sort before (rows_for property (group_rows (λ u. u.property_id) [] units))))
        ≡ any (λ u. u.property_id == property && drawn u) units
  unfolding rows_for
  group-any before property units =
      any-calendar_rows q by_unit _
      ∙ ap (λ f. any f (sort before (rows_for property (group_rows (λ u. u.property_id) [] units))))
          (λ i u. drawn-eq u i)
      ∙ any-sort before drawn _
      ∙ ap (λ list. any drawn list) (rows_for-group_rows (λ u. u.property_id) property [] units)
      ∙ any-select (λ u. u.property_id == property) drawn units

-- For any test of properties and any test of rows, the calendar has a group with a row that pass
-- exactly if there is a visible property that passes and a unit of it that passes with its own
-- bookings in their order, where the unit is active or has a booking; whatever the comparison of
-- names.
pub build_calendar-any :
    (name_before : String → String → Bool) (p : CalendarProperty → Bool) (q : CalendarRow → Bool)
    (properties : List CalendarProperty) (units : List CalendarUnit)
    (bookings : List CalendarBooking) (property_id : Option ℕ)
    → any
        (λ g. p g.property && any q g.rows)
        (build_calendar name_before properties units bookings property_id)
      ≡ any
          (λ r.
            is_visible property_id r
            && (p r
                && any
                    (λ u.
                      u.property_id == r.id
                      && (is_drawn bookings u
                          && q (calendar_row u (select (λ b. b.unit_id == u.id) bookings))))
                    units))
          properties
unfolding build_calendar drawn by_unit
build_calendar-any name_before p q properties units bookings property_id =
    any-calendar_groups name_before p q _ _ _
    ∙ any-sort _ _ (select (is_visible property_id) properties)
    ∙ any-select (is_visible property_id) _ properties
    ∙ ap (λ f. any f properties)
        (λ i r.
          is_visible property_id r
          && (p r && group-any q bookings (λ a b. name_before a.name b.name) r.id units i))
