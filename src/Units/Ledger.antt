-- ===== src/Units/Ledger.antt =====
-- What the writes of apps/api/src/units keep: prices that share no night, and the bookings.
use sambung.Common.{
  ℕ, ◌≡◌, refl, Bool, true, false, not, Option, none, some, List, [], ◌∷◌, ◌==◌, if◌then◌else◌, any,
  select, map, find, find-map, Bool-cases, Option-cases, inl, inr, arith, option_map, ltb,
}
use sambung.Db.Schema.{Booking, UnitRow, PriceOverride, ChannelConnection, Db}
use sambung.Db.Tx.{
  price_override_range_nonempty, price_override_nightly_range, price_override_pkey,
  price_override_no_overlap, modify,
}
use sambung.Db.Bookings.{update_where, unit_fk, unit_by_id, of_tenant}
use sambung.Db.Keeps.{Keeps, keeps_rules}
use sambung.Db.Overlap.{IsConsistent, Narrows, Narrows-refl, update-IsConsistent, OwnUnits}
use sambung.Units.{
  CreatePriceOverrideRequest, override_check, insert_override, create_price_override, clashes_with,
  remove_price_override, set_archived, is_unit_of, mark_archived, cascade_unit, delete_unit,
  remove_unit, in_nightly_range, UnitStep, override_created, override_removed, archiving,
  unit_removed, of_gone_unit, without_connection,
}
use sambung.Units.Prices.{OverridesApart, select-OverridesApart}

override_check-none :
    (o : PriceOverride) (db : Db)
    → override_check o db ≡ none
    → any (clashes_with o) db.price_overrides ≡ false
unfolding override_check
override_check-none o db e = elim (Bool-cases (not (ltb o.from_date o.to_date))) [
  | inl y ↦ (let f : some price_override_range_nonempty ≡ none = rw y at e in cc)
  | inr a ↦ elim (Bool-cases (not (in_nightly_range o.nightly_price_idr))) [
    | inl y ↦ (let f : some price_override_nightly_range ≡ none = rw (a, y) at e in cc)
    | inr b ↦ elim (Bool-cases (any (λ p. p.id == o.id) db.price_overrides)) [
      | inl y ↦ (let f : some price_override_pkey ≡ none = rw (a, b, y) at e in cc)
      | inr c ↦ elim (Bool-cases (any (clashes_with o) db.price_overrides)) [
        | inl y ↦ (let f : some price_override_no_overlap ≡ none = rw (a, b, c, y) at e in cc)
        | inr d ↦ d
      ]
    ]
  ]
]

-- What the writes of the units do to the tables.
pub record UnitWrites (P : Db → Type 0) : Type 0 where
  pub insert :
      (o : PriceOverride) (db : Db)
      → override_check o db ≡ none
      → P db
      → P (record db { price_overrides = o ∷ db.price_overrides })
  pub drop :
      (q : PriceOverride → Bool) (db : Db)
      → P db
      → P (record db { price_overrides = select q db.price_overrides })
  pub mark :
      (tenant id now : ℕ) (archived : Bool) (db : Db)
      → P db
      → P (record db {
        units = update_where (is_unit_of tenant id) (mark_archived now archived) db.units;
      })
  pub delete :
      (tenant id : ℕ) (db : Db)
      → any (λ b. b.unit_id == id) db.bookings ≡ false
      → P db
      → P (
          cascade_unit id
            (record db { units = select (λ u. not (is_unit_of tenant id u)) db.units }))

module _ {P : Db → Type 0} (w : UnitWrites P) where
  insert_override-Keeps : (o : PriceOverride) → Keeps P (insert_override o)
  unfolding insert_override
  insert_override-Keeps o = record {
    at = λ db h. elim (Option-cases (override_check o db)) [
      | inl n ↦ rw n (w.insert o db n h)
      | inr (c, e) ↦ rw e h
    ];
  }

  create_price_override-Keeps :
      (tenant id unit : ℕ) (req : CreatePriceOverrideRequest)
      → Keeps P (create_price_override tenant id unit req)
  unfolding create_price_override
  create_price_override-Keeps tenant id unit req =
      search (keeps_rules, insert_override-Keeps) depth 12

  drop-Keeps :
      (q : PriceOverride → Bool)
      → Keeps P (modify λ db. record db { price_overrides = select q db.price_overrides })
  drop-Keeps q = record { at = λ db h. w.drop q db h }

  remove_price_override-Keeps : (tenant id : ℕ) → Keeps P (remove_price_override tenant id)
  unfolding remove_price_override
  remove_price_override-Keeps tenant id = search (keeps_rules, drop-Keeps) depth 10

  mark-Keeps :
      (tenant id now : ℕ) (archived : Bool)
      → Keeps P (
          modify λ db. record db {
            units = update_where (is_unit_of tenant id) (mark_archived now archived) db.units;
          })
  mark-Keeps tenant id now archived = record { at = λ db h. w.mark tenant id now archived db h }

  set_archived-Keeps :
      (tenant now id : ℕ) (archived : Bool) → Keeps P (set_archived tenant now id archived)
  unfolding set_archived
  set_archived-Keeps tenant now id archived = search (keeps_rules, mark-Keeps) depth 10

  delete_unit-Keeps : (tenant id : ℕ) → Keeps P (delete_unit tenant id)
  unfolding delete_unit
  delete_unit-Keeps tenant id = record {
    at = λ db h. elim (Bool-cases (any (λ b. b.unit_id == id) db.bookings)) [
      | inl y ↦ rw y h
      | inr n ↦ rw n (w.delete tenant id db n h)
    ];
  }

  remove_unit-Keeps : (tenant id : ℕ) → Keeps P (remove_unit tenant id)
  unfolding remove_unit
  remove_unit-Keeps tenant id = search (keeps_rules, delete_unit-Keeps) depth 12

  pub UnitStep-keeps : {db after : Db} → UnitStep db after → P db → P after
  UnitStep-keeps {db} (override_created tenant id unit req) h =
      (create_price_override-Keeps tenant id unit req).at db h
  UnitStep-keeps {db} (override_removed tenant id) h =
      (remove_price_override-Keeps tenant id).at db h
  UnitStep-keeps {db} (archiving tenant now id archived) h =
      (set_archived-Keeps tenant now id archived).at db h
  UnitStep-keeps {db} (unit_removed tenant id) h = (remove_unit-Keeps tenant id).at db h

pub OverridesApart-UnitWrites : UnitWrites (λ db. OverridesApart db.price_overrides)
unfolding cascade_unit
OverridesApart-UnitWrites = record {
  insert = λ o db e h. (override_check-none o db e, h);
  drop = λ q db h. select-OverridesApart q db.price_overrides h;
  mark = λ tenant id now archived db h. h;
  delete = λ tenant id db e h. select-OverridesApart _ db.price_overrides h;
}

find-select :
    (p q : UnitRow → Bool)
    → ((u : UnitRow) → p u ≡ true → q u ≡ true)
    → (us : List UnitRow) → find p (select q us) ≡ find p us
find-select p q keep [] = refl
find-select p q keep (u ∷ us) = ground (arith, keep u, find-select p q keep us)

other_units :
    (tenant id : ℕ) (units : List UnitRow) (bs : List Booking)
    → any (λ b. b.unit_id == id) bs ≡ false
    → OwnUnits units bs
    → OwnUnits (select (λ u. not (is_unit_of tenant id u)) units) bs
unfolding unit_fk
other_units tenant id units [] e h = tt
other_units tenant id units (b ∷ bs) e h =
    let apart : (b.unit_id == id) ≡ false = ground arith in
    (
      rw
          (find-select (λ u. u.id == b.unit_id) (λ u. not (is_unit_of tenant id u))
            (λ u y. ground arith) units)
          h.0,
      other_units tenant id units bs (ground arith) h.1,
    )

marked_units :
    (f : UnitRow → UnitRow)
    → ((u : UnitRow) → (f u).id ≡ u.id)
    → ((u : UnitRow) → (f u).tenant_id ≡ u.tenant_id)
    → (units : List UnitRow) (bs : List Booking) → OwnUnits units bs
    → OwnUnits (map f units) bs
unfolding unit_fk
marked_units f ids tenants units [] h = tt
marked_units f ids tenants units (b ∷ bs) h = (
  rw (find-map (λ u. u.id == b.unit_id) f (λ u. rw (ids u) refl) units)
      (same_tenant (unit_by_id units b.unit_id) h.0),
  marked_units f ids tenants units bs h.1,
)
  where
    same_tenant :
        (o : Option UnitRow)
        → of_tenant o b.tenant_id ≡ true
        → of_tenant (option_map f o) b.tenant_id ≡ true
    same_tenant none e = e
    same_tenant (some u) e = rw (tenants u) e

pub without_connection-Narrows : (b : Booking) → Narrows b (without_connection b)
without_connection-Narrows b = record {
  id_same = refl;
  unit_same = refl;
  check_in_same = refl;
  check_out_same = refl;
  tenant_same = refl;
  status_narrows = λ e. e;
}

cut_loose-Narrows :
    (unit : ℕ) (cs : List ChannelConnection) (b : Booking)
    → Narrows b (if of_gone_unit unit cs b then without_connection b else b)
cut_loose-Narrows unit cs b = elim (Bool-cases (of_gone_unit unit cs b)) [
  | inr n ↦ rw n (Narrows-refl b)
  | inl y ↦ rw y (without_connection-Narrows b)
]

pub IsConsistent-UnitWrites : UnitWrites IsConsistent
unfolding cascade_unit
IsConsistent-UnitWrites = record {
  insert = λ o db e h. record {
    unique_ids = h.unique_ids;
    no_overlap = h.no_overlap;
    own_units = h.own_units;
  };
  drop = λ q db h. record {
    unique_ids = h.unique_ids;
    no_overlap = h.no_overlap;
    own_units = h.own_units;
  };
  mark = λ tenant id now archived db h. record {
    unique_ids = h.unique_ids;
    no_overlap = h.no_overlap;
    own_units =
        marked_units _ (λ u. ground arith) (λ u. ground arith) db.units db.bookings h.own_units;
  };
  delete = λ tenant id db e h.
      let kept =
        update-IsConsistent
          (λ b. if of_gone_unit id db.connections b then without_connection b else b)
          (cut_loose-Narrows id db.connections)
          (record db { units = select (λ u. not (is_unit_of tenant id u)) db.units })
          (record {
            unique_ids = h.unique_ids;
            no_overlap = h.no_overlap;
            own_units = other_units tenant id db.units db.bookings e h.own_units;
          }) in
      record {
        unique_ids = kept.unique_ids;
        no_overlap = kept.no_overlap;
        own_units = kept.own_units;
      };
}
