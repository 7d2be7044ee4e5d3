-- ===== src/Common/Lists.antt =====
-- Lists measured by native numbers, and predicates on lists by recursion.
use Prim.Native.Nat.{ℕ, suc}
use mathlib.Core.Path.{◌≡◌, refl, ap, sym, ◌∙◌, subst}
use native.Mathlib.Omega.{arith}
use mathlib.Core.Bool.{Bool, true, false, ◌||◌, ◌&&◌}
use mathlib.Core.List.{List, [], ◌∷◌, map}
use mathlib.Core.Logic.{inl, inr}
use mathlib.Core.Option.{Option, none, some, some_inj, map as option_map}
use sambung.Common.Tests.{Bool-cases, leb, if◌then◌else◌}

module _ {ℓ} {A : Type ℓ} where
  abbrev pub length : List A → ℕ
  length [] = 0
  length (x ∷ xs) = suc (length xs)

  -- `SELECT … WHERE p LIMIT 1`, `Array.prototype.find`
  abbrev pub find : (A → Bool) → List A → Option A
  find p [] = none
  find p (x ∷ xs) = if p x then some x else find p xs

  -- `SELECT … WHERE p`, `Array.prototype.filter`
  abbrev pub select : (A → Bool) → List A → List A
  select p [] = []
  select p (x ∷ xs) = let rest = select p xs in if p x then x ∷ rest else rest

  abbrev pub non_empty : List A → Bool
  non_empty [] = false
  non_empty (x ∷ xs) = true

  abbrev pub any : (A → Bool) → List A → Bool
  any p [] = false
  any p (x ∷ xs) = p x || any p xs

module _ {ℓ κ} {A : Type ℓ} (P : A → Type κ) where
  abbrev pub All : List A → Type κ
  All [] = Unit
  All (x ∷ xs) = P x × All xs

-- `ORDER BY key`
module _ {ℓ} {A : Type ℓ} (key : A → ℕ) where
  abbrev pub insert_by : A → List A → List A
  insert_by x [] = x ∷ []
  insert_by x (y ∷ ys) =
      let rest = insert_by x ys in if leb (key x) (key y) then x ∷ y ∷ ys else y ∷ rest

  abbrev pub order_by : List A → List A
  order_by [] = []
  order_by (x ∷ xs) = insert_by x (order_by xs)

module _ {ℓ} {A : Type ℓ} where
  pub any-insert_by :
      (key : A → ℕ) (p : A → Bool) (x : A) (ys : List A)
      → any p (insert_by key x ys) ≡ any p (x ∷ ys)
  any-insert_by key p x [] = refl
  any-insert_by key p x (y ∷ ys) = ground (arith, any-insert_by key p x ys)

  -- Sorting keeps what is there.
  pub any-order_by : (key : A → ℕ) (p : A → Bool) (xs : List A) → any p (order_by key xs) ≡ any p xs
  any-order_by key p [] = refl
  any-order_by key p (x ∷ xs) =
      any-insert_by key p x (order_by key xs) ∙ ap (λ b. p x || b) (any-order_by key p xs)

  pub any-select : (q p : A → Bool) (xs : List A) → any p (select q xs) ≡ any (λ x. q x && p x) xs
  any-select q p [] = refl
  any-select q p (x ∷ xs) = ground (arith, any-select q p xs)

  pub any-map {κ} :
      {B : Type κ} (f : A → B) (p : B → Bool) (xs : List A)
      → any p (map f xs) ≡ any (λ x. p (f x)) xs
  any-map f p [] = refl
  any-map f p (x ∷ xs) = ap (λ b. p (f x) || b) (any-map f p xs)

  pub any-agree : (p q : A → Bool) (xs : List A) → All (λ x. p x ≡ q x) xs → any p xs ≡ any q xs
  any-agree p q [] h = refl
  any-agree p q (x ∷ xs) h = ground (arith, h.0, any-agree p q xs h.1)

  pub non_empty-any : (xs : List A) → non_empty xs ≡ any (λ x. true) xs
  non_empty-any [] = refl
  non_empty-any (x ∷ xs) = refl

  pub find_sound : (p : A → Bool) (xs : List A) {x : A} → find p xs ≡ some x → p x ≡ true
  find_sound p [] e = cc
  find_sound p (w ∷ ws) {x} e = elim (Bool-cases (p w)) [
    | inl y ↦ subst (λ z. p z ≡ true) (some_inj.0 (rw y at e)) y
    | inr n ↦ find_sound p ws (rw n at e)
  ]

  -- An update that keeps the key of a row commutes with the look-up by that key.
  pub find-map :
      (p : A → Bool) (f : A → A)
      → ((x : A) → p (f x) ≡ p x)
      → (xs : List A) → find p (map f xs) ≡ option_map f (find p xs)
  find-map p f same [] = refl
  find-map p f same (x ∷ xs) = elim (Bool-cases (p x)) [
    | inl y ↦ rw (same x, y) refl
    | inr n ↦ rw (same x, n) (find-map p f same xs)
  ]

  pub any-find :
      (p q : A → Bool) (xs : List A) {x : A} → find p xs ≡ some x → q x ≡ true → any q xs ≡ true
  any-find p q [] e h = cc
  any-find p q (w ∷ ws) {x} e h = elim (Bool-cases (p w)) [
    | inl y ↦ rw (subst (λ z. q z ≡ true) (sym (some_inj.0 (rw y at e))) h) refl
    | inr n ↦ rw (any-find p q ws (rw n at e) h) (ground arith)
  ]

  pub find-and :
      (p q : A → Bool) (xs : List A) {x : A}
      → find p xs ≡ some x
      → q x ≡ true
      → find (λ y. p y && q y) xs ≡ some x
  find-and p q [] e h = e
  find-and p q (w ∷ ws) {x} e h = elim (Bool-cases (p w)) [
    | inl y ↦ rw (y, subst (λ z. q z ≡ true) (sym (some_inj.0 (rw y at e))) h) (rw y at e)
    | inr n ↦ rw n (find-and p q ws (rw n at e) h)
  ]

  pub find-none : (p : A → Bool) (xs : List A) → any p xs ≡ false → find p xs ≡ none
  find-none p [] h = refl
  find-none p (w ∷ ws) h = elim (Bool-cases (p w)) [
    | inl y ↦ (let e : true ≡ false = rw y at h in cc)
    | inr n ↦ rw n (find-none p ws (rw n at h))
  ]

  pub select-none : (p : A → Bool) (xs : List A) → any p xs ≡ false → select p xs ≡ []
  select-none p [] h = refl
  select-none p (w ∷ ws) h = ground (arith, select-none p ws)

  -- An update that finds no row.
  pub update-none :
      (p : A → Bool) (f : A → A) (xs : List A)
      → any p xs ≡ false
      → map (λ x. if p x then f x else x) xs ≡ xs
  update-none p f [] h = refl
  update-none p f (w ∷ ws) h = ground (arith, update-none p f ws)

  -- An update that takes every row of `q` out of it.
  pub any-update :
      (p q : A → Bool) (f : A → A)
      → ((x : A) → q (f x) ≡ false)
      → ((x : A) → p x ≡ false → q x ≡ false)
      → (xs : List A) → any q (map (λ x. if p x then f x else x) xs) ≡ false
  any-update p q f out rest [] = refl
  any-update p q f out rest (w ∷ ws) = elim (Bool-cases (p w)) [
    | inl y ↦ rw (y, out w, any-update p q f out rest ws) refl
    | inr n ↦ rw (n, rest w n, any-update p q f out rest ws) refl
  ]

  -- A filter keeps a row out that was not there.
  pub any-select-false :
      (q p : A → Bool) (xs : List A) → any q xs ≡ false → any q (select p xs) ≡ false
  any-select-false q p [] h = refl
  any-select-false q p (x ∷ xs) h = ground (arith, any-select-false q p xs)
