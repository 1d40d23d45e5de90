-- ===== src/Base/Pages/Order.antt =====
-- Sorting by a key, and the order that a cursor walks in.
use Prim.Native.Nat.{ℕ, ◌≤◌, ◌<◌}
use mathlib.Core.Path.{◌≡◌, refl, sym, ap, ◌∙◌}
use mathlib.Core.Logic.{◌≢◌, inl, inr}
use mathlib.Core.Bool.{Bool, true, false}
use mathlib.Core.List.{List, [], ◌∷◌}
use native.Mathlib.Omega.{arith}
use superhero_api.Base.Tests.{
  ltb, ltb→lt, leb, leb→le, if◌then◌else◌, if-then, if-else, ◌==◌, Bool-cases,
}
use superhero_api.Base.Lists.{any, select, update, All, All-select}
use superhero_api.Base.Pages.{insert_by, order_by, above, Ascends}

module _ {ℓ} {R : Type ℓ} (key : R → ℕ) where
  -- No two rows share their key.
  abbrev pub Distinct : List R → Type 0
  Distinct [] = Unit {0}
  Distinct (x ∷ xs) = All (λ y. key y ≢ key x) xs × Distinct xs

  -- Each row is below all that follow it.
  abbrev Rises : List R → Type 0
  Rises [] = Unit {0}
  Rises (x ∷ xs) = All (λ y. key x < key y) xs × Rises xs

module _ {ℓ κ} {R : Type ℓ} (key : R → ℕ) (P : R → Type κ) where
  All-insert_by : (x : R) (xs : List R) → P x → All P xs → All P (insert_by key x xs)
  unfolding insert_by
  All-insert_by x [] h hs = (h, tt)
  All-insert_by x (y ∷ ys) h (k, ks) =
      let rest = All-insert_by x ys h ks in
      elim (leb (key x) (key y))
        as (λ b. All P (if b then x ∷ y ∷ ys else y ∷ insert_by key x ys)) [
          | true ↦ (h, (k, ks))
          | false ↦ (k, rest)
        ]

  -- Sorting keeps what holds of every row.
  pub All-order_by : (xs : List R) → All P xs → All P (order_by key xs)
  unfolding order_by
  All-order_by [] h = tt
  All-order_by (x ∷ xs) (h, hs) = All-insert_by x (order_by key xs) h (All-order_by xs hs)

module _ {ℓ} {R : Type ℓ} (key : R → ℕ) where
  All-above_mono :
      (m n : ℕ) (xs : List R) → m ≤ n → All (λ y. n < key y) xs → All (λ y. m < key y) xs
  All-above_mono m n [] le h = tt
  All-above_mono m n (x ∷ xs) le (h, hs) = (omega arith, All-above_mono m n xs le hs)

  Rises-insert_by :
      (x : R) (xs : List R)
      → All (λ y. key y ≢ key x) xs
      → Rises key xs
      → Rises key (insert_by key x xs)
  unfolding insert_by
  Rises-insert_by x [] h r = (tt, tt)
  Rises-insert_by x (y ∷ ys) (h, hs) (below, r) = elim (Bool-cases (leb (key x) (key y))) [
    | inl le ↦ rw le (
        let lt : key x < key y = omega (arith, leb→le _ _ le, h) in
        ((lt, All-above_mono (key x) (key y) ys (omega arith) below), (below, r)))
    | inr gt ↦ rw gt (
      All-insert_by key (λ z. key y < key z) x ys (ground arith) below,
      Rises-insert_by x ys hs r,
    )
  ]

  Rises-order_by : (xs : List R) → Distinct key xs → Rises key (order_by key xs)
  unfolding order_by
  Rises-order_by [] d = tt
  Rises-order_by (x ∷ xs) (h, d) =
      Rises-insert_by x (order_by key xs) (All-order_by key (λ y. key y ≢ key x) xs h)
        (Rises-order_by xs d)

  Ascends-of_All :
      (low : ℕ) (xs : List R) → All (λ y. low < key y) xs → Rises key xs → Ascends key low xs
  Ascends-of_All low [] h r = tt
  Ascends-of_All low (x ∷ xs) (h, hs) (up, r) = (h, Ascends-of_All (key x) xs up r)

  pub above-All : (c : ℕ) (xs : List R) → All (λ y. c < key y) xs → above key c xs ≡ xs
  above-All c [] h = refl
  above-All c (x ∷ xs) (h, hs) = ground (arith, above-All c xs hs)

  Ascends-of_Rises : (c : ℕ) (xs : List R) → Rises key xs → Ascends key c (above key c xs)
  Ascends-of_Rises c [] r = tt
  Ascends-of_Rises c (x ∷ xs) (h, r) = elim (Bool-cases (ltb c (key x))) [
    | inl lt ↦
        let low : c < key x = ltb→lt _ _ lt in
        rw (lt, above-All c xs (All-above_mono c (key x) xs (omega arith) h))
          (low, Ascends-of_All (key x) xs h r)
    | inr ge ↦ rw ge (Ascends-of_Rises c xs r)
  ]

  -- So the rows above a cursor ascend strictly from it.
  pub order_by-Ascends :
      (c : ℕ) (xs : List R) → Distinct key xs → Ascends key c (above key c (order_by key xs))
  order_by-Ascends c xs d = Ascends-of_Rises c (order_by key xs) (Rises-order_by xs d)

module _ {ℓ} {R : Type ℓ} (key : R → ℕ) (p : R → Bool) where
  All-select_ne :
      (a : ℕ) (xs : List R) → All (λ y. key y ≢ a) xs → All (λ y. key y ≢ a) (select p xs)
  All-select_ne a xs h = All-select (λ y. key y ≢ a) p xs h

  -- A query keeps the keys apart.
  pub Distinct-select : (xs : List R) → Distinct key xs → Distinct key (select p xs)
  Distinct-select [] d = tt
  Distinct-select (x ∷ xs) (h, d) =
      let rest = Distinct-select xs d in
      elim (p x) as (λ b. Distinct key (if b then x ∷ select p xs else select p xs)) [
        | true ↦ (All-select_ne (key x) xs h, rest)
        | false ↦ rest
      ]

module _ {ℓ} {R : Type ℓ} (key : R → ℕ) where
  above-insert_by :
      (c : ℕ) (x : R) (xs : List R)
      → above key c (insert_by key x xs)
        ≡ (if ltb c (key x) then insert_by key x (above key c xs) else above key c xs)
  unfolding insert_by
  above-insert_by c x [] = refl
  above-insert_by c x (y ∷ ys) = ground (arith, above-insert_by c x ys)

  -- Sorting what is above a cursor is taking what is above it in the sorted table.
  pub above-order_by :
      (c : ℕ) (xs : List R) → above key c (order_by key xs) ≡ order_by key (above key c xs)
  unfolding order_by
  above-order_by c [] = refl
  above-order_by c (x ∷ xs) = elim (Bool-cases (ltb c (key x))) [
    | inl up ↦
        above-insert_by c x (order_by key xs)
        ∙ if-then _ _ up
        ∙ ap (insert_by key x) (above-order_by c xs)
        ∙ ap (order_by key) (sym (if-then (x ∷ above key c xs) _ up))
    | inr down ↦
        above-insert_by c x (order_by key xs)
        ∙ if-else _ _ down
        ∙ above-order_by c xs
        ∙ ap (order_by key) (sym (if-else (x ∷ above key c xs) _ down))
  ]

  module _ (p : R → Bool) (f : R → R) (keeps : (x : R) → key (f x) ≡ key x) where
    above-select-update :
        (a c : ℕ) (xs : List R)
        → a ≤ c
        → above key c (select p (update (λ x. key x == a) f xs)) ≡ above key c (select p xs)
    above-select-update a c [] le = refl
    above-select-update a c (x ∷ xs) le = ground (arith, keeps x, above-select-update a c xs le)

    -- A write at or below the cursor is not seen by the rest of the walk.
    pub above-order_by-update :
        (a c : ℕ) (xs : List R)
        → a ≤ c
        → above key c (order_by key (select p (update (λ x. key x == a) f xs)))
          ≡ above key c (order_by key (select p xs))
    above-order_by-update a c xs le =
        above-order_by c (select p (update (λ x. key x == a) f xs))
        ∙ ap (order_by key) (above-select-update a c xs le)
        ∙ sym (above-order_by c (select p xs))

module _ {ℓ} {A : Type ℓ} (key : A → ℕ) (p : A → Bool) where
  any-insert_by : (x : A) (xs : List A) → any p (insert_by key x xs) ≡ any p (x ∷ xs)
  unfolding insert_by
  any-insert_by x [] = refl
  any-insert_by x (y ∷ ys) = ground (arith, any-insert_by x ys)

  pub any-order_by : (xs : List A) → any p (order_by key xs) ≡ any p xs
  unfolding order_by
  any-order_by [] = refl
  any-order_by (x ∷ xs) = ground (arith, any-insert_by x (order_by key xs), any-order_by xs)
