-- ===== src/Base/Todo.antt =====
-- For loops over the rows that a query found first: what is still to do, and the rows to come.
use Prim.Native.Nat.{ℕ}
use mathlib.Core.Path.{◌≡◌, sym, subst, ◌∙◌}
use mathlib.Core.Logic.{◌≢◌, inl, inr}
use mathlib.Core.Bool.{Bool, true, false, not, ◌||◌}
use mathlib.Core.List.{List, [], ◌∷◌}
use mathlib.Core.Option.{none, some}
use native.Mathlib.Omega.{arith}
use superhero_api.Base.Tests.{◌==◌, ==_iff, if-then, if-else, Bool-cases}
use superhero_api.Base.Lists.{any, find, select, All}
use superhero_api.Base.Pages.{order_by}
use superhero_api.Base.Pages.Order.{Distinct, any-order_by}

module _ {ℓ} {A : Type ℓ} (id : A → ℕ) (q : A → Bool) where
  -- Every row that `q` holds of has its id in the list.
  abbrev pub Covers : List A → List A → Type 0
  Covers todo = All (λ m. (not (q m) || any (λ r. id r == id m) todo) ≡ true)

  Covers-∷ : (r : A) (todo rows : List A) → Covers todo rows → Covers (r ∷ todo) rows
  Covers-∷ r todo [] h = tt
  Covers-∷ r todo (x ∷ xs) (h, hs) = (ground (arith, h), Covers-∷ r todo xs hs)

  pub Covers-select : (rows : List A) → Covers (select q rows) rows
  Covers-select [] = tt
  Covers-select (x ∷ xs) = elim (Bool-cases (q x)) [
    | inl hit ↦
        subst (λ todo. Covers todo (x ∷ xs)) (sym (if-then _ _ hit))
          (ground (arith, hit), Covers-∷ x (select q xs) xs (Covers-select xs))
    | inr miss ↦
        subst (λ todo. Covers todo (x ∷ xs)) (sym (if-else _ _ miss))
          (ground (arith, miss), Covers-select xs)
  ]

  -- Nothing is to do when nothing is to come.
  pub Covers-none : (rows : List A) → Covers [] rows → All (λ m. q m ≡ false) rows
  Covers-none [] h = tt
  Covers-none (x ∷ xs) (h, hs) = (ground (arith, h), Covers-none xs hs)

module _ {ℓ} {A : Type ℓ} (id : A → ℕ) (q : A → Bool) where
  -- The order of the list does not matter.
  pub Covers-order_by :
      (todo rows : List A) → Covers id q todo rows → Covers id q (order_by id todo) rows
  Covers-order_by todo [] h = tt
  Covers-order_by todo (x ∷ xs) (h, hs) =
      (ground (arith, h, any-order_by id (λ r. id r == id x) todo), Covers-order_by todo xs hs)

module _ {ℓ} {A : Type ℓ} (id : A → ℕ) (b : A → Bool) where
  -- What `b` says of every row with the id.
  abbrev pub HoldsOf : ℕ → List A → Type 0
  HoldsOf a = All (λ x. (not (id x == a) || b x) ≡ true)

  pub HoldsOf-missing : (a : ℕ) (xs : List A) → find (λ x. id x == a) xs ≡ none → HoldsOf a xs
  HoldsOf-missing a [] e = tt
  HoldsOf-missing a (x ∷ xs) e = elim (Bool-cases (id x == a)) [
    | inl hit ↦ cc (sym (if-then (some x) _ hit) ∙ e)
    | inr miss ↦ (ground (arith, miss), HoldsOf-missing a xs (sym (if-else _ _ miss) ∙ e))
  ]

  HoldsOf-other : (a : ℕ) (xs : List A) → All (λ y. id y ≢ a) xs → HoldsOf a xs
  HoldsOf-other a [] h = tt
  HoldsOf-other a (x ∷ xs) (h, hs) = (ground (arith, h), HoldsOf-other a xs hs)

  -- With distinct ids it is enough that `b` holds of the row that is found.
  pub HoldsOf-found :
      (a : ℕ) (xs : List A) (r : A)
      → Distinct id xs
      → find (λ x. id x == a) xs ≡ some r
      → b r ≡ true
      → HoldsOf a xs
  HoldsOf-found a [] r d e h = tt
  HoldsOf-found a (x ∷ xs) r (apart, d) e h = elim (Bool-cases (id x == a)) [
    | inl hit ↦
        let same : x ≡ r = cc (sym (if-then (some x) _ hit) ∙ e) in
        (
          ground (arith, subst (λ z. b z ≡ true) (sym same) h),
          HoldsOf-other a xs (subst (λ k. All (λ y. id y ≢ k) xs) ((==_iff (id x) a).0 hit) apart),
        )
    | inr miss ↦ (ground (arith, miss), HoldsOf-found a xs r d (sym (if-else _ _ miss) ∙ e) h)
  ]
