-- ===== src/Base/Lists.antt =====
-- Lists measured by native numbers, filtered by Boolean tests, and predicates on them.
use Prim.Native.Nat.{ℕ, zero, suc, ◌+◌}
use mathlib.Core.Path.{◌≡◌, refl, sym, ap, subst, ◌∙◌}
use mathlib.Core.Logic.{inl, inr}
use mathlib.Core.Bool.{Bool, true, false, ◌&&◌, ◌||◌}
use mathlib.Core.List.{List, [], ◌∷◌, ◌++◌}
use mathlib.Core.Option.{Option, none, some}
use native.Mathlib.Omega.{arith}
use superhero_api.Base.Tests.{Bool-cases, if-then, if-else, ◌==◌, ==_iff, if◌then◌else◌}

module _ {ℓ} {A : Type ℓ} where
  abbrev pub length : List A → ℕ
  length [] = 0
  length (x ∷ xs) = suc (length xs)

  abbrev pub take : ℕ → List A → List A
  take zero xs = []
  take (suc n) [] = []
  take (suc n) (x ∷ xs) = x ∷ take n xs

  abbrev pub drop : ℕ → List A → List A
  drop zero xs = xs
  drop (suc n) [] = []
  drop (suc n) (x ∷ xs) = drop n xs

  -- The rows that satisfy a query's `where`.
  abbrev pub select : (A → Bool) → List A → List A
  select p [] = []
  select p (x ∷ xs) = if p x then x ∷ select p xs else select p xs

  -- `findOne`: the first row that satisfies it.
  abbrev pub find : (A → Bool) → List A → Option A
  find p [] = none
  find p (x ∷ xs) = if p x then some x else find p xs

  -- `update`: every row that satisfies it is changed.
  abbrev pub update : (A → Bool) → (A → A) → List A → List A
  update p f [] = []
  update p f (x ∷ xs) = (if p x then f x else x) ∷ update p f xs

  abbrev pub any : (A → Bool) → List A → Bool
  any p [] = false
  any p (x ∷ xs) = p x || any p xs

  pub length-append : (xs ys : List A) → length (xs ++ ys) ≡ length xs + length ys
  length-append [] ys = omega arith
  length-append (x ∷ xs) ys = omega (arith, length-append xs ys)

-- `xs.includes(a)`
abbrev pub includes : ℕ → List ℕ → Bool
includes a [] = false
includes a (x ∷ xs) = x == a || includes a xs

-- `Map.get`, on the entries with the newest first.
abbrev pub lookup {ℓ} : {A : Type ℓ} → ℕ → List (ℕ × A) → Option A
lookup a [] = none
lookup a ((k, v) ∷ m) = if k == a then some v else lookup a m

-- `[...new Set(xs)]`: each value once, at its first place.
abbrev pub dedup_from : List ℕ → List ℕ → List ℕ
dedup_from seen [] = []
dedup_from seen (x ∷ xs) =
    if includes x seen then dedup_from seen xs else x ∷ dedup_from (x ∷ seen) xs

abbrev pub dedup : List ℕ → List ℕ
dedup xs = dedup_from [] xs

-- One of the rows that match a query without an order: the database's choice is a number.
abbrev pub pick_at {ℓ} : {A : Type ℓ} → ℕ → List A → Option A
pick_at n [] = none
pick_at zero (x ∷ xs) = some x
pick_at (suc n) (x ∷ []) = some x
pick_at (suc n) (x ∷ y ∷ xs) = pick_at n (y ∷ xs)

-- A predicate that holds of every item computes to a tuple.
abbrev pub All {ℓ κ} : {A : Type ℓ} → (A → Type κ) → List A → Type κ
All P [] = Unit
All P (x ∷ xs) = P x × All P xs

module _ {ℓ κ} {A : Type ℓ} (P : A → Type κ) where
  All-select_step :
      (p : A → Bool) (x : A) (xs : List A) → P x → All P (select p xs) → All P (select p (x ∷ xs))
  All-select_step p x xs h hs =
      elim (p x) as (λ b. All P (if b then x ∷ select p xs else select p xs)) [
        | true ↦ (h, hs)
        | false ↦ hs
      ]

  pub All-append : (xs ys : List A) → All P xs → All P ys → All P (xs ++ ys)
  All-append [] ys h k = k
  All-append (x ∷ xs) ys (h, hs) k = (h, All-append xs ys hs k)

  pub All-select : (p : A → Bool) (xs : List A) → All P xs → All P (select p xs)
  All-select p [] h = tt
  All-select p (x ∷ xs) (h, hs) = All-select_step p x xs h (All-select p xs hs)

module _ {ℓ} {A : Type ℓ} (p q : A → Bool) (f : A → A) where
  -- An update that keeps the key of a query is seen by it.
  pub find-update :
      ((x : A) → q (f x) ≡ q x)
      → (xs : List A) (r : A) → find q xs ≡ some r
      → p r ≡ true
      → find q (update p f xs) ≡ some (f r)
  find-update keep [] r e h = cc
  find-update keep (x ∷ xs) r e h = ground (arith, keep x, find-update keep xs r)

  -- What the update misses, the query finds as before.
  pub find-update_other :
      ((x : A) → q (f x) ≡ q x)
      → ((x : A) → q x ≡ true → p x ≡ false)
      → (xs : List A) → find q (update p f xs) ≡ find q xs
  find-update_other keep apart [] = refl
  find-update_other keep apart (x ∷ xs) =
      ground (arith, keep x, apart x, find-update_other keep apart xs)

module _ {ℓ} {A : Type ℓ} (q : A → Bool) where
  pub find-append : (xs ys : List A) → find q xs ≡ none → find q (xs ++ ys) ≡ find q ys
  find-append [] ys e = refl
  find-append (x ∷ xs) ys e = ground (arith, find-append xs ys)

  pub find_satisfies : (xs : List A) (r : A) → find q xs ≡ some r → q r ≡ true
  find_satisfies [] r e = cc
  find_satisfies (x ∷ xs) r e = ground (arith, find_satisfies xs r)

module _ {ℓ κ} {A : Type ℓ} (P : A → Type κ) (q : A → Bool) where
  -- What holds of every row holds of the one that a query finds.
  pub All-find : (xs : List A) (r : A) → All P xs → find q xs ≡ some r → P r
  All-find [] r h e = cc
  All-find (x ∷ xs) r (h, hs) e = elim (Bool-cases (q x)) [
    | inl hit ↦ subst P (cc (sym (if-then (some x) (find q xs) hit) ∙ e)) h
    | inr miss ↦ All-find xs r hs (sym (if-else (some x) (find q xs) miss) ∙ e)
  ]

module _ {ℓ} {A : Type ℓ} (p : A → Bool) (f : A → A) where
  pub update_miss : (xs : List A) → All (λ x. p x ≡ false) xs → update p f xs ≡ xs
  update_miss [] h = refl
  update_miss (x ∷ xs) (h, hs) = rw (h, update_miss xs hs)

  pub All-update {κ} :
      (P : A → Type κ)
      → ((x : A) → P x → P (f x))
      → (xs : List A) → All P xs
      → All P (update p f xs)
  All-update P keep [] h = tt
  All-update P keep (x ∷ xs) (h, hs) =
      let rest = All-update P keep xs hs in
      elim (p x) as (λ b. P (if b then f x else x) × All P (update p f xs)) [
        | true ↦ (keep x h, rest)
        | false ↦ (h, rest)
      ]

module _ {ℓ} {A : Type ℓ} (p q : A → Bool) (f : A → A) where
  -- What a query finds after an update that keeps its key.
  pub find-update-some :
      ((x : A) → q (f x) ≡ q x)
      → (xs : List A) (r : A) → find q xs ≡ some r
      → find q (update p f xs) ≡ some (if p r then f r else r)
  find-update-some keep [] r e = cc
  find-update-some keep (x ∷ xs) r e = elim (Bool-cases (q x)) [
    | inl hit ↦
        let same : x ≡ r = cc (sym (if-then (some x) (find q xs) hit) ∙ e) in
        subst (λ z. find q (update p f (x ∷ xs)) ≡ some (if p z then f z else z)) same
          (ground (arith, keep x))
    | inr miss ↦
        let rest = find-update-some keep xs r (sym (if-else (some x) (find q xs) miss) ∙ e) in
        ground (arith, keep x, rest)
  ]

module _ {ℓ κ} {A : Type ℓ} (P : A → Type κ) where
  pub All-take : (n : ℕ) (xs : List A) → All P xs → All P (take n xs)
  All-take zero xs h = tt
  All-take (suc n) [] h = tt
  All-take (suc n) (x ∷ xs) (h, hs) = (h, All-take n xs hs)

module _ {ℓ} {A : Type ℓ} (p : A → Bool) (f g : A → A) where
  -- Two updates of the same rows are one.
  pub update-update :
      ((x : A) → p (f x) ≡ p x)
      → (xs : List A) → update p g (update p f xs) ≡ update p (λ x. g (f x)) xs
  update-update keep [] = refl
  update-update keep (x ∷ xs) = ground (arith, keep x, update-update keep xs)

-- An item that is equal to one that is not there is not there.
pub includes_eq : (a x : ℕ) (seen : List ℕ) → (x == a) ≡ true → includes x seen ≡ includes a seen
includes_eq a x seen e = ap (λ z. includes z seen) ((==_iff x a).0 e)

includes-dedup_from :
    (a : ℕ) (seen xs : List ℕ)
    → (includes a seen || includes a (dedup_from seen xs)) ≡ (includes a seen || includes a xs)
includes-dedup_from a seen [] = refl
includes-dedup_from a seen (x ∷ xs) = ground (
  arith,
  includes-dedup_from a seen xs,
  includes-dedup_from a (x ∷ seen) xs,
  includes_eq a x seen,
)

-- A set has the members of the list that it is made of.
pub includes-dedup : (a : ℕ) (xs : List ℕ) → includes a (dedup xs) ≡ includes a xs
includes-dedup a xs = includes-dedup_from a [] xs

pub includes-select :
    (a : ℕ) (p : ℕ → Bool) (xs : List ℕ) → includes a (select p xs) ≡ (includes a xs && p a)
includes-select a p [] = refl
includes-select a p (x ∷ xs) = ground (arith, includes-select a p xs)

pub includes-append :
    (a : ℕ) (xs ys : List ℕ) → includes a (xs ++ ys) ≡ (includes a xs || includes a ys)
includes-append a [] ys = refl
includes-append a (x ∷ xs) ys = ground (arith, includes-append a xs ys)
