-- ===== src/Base/Keys.antt =====
-- A table written by id and read by another key: what a write does to the rows that are found.
use Prim.Native.Nat.{ℕ}
use mathlib.Core.Path.{◌≡◌, refl, sym, ap, subst, ◌∙◌}
use mathlib.Core.Logic.{◌≢◌, inl, inr}
use mathlib.Core.Bool.{Bool, true, false, ◌&&◌}
use mathlib.Core.List.{List, [], ◌∷◌}
use mathlib.Core.Option.{some}
use native.Mathlib.Omega.{arith}
use superhero_api.Base.Tests.{◌==◌, if◌then◌else◌, Bool-cases, if-then, if-else}
use superhero_api.Base.Lists.{any, find, select, update, All, All-find, All-select, update_miss}
use superhero_api.Base.Pages.{each}
use superhero_api.Base.Pages.Order.{Distinct}

module _ {ℓ} {A : Type ℓ} (id : A → ℕ) where
  -- A write by id, perhaps under a further condition.
  abbrev pub by_id : ℕ → (A → Bool) → A → Bool
  by_id a q x = id x == a && q x

  by_id_miss :
      (a : ℕ) (q : A → Bool) (xs : List A)
      → All (λ y. id y ≢ a) xs
      → All (λ y. by_id a q y ≡ false) xs
  by_id_miss a q [] h = tt
  by_id_miss a q (x ∷ xs) (h, hs) = (ground arith, by_id_miss a q xs hs)

  ne_All : (a : ℕ) (xs : List A) → All (λ y. id y ≢ a) xs → All (λ y. (id y == a) ≡ false) xs
  ne_All a [] h = tt
  ne_All a (x ∷ xs) (h, hs) = (ground arith, ne_All a xs hs)

  module _ (f : A → A) (keeps_id : (x : A) → id (f x) ≡ id x) (p : A → Bool) where
    All-id-update :
        (a : ℕ) (xs : List A) → All (λ y. id y ≢ a) xs → All (λ y. id y ≢ a) (update p f xs)
    All-id-update a [] h = tt
    All-id-update a (x ∷ xs) (h, hs) = (ground (arith, keeps_id x), All-id-update a xs hs)

    -- A write keeps the ids apart.
    pub Distinct-update : (xs : List A) → Distinct id xs → Distinct id (update p f xs)
    Distinct-update [] d = tt
    Distinct-update (x ∷ xs) (h, d) = elim (Bool-cases (p x)) [
      | inl hit ↦ rw (hit, keeps_id x) (All-id-update (id x) xs h, Distinct-update xs d)
      | inr miss ↦ rw miss (All-id-update (id x) xs h, Distinct-update xs d)
    ]

  module _ (f : A → A) (p q r : A → Bool) (keeps : (x : A) → q (f x) ≡ q x)
      (apart : (x : A) → p x ≡ true → q x ≡ false) where
    other_hit :
        (a : ℕ) (x : A) (xs : List A)
        → p x ≡ true
        → All (λ y. id y ≢ a) xs
        → find q (update (by_id a r) f (x ∷ xs)) ≡ find q (x ∷ xs)
    other_hit a x xs hit h =
        rw (update_miss (by_id a r) f xs (by_id_miss a r xs h))
          (ground (arith, keeps x, apart x hit))

    -- A write to the row that `p` finds leaves alone what `q` finds.
    pub find-write_other :
        (xs : List A) (row : A)
        → Distinct id xs
        → find p xs ≡ some row
        → find q (update (by_id (id row) r) f xs) ≡ find q xs
    find-write_other [] row d e = refl
    find-write_other (x ∷ xs) row (h, d) e = elim (Bool-cases (p x)) [
      | inl hit ↦
          let same : x ≡ row = cc (sym (if-then (some x) (find p xs) hit) ∙ e) in
          other_hit (id row) x xs hit (subst (λ z. All (λ y. id y ≢ id z) xs) same h)
      | inr miss ↦
          let e' = sym (if-else (some x) (find p xs) miss) ∙ e in
          ground (arith, All-find (λ y. id y ≢ id x) p xs row h e', find-write_other xs row d e')
    ]

  any_miss : (p : A → Bool) (xs : List A) → All (λ x. p x ≡ false) xs → any p xs ≡ false
  any_miss p [] h = refl
  any_miss p (x ∷ xs) (h, hs) = rw (h, any_miss p xs hs)

  -- A conditional write by id that changed a row changed the one that `p` finds.
  pub any-by_id :
      (p r : A → Bool) (xs : List A) (row : A)
      → Distinct id xs
      → find p xs ≡ some row
      → any (by_id (id row) r) xs ≡ true
      → r row ≡ true
  any-by_id p r [] row d e h = cc
  any-by_id p r (x ∷ xs) row (apart, d) e h = elim (Bool-cases (p x)) [
    | inl hit ↦
        let same : x ≡ row = cc (sym (if-then (some x) (find p xs) hit) ∙ e) in
        let rest =
          any_miss (by_id (id row) r) xs
            (by_id_miss (id row) r xs (subst (λ z. All (λ y. id y ≢ id z) xs) same apart)) in
        subst (λ z. r z ≡ true) same (ground (arith, rest))
    | inr miss ↦
        let e' = sym (if-else (some x) (find p xs) miss) ∙ e in
        let ne = All-find (λ y. id y ≢ id x) p xs row apart e' in
        any-by_id p r xs row d e' (ground (arith, ne))
  ]

  -- A write by id that leaves the row found as it is changes nothing.
  pub update_same :
      (f : A → A) (p : A → Bool) (xs : List A) (row : A)
      → Distinct id xs
      → find p xs ≡ some row
      → f row ≡ row
      → update (λ x. id x == id row) f xs ≡ xs
  update_same f p [] row d e same = refl
  update_same f p (x ∷ xs) row (apart, d) e same = elim (Bool-cases (p x)) [
    | inl hit ↦
        let this : x ≡ row = cc (sym (if-then (some x) (find p xs) hit) ∙ e) in
        let rest =
          update_miss (λ y. id y == id row) f xs
            (ne_All (id row) xs (subst (λ z. All (λ y. id y ≢ id z) xs) this apart)) in
        rw rest (
          subst (λ z. (if id x == id z then f x else x) ∷ xs ≡ x ∷ xs) this
            (ground (arith, subst (λ z. f z ≡ z) (sym this) same)))
    | inr miss ↦
        let e' = sym (if-else (some x) (find p xs) miss) ∙ e in
        ground
          (arith, All-find (λ y. id y ≢ id x) p xs row apart e', update_same f p xs row d e' same)
  ]

  -- One write by id for each row that a query read first, as a loop makes them.
  abbrev pub writes : (A → A) → List A → List A → List A
  writes f = each (λ rows r. update (λ x. id x == id r) f rows)

  writes-∷ :
      (f : A → A) (y : A) (ys todo : List A)
      → All (λ r. id r ≢ id y) todo
      → writes f (y ∷ ys) todo ≡ y ∷ writes f ys todo
  writes-∷ f y ys [] h = refl
  writes-∷ f y ys (r ∷ todo) (h, hs) =
      ap (λ z. writes f (z ∷ update (λ x. id x == id r) f ys) todo)
        (if-else (f y) y (ground (arith, h)))
      ∙ writes-∷ f y (update (λ x. id x == id r) f ys) todo hs

  -- The loop is the one update of all that the query selects.
  pub writes-select :
      (f : A → A) (p : A → Bool)
      → ((x : A) → id (f x) ≡ id x)
      → (xs : List A) → Distinct id xs
      → writes f xs (select p xs) ≡ update p f xs
  writes-select f p keeps [] d = refl
  writes-select f p keeps (x ∷ xs) (apart, d) =
      let rest = writes-select f p keeps xs d in
      let far = All-select (λ y. id y ≢ id x) p xs apart in
      elim (Bool-cases (p x)) [
        | inl hit ↦ rw hit (
            ap (λ rows. writes f rows (select p xs)) (here x xs f apart)
            ∙ writes-∷ f (f x) xs (select p xs) (rw (keeps x) far)
            ∙ ap (λ ys. f x ∷ ys) rest)
        | inr miss ↦ rw miss (writes-∷ f x xs (select p xs) far ∙ ap (λ ys. x ∷ ys) rest)
      ]
    where
      here :
          (x : A) (xs : List A) (f : A → A)
          → All (λ y. id y ≢ id x) xs
          → update (λ y. id y == id x) f (x ∷ xs) ≡ f x ∷ xs
      here x xs f apart =
          rw (update_miss (λ y. id y == id x) f xs (ne_All (id x) xs apart)) (ground arith)
