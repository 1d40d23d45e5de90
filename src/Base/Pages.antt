-- ===== src/Base/Pages.antt =====
-- Walking a table in pages: `WHERE key > cursor ORDER BY key LIMIT n`, again and again, until a page
-- is shorter than the limit. The services' cursor loops are instances.
pub mod Order
use Prim.Native.Nat.{ℕ, zero, suc, ◌+◌, ◌≤◌, ◌<◌}
use mathlib.Core.Path.{◌≡◌, refl, sym, ap, ◌∙◌}
use mathlib.Core.Logic.{inl, inr}
use mathlib.Core.Bool.{Bool}
use mathlib.Core.List.{List, [], ◌∷◌, ◌++◌}
use native.Mathlib.Omega.{arith}
use superhero_api.Base.Tests.{ltb→lt, ltb, leb, if◌then◌else◌, Bool-cases}
use superhero_api.Base.Lists.{length, take, drop, select}

module _ {ℓ} {R : Type ℓ} (key : R → ℕ) where
  -- `ORDER BY key ASC`, by insertion.
  insert_by : R → List R → List R
  insert_by r [] = r ∷ []
  insert_by r (x ∷ xs) = if leb (key r) (key x) then r ∷ x ∷ xs else x ∷ insert_by r xs

  unfoldable pub order_by : List R → List R
  unfolding insert_by
  order_by [] = []
  order_by (x ∷ xs) = insert_by x (order_by xs)

  -- `WHERE key > cursor`
  abbrev pub above : ℕ → List R → List R
  above cursor = select (λ r. ltb cursor (key r))

  abbrev pub last_key : ℕ → List R → ℕ
  last_key d [] = d
  last_key d (x ∷ xs) = last_key (key x) xs

  -- Strictly ascending, from above `low`.
  abbrev pub Ascends : ℕ → List R → Type 0
  Ascends low [] = Unit {0}
  Ascends low (x ∷ xs) = (low < key x) × Ascends (key x) xs

-- The body of a loop over the rows of a page.
abbrev pub each {ℓ κ} : {S : Type ℓ} {R : Type κ} → (S → R → S) → S → List R → S
each body s [] = s
each body s (r ∷ rs) = each body (body s r) rs

-- What follows a page: nothing after an empty one, and the rest of the walk after a full one.
abbrev turn {ℓ κ} : {S : Type ℓ} {R : Type κ} → ℕ → S → List R → S → S → S
turn limit s [] done rest = s
turn limit s (r ∷ rs) done rest = if ltb (length (r ∷ rs)) limit then done else rest

module _ {ℓ κ} {S : Type ℓ} {R : Type κ} (key : R → ℕ) (rows : S → List R) (body : S → R → S) where
  abbrev pub page : ℕ → ℕ → S → List R
  page limit cursor s = take limit (above key cursor (rows s))

  -- The loop, with fuel; an empty or a short page ends it.
  unfoldable pub pages : ℕ → ℕ → ℕ → S → S
  pages limit zero cursor s = s
  pages limit (suc fuel) cursor s =
      let batch = page limit cursor s in
      let done = each body s batch in
      let rest = pages limit fuel (last_key key cursor batch) done in turn limit s batch done rest

module _ {ℓ} {R : Type ℓ} (key : R → ℕ) where
  last_key-ge : (n c : ℕ) (xs : List R) → Ascends key c xs → c ≤ last_key key c (take n xs)
  last_key-ge zero c xs h = omega arith
  last_key-ge (suc n) c [] h = omega arith
  last_key-ge (suc n) c (x ∷ xs) h = omega (arith, last_key-ge n (key x) xs h.1)

  above_low : (c low : ℕ) (xs : List R) → Ascends key low xs → c ≤ low → above key c xs ≡ xs
  above_low c low [] h le = refl
  above_low c low (x ∷ xs) h le = ground (arith, above_low c (key x) xs h.1)

  above_last :
      (n c : ℕ) (xs : List R)
      → Ascends key c xs
      → above key (last_key key c (take n xs)) xs ≡ drop n xs
  above_last zero c xs h = above_low c c xs h (omega arith)
  above_last (suc n) c [] h = refl
  above_last (suc n) c (x ∷ xs) h =
      ground (arith, last_key-ge n (key x) xs h.1, above_last n (key x) xs h.1)

  Ascends-drop :
      (n c : ℕ) (xs : List R)
      → Ascends key c xs
      → Ascends key (last_key key c (take n xs)) (drop n xs)
  Ascends-drop zero c xs h = h
  Ascends-drop (suc n) c [] h = tt
  Ascends-drop (suc n) c (x ∷ xs) h = Ascends-drop n (key x) xs h.1

  above-above : (c c' : ℕ) (xs : List R) → c ≤ c' → above key c' (above key c xs) ≡ above key c' xs
  above-above c c' [] le = refl
  above-above c c' (x ∷ xs) le = ground (arith, above-above c c' xs le)

module _ {ℓ κ} {S : Type ℓ} {R : Type κ} (key : R → ℕ) (rows : S → List R) (body : S → R → S)
    -- The body leaves the rows alone that the walk has still to reach.
    (stable : (s : S) (r : R) (c : ℕ)
      → key r ≤ c
      → above key c (rows (body s r)) ≡ above key c (rows s)) where
  each-stable :
      (n c d : ℕ) (s : S) (xs : List R)
      → Ascends key c xs
      → last_key key c (take n xs) ≤ d
      → above key d (rows (each body s (take n xs))) ≡ above key d (rows s)
  each-stable zero c d s xs h le = refl
  each-stable (suc n) c d s [] h le = refl
  each-stable (suc n) c d s (x ∷ xs) h le =
      each-stable n (key x) d (body s x) xs h.1 le
      ∙ stable s x d (omega (arith, last_key-ge key n (key x) xs h.1))

each-append {ℓ κ} :
    {S : Type ℓ} {R : Type κ} (body : S → R → S) (n : ℕ) (s : S) (xs : List R)
    → each body (each body s (take n xs)) (drop n xs) ≡ each body s xs
each-append body zero s xs = refl
each-append body (suc n) s [] = refl
each-append body (suc n) s (x ∷ xs) = each-append body n (body s x) xs

each_short {ℓ κ} :
    {S : Type ℓ} {R : Type κ} (body : S → R → S) (n : ℕ) (s : S) (xs : List R)
    → length (take n xs) < n
    → each body s (take n xs) ≡ each body s xs
each_short body zero s xs h = absurd (omega arith)
each_short body (suc n) s [] h = refl
each_short body (suc n) s (x ∷ xs) h = each_short body n (body s x) xs (omega arith)

length-drop {ℓ} : {R : Type ℓ} (n : ℕ) (xs : List R) → length (drop n xs) ≤ length xs
length-drop zero xs = omega arith
length-drop (suc n) [] = omega arith
length-drop (suc n) (x ∷ xs) = omega (arith, length-drop n xs)

module _ {ℓ κ} {S : Type ℓ} {R : Type κ} (key : R → ℕ) (rows : S → List R) (body : S → R → S)
    (stable : (s : S) (r : R) (c : ℕ)
      → key r ≤ c
      → above key c (rows (body s r)) ≡ above key c (rows s)) where
  remaining :
      (n c : ℕ) (s : S) (x : R) (xs : List R)
      → above key c (rows s) ≡ x ∷ xs
      → Ascends key c (x ∷ xs)
      → above key (last_key key (key x) (take n xs)) (rows (each body (body s x) (take n xs)))
        ≡ drop n xs
  remaining n c s x xs e h =
      let k : ℕ = last_key key (key x) (take n xs) in
      each-stable key rows body stable (suc n) c k s (x ∷ xs) h (omega arith)
      ∙ sym (above-above key c k (rows s) (omega (arith, last_key-ge key (suc n) c (x ∷ xs) h)))
      ∙ ap (above key k) e
      ∙ above_last key (suc n) c (x ∷ xs) h

  -- The walk meets each row above the cursor once, in order: it is one pass over them all.
  pub pages-eq-each :
      (n fuel c : ℕ) (s : S) (xs : List R)
      → above key c (rows s) ≡ xs
      → Ascends key c xs
      → length xs < fuel
      → pages key rows body (suc n) fuel c s ≡ each body s xs
  unfolding pages
  pages-eq-each n zero c s xs e h lt = absurd (omega arith)
  pages-eq-each n (suc fuel) c s [] e h lt = rw e
  pages-eq-each n (suc fuel) c s (x ∷ xs) e h lt =
      elim (Bool-cases (ltb (length (take (suc n) (x ∷ xs))) (suc n))) [
        | inl short ↦ rw (e, short) (each_short body (suc n) s (x ∷ xs) (ltb→lt _ _ short))
        | inr full ↦
            rw (e, full)
              (pages-eq-each n fuel (last_key key (key x) (take n xs))
                  (each body (body s x) (take n xs)) (drop n xs) (remaining n c s x xs e h)
                  (Ascends-drop key n (key x) xs h.1) (omega (arith, length-drop n xs))
                ∙ each-append body n (body s x) xs)
      ]

  -- The same for a limit that is not zero.
  pub pages_complete :
      (limit fuel c : ℕ) (s : S)
      → 0 < limit
      → Ascends key c (above key c (rows s))
      → length (above key c (rows s)) < fuel
      → pages key rows body limit fuel c s ≡ each body s (above key c (rows s))
  pages_complete zero fuel c s pos h lt = elim pos [ ]
  pages_complete (suc n) fuel c s pos h lt = pages-eq-each n fuel c s _ refl h lt

module _ {ℓ} {R : Type ℓ} (key : R → ℕ) where
  length-insert_by : (x : R) (xs : List R) → length (insert_by key x xs) ≡ suc (length xs)
  unfolding insert_by
  length-insert_by x [] = refl
  length-insert_by x (y ∷ ys) = ground (arith, length-insert_by x ys)

  pub length-order_by : (xs : List R) → length (order_by key xs) ≡ length xs
  unfolding order_by
  length-order_by [] = refl
  length-order_by (x ∷ xs) = omega (arith, length-insert_by x (order_by key xs), length-order_by xs)

pub length-select-le {ℓ} :
    {R : Type ℓ} (p : R → Bool) (xs : List R) → length (select p xs) ≤ length xs
length-select-le p [] = omega arith
length-select-le p (x ∷ xs) = ground (arith, length-select-le p xs)
