-- ===== src/Base/Pick.antt =====
-- Rows that a query without an order may give.
use Prim.Native.Nat.{ℕ, zero, suc, ◌≤◌}
use mathlib.Core.Path.{◌≡◌, refl, subst}
use mathlib.Core.Bool.{Bool}
use mathlib.Core.Option.{some}
use mathlib.Core.List.{List, [], ◌∷◌}
use native.Mathlib.Omega.{arith}
use superhero_api.Base.Lists.{select, find, update, pick_at, All}
use superhero_api.Base.Count.{count}

module _ {ℓ} {A : Type ℓ} where
  pick_at_one : (n : ℕ) (x : A) → pick_at n (x ∷ []) ≡ some x
  pick_at_one zero x = refl
  pick_at_one (suc n) x = refl

  select_none : (q : A → Bool) (xs : List A) → count q xs ≡ 0 → select q xs ≡ []
  select_none q [] h = refl
  select_none q (x ∷ xs) h = ground (arith, select_none q xs)

  -- Where one row matches at most, the choice is the first row.
  pub pick_at-find :
      (n : ℕ) (q : A → Bool) (xs : List A) → count q xs ≤ 1 → pick_at n (select q xs) ≡ find q xs
  pick_at-find n q [] h = refl
  pick_at-find n q (x ∷ xs) h =
      ground (arith, pick_at-find n q xs, select_none q xs, pick_at_one n x)

  pub count-update :
      (q p : A → Bool) (f : A → A)
      → ((x : A) → q (f x) ≡ q x)
      → (xs : List A) → count q (update p f xs) ≡ count q xs
  count-update q p f keep [] = refl
  count-update q p f keep (x ∷ xs) = ground (arith, keep x, count-update q p f keep xs)

module _ {ℓ κ} {A : Type ℓ} (P : A → Type κ) where
  -- What holds of every row holds of the one that is given.
  pub All-pick_at : (n : ℕ) (xs : List A) (x : A) → All P xs → pick_at n xs ≡ some x → P x
  All-pick_at n [] x h e = cc
  All-pick_at zero (y ∷ ys) x (h, hs) e = subst P (cc e) h
  All-pick_at (suc n) (y ∷ []) x (h, hs) e = subst P (cc e) h
  All-pick_at (suc n) (y ∷ z ∷ ys) x (h, hs) e = All-pick_at n (z ∷ ys) x hs e
