-- ===== src/Base/Every.antt =====
-- Predicates that hold of every item of a list.
use mathlib.Core.List.{List, [], ◌∷◌}
use superhero_api.Base.Lists.{All}

module _ {ℓ κ} {A : Type ℓ} (P : A → Type κ) where
  pub All-every : ((x : A) → P x) → (xs : List A) → All P xs
  All-every h [] = tt
  All-every h (x ∷ xs) = (h x, All-every h xs)

module _ {ℓ κ} {A : Type ℓ} (P Q : A → Type κ) where
  pub All-map : ((x : A) → P x → Q x) → (xs : List A) → All P xs → All Q xs
  All-map f [] h = tt
  All-map f (x ∷ xs) (h, hs) = (f x h, All-map f xs hs)

  pub All-zip :
      (R : A → Type κ)
      → ((x : A) → P x → Q x → R x)
      → (xs : List A) → All P xs
      → All Q xs
      → All R xs
  All-zip R f [] h k = tt
  All-zip R f (x ∷ xs) (h, hs) (k, ks) = (f x h k, All-zip R f xs hs ks)
