-- ===== src/Rooms/Balances/Keyed.antt =====
-- The rows of the balance table by their keys.
use superhero_api.Base.{
  ℕ, Bool, true, false, ◌&&◌, some, ◌≡◌, arith, ◌==◌, find, find-update, find-update_other,
  find_satisfies, List, ◌∷◌, [], ◌++◌, update,
}
use superhero_api.Rooms.Store.{TokenBalance}
use superhero_api.Rooms.Eligibility.{is_holder}

-- The key of one row is not that of another.
abbrev pub same_key : ℕ → ℕ → ℕ → ℕ → Bool
same_key token holder token' holder' = token == token' && holder == holder'

is_holder_apart :
    (token holder token' holder' : ℕ)
    → same_key token holder token' holder' ≡ false
    → (x : TokenBalance) → is_holder token' holder' x ≡ true
    → is_holder token holder x ≡ false
is_holder_apart token holder token' holder' h x e = ground arith

-- A write that keeps the key.
pub record KeepsHolder (f : TokenBalance → TokenBalance) : Type 0 where
  pub token : (b : TokenBalance) → (f b).token_address ≡ b.token_address
  pub holder : (b : TokenBalance) → (f b).holder_address ≡ b.holder_address

module _ (token holder token' holder' : ℕ) (f : TokenBalance → TokenBalance)
    (k : KeepsHolder f) where
  keeps : (b : TokenBalance) → is_holder token' holder' (f b) ≡ is_holder token' holder' b
  keeps b = rw (k.token b, k.holder b)

  pub find-write_apart :
      same_key token holder token' holder' ≡ false
      → (rows : List TokenBalance)
      → find (is_holder token' holder') (update (is_holder token holder) f rows)
        ≡ find (is_holder token' holder') rows
  find-write_apart h rows =
      find-update_other (is_holder token holder) (is_holder token' holder') f keeps
        (is_holder_apart token holder token' holder' h) rows

module _ (token holder : ℕ) (f : TokenBalance → TokenBalance) (k : KeepsHolder f) where
  pub find-write_same :
      (rows : List TokenBalance) (b : TokenBalance)
      → find (is_holder token holder) rows ≡ some b
      → find (is_holder token holder) (update (is_holder token holder) f rows) ≡ some (f b)
  find-write_same rows b e =
      find-update (is_holder token holder) (is_holder token holder) f
        (keeps token holder token holder f k) rows b e
        (find_satisfies (is_holder token holder) rows b e)

-- A row that the query misses, at the end of the table.
pub find-append_miss {ℓ} :
    {A : Type ℓ} (q : A → Bool) (xs : List A) (y : A)
    → q y ≡ false
    → find q (xs ++ y ∷ []) ≡ find q xs
find-append_miss q [] y e = rw e
find-append_miss q (x ∷ xs) y e = ground (arith, find-append_miss q xs y e)
