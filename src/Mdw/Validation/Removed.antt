-- ===== src/Mdw/Validation/Removed.antt =====
-- Which stored transactions a validation leaves.
use superhero_api.Base.{
  ℕ, zero, suc, ◌+◌, ◌-◌, Bool, true, false, not, ◌&&◌, ◌||◌, List, [], ◌∷◌, ◌==◌, ==_iff,
  includes_eq, leb, ltb, ◌≡◌, refl, sym, ap, ◌∙◌, arith, select, includes, All, Bool-cases, inl,
  inr,
}
use superhero_api.Base.Every.{All-every, All-map}
use superhero_api.Mdw.Plugins.{Tx, Plugin}
use superhero_api.Mdw.Validation.{
  Store, hashes, at_height, is_gone, empty_block, remove_gone, validate_block_transactions,
  validate_from, start_height, validate_and_refresh_blocks,
}

select_ext : (p q : Tx → Bool) (xs : List Tx) → All (λ x. p x ≡ q x) xs → select p xs ≡ select q xs
select_ext p q [] h = refl
select_ext p q (x ∷ xs) (h, hs) = ground (arith, select_ext p q xs hs)

select-select :
    (p q : Tx → Bool) (xs : List Tx) → select p (select q xs) ≡ select (λ x. q x && p x) xs
select-select p q [] = refl
select-select p q (x ∷ xs) = ground (arith, select-select p q xs)

-- The hash of a transaction that a test selects is among the hashes of those selected.
pub includes-hashes :
    (q : Tx → Bool) (xs : List Tx)
    → All (λ x. q x ≡ true → includes x.hash (hashes (select q xs)) ≡ true) xs
includes-hashes q [] = tt
includes-hashes q (x ∷ xs) = (
  λ e. ground arith,
  All-map (λ y. q y ≡ true → includes y.hash (hashes (select q xs)) ≡ true)
      (λ y. q y ≡ true → includes y.hash (hashes (select q (x ∷ xs))) ≡ true)
      (λ y k e. ground (arith, k e)) xs (includes-hashes q xs),
)

module _ (height : ℕ) (refetched : List ℕ) where
  abbrev pub keeps_at : Tx → Bool
  keeps_at tx = not (at_height height tx) || includes tx.hash refetched

  abbrev pub gone : List Tx → List ℕ
  gone xs = hashes (select (is_gone height refetched) xs)

  gone-not_refetched :
      (a : ℕ) (xs : List Tx) → includes a (gone xs) ≡ true → includes a refetched ≡ false
  gone-not_refetched a [] h = cc
  gone-not_refetched a (x ∷ xs) h =
      ground (arith, gone-not_refetched a xs, includes_eq a x.hash refetched)

  gone-decides :
      (xs : List Tx)
      → All (λ x. not (at_height height x && includes x.hash (gone xs)) ≡ keeps_at x) xs
  gone-decides xs =
      All-map (λ y. is_gone height refetched y ≡ true → includes y.hash (gone xs) ≡ true)
        (λ y. not (at_height height y && includes y.hash (gone xs)) ≡ keeps_at y)
        (λ y k. ground (arith, k, gone-not_refetched y.hash xs)) xs
        (includes-hashes (is_gone height refetched) xs)

select_none : (height : ℕ) (xs : List Tx) → select (λ t. not (at_height height t && false)) xs ≡ xs
select_none height [] = refl
select_none height (x ∷ xs) = ground (arith, select_none height xs)

remove_gone-txs :
    (plugins : List Plugin) (height : ℕ) (hs : List ℕ) (s : Store)
    → (remove_gone plugins height hs s).txs
      ≡ select (λ t. not (at_height height t && includes t.hash hs)) s.txs
remove_gone-txs plugins height [] s = sym (select_none height s.txs)
remove_gone-txs plugins height (h ∷ hs) s = refl

none_at :
    (height : ℕ) (xs : List Tx)
    → select (at_height height) xs ≡ []
    → select (keeps_at height []) xs ≡ xs
none_at height [] e = refl
none_at height (x ∷ xs) e = ground (arith, none_at height xs)

empty_block-txs :
    (plugins : List Plugin) (height : ℕ) (found : List Tx) (s : Store)
    → select (at_height height) s.txs ≡ found
    → (empty_block plugins height found s).txs ≡ select (keeps_at height []) s.txs
empty_block-txs plugins height [] s e = sym (none_at height s.txs e)
empty_block-txs plugins height (t ∷ ts) s e =
    select_ext (λ x. not (at_height height x)) (keeps_at height []) s.txs
      (All-every (λ x. not (at_height height x) ≡ keeps_at height [] x) (λ x. ground arith) s.txs)

pub validate_block-txs :
    (plugins : List Plugin) (height : ℕ) (refetched : List ℕ) (s : Store)
    → (validate_block_transactions plugins height refetched s).txs
      ≡ select (keeps_at height refetched) s.txs
unfolding validate_block_transactions
validate_block-txs plugins height [] s =
    empty_block-txs plugins height (select (at_height height) s.txs) s refl
validate_block-txs plugins height (r ∷ rs) s =
    remove_gone-txs plugins height (hashes (select (is_gone height (r ∷ rs)) s.txs)) s
    ∙ select_ext (λ t. not (at_height height t && includes t.hash (gone height (r ∷ rs) s.txs)))
        (keeps_at height (r ∷ rs)) s.txs (gone-decides height (r ∷ rs) s.txs)

-- A transaction in the heights from `height`, `n` of them, stays if it was fetched again.
abbrev pub keeps_from : (ℕ → List ℕ) → ℕ → ℕ → Tx → Bool
keeps_from fetched n height tx =
    not (leb height tx.block_height && ltb tx.block_height (height + n))
    || includes tx.hash (fetched tx.block_height)

pub keeps_step :
    (fetched : ℕ → List ℕ) (n height : ℕ) (tx : Tx)
    → (keeps_at height (fetched height) tx && keeps_from fetched n (height + 1) tx)
      ≡ keeps_from fetched (suc n) height tx
keeps_step fetched n height tx = elim (Bool-cases (tx.block_height == height)) [
  | inl same ↦
      ground
        (arith, ap (λ k. includes tx.hash (fetched k)) ((==_iff tx.block_height height).0 same))
  | inr apart ↦ ground arith
]

keeps_zero :
    (fetched : ℕ → List ℕ) (height : ℕ) (xs : List Tx)
    → select (keeps_from fetched 0 height) xs ≡ xs
keeps_zero fetched height [] = refl
keeps_zero fetched height (x ∷ xs) = ground (arith, keeps_zero fetched height xs)

validate_from-txs :
    (plugins : List Plugin) (fetched : ℕ → List ℕ) (n height : ℕ) (s : Store)
    → (validate_from plugins fetched n height s).txs ≡ select (keeps_from fetched n height) s.txs
validate_from-txs plugins fetched zero height s = sym (keeps_zero fetched height s.txs)
validate_from-txs plugins fetched (suc n) height s =
    validate_from-txs plugins fetched n (height + 1)
      (validate_block_transactions plugins height (fetched height) s)
    ∙ ap (select (keeps_from fetched n (height + 1)))
        (validate_block-txs plugins height (fetched height) s)
    ∙ select-select (keeps_from fetched n (height + 1)) (keeps_at height (fetched height)) s.txs
    ∙ select_ext (λ t. keeps_at height (fetched height) t && keeps_from fetched n (height + 1) t)
        (keeps_from fetched (suc n) height) s.txs
        (All-every
          (λ t.
            (keeps_at height (fetched height) t && keeps_from fetched n (height + 1) t)
            ≡ keeps_from fetched (suc n) height t)
          (keeps_step fetched n height) s.txs)

-- A stored transaction stays: its height is not in the range, or the block that was fetched has it.
abbrev pub stays : ℕ → ℕ → (ℕ → List ℕ) → Tx → Bool
stays first last fetched tx =
    not (leb first tx.block_height && leb tx.block_height last)
    || includes tx.hash (fetched tx.block_height)

pub keeps-stays :
    (depth tip : ℕ) (fetched : ℕ → List ℕ) (tx : Tx)
    → keeps_from fetched (tip + 1 - start_height depth tip) (start_height depth tip) tx
      ≡ stays (start_height depth tip) tip fetched tx
keeps-stays depth tip fetched tx = ground arith

pub validate_and_refresh_blocks-txs :
    (plugins : List Plugin) (depth tip : ℕ) (fetched : ℕ → List ℕ) (s : Store)
    → (validate_and_refresh_blocks plugins depth tip fetched s).txs
      ≡ select (stays (start_height depth tip) tip fetched) s.txs
unfolding validate_and_refresh_blocks
validate_and_refresh_blocks-txs plugins depth tip fetched s =
    validate_from-txs plugins fetched (tip + 1 - start_height depth tip) (start_height depth tip) s
    ∙ select_ext (keeps_from fetched (tip + 1 - start_height depth tip) (start_height depth tip))
        (stays (start_height depth tip) tip fetched) s.txs
        (All-every
          (λ t.
            keeps_from fetched (tip + 1 - start_height depth tip) (start_height depth tip) t
            ≡ stays (start_height depth tip) tip fetched t)
          (keeps-stays depth tip fetched) s.txs)
