-- ===== src/Rooms/Balances/Upsert.antt =====
-- What the upserts of the balance table leave there, for every token and holder.
use superhero_api.Base.{
  ℕ, true, false, Option, none, some, ◌≡◌, refl, ap, subst, arith, ◌==◌, if◌then◌else◌, or_else,
  find, find-append, Bool-cases, Option-cases, inl, inr, ◌∷◌, [],
}
use superhero_api.Rooms.Store.{TokenBalance, World}
use superhero_api.Rooms.Eligibility.{is_holder, balance_of}
use superhero_api.Rooms.Balances.{
  Delta, next_balance, balance_at, insert_balance, with_balance, with_height, apply_to, apply_delta,
  set_balance, set_authoritative_balance,
}
use superhero_api.Rooms.Balances.Keyed.{
  same_key, KeepsHolder, find-write_apart, find-write_same, find-append_miss,
}

abbrev balance_row : ℕ → ℕ → ℕ → ℕ → Option ℕ → TokenBalance
balance_row token holder value height reconciled = record {
  token_address = token;
  holder_address = holder;
  balance = value;
  updated_height = height;
  last_reconciled_at = reconciled;
}

module _ (token holder value height : ℕ) (reconciled : Option ℕ) where
  abbrev row : TokenBalance
  row = balance_row token holder value height reconciled

  balance_at-insert_self :
      (w : World)
      → find (is_holder token holder) w.balances ≡ none
      → balance_at token holder (insert_balance row w) ≡ value
  balance_at-insert_self w e =
      ground (arith, find-append (is_holder token holder) w.balances (row ∷ []) e)

  balance_at-insert_other :
      (token' holder' : ℕ)
      → same_key token holder token' holder' ≡ false
      → (w : World) → balance_at token' holder' (insert_balance row w) ≡ balance_at token' holder' w
  balance_at-insert_other token' holder' apart w =
      ap (λ o. or_else (balance_of o) 0)
        (find-append_miss (is_holder token' holder') w.balances row apart)

with_balance-KeepsHolder : (n height : ℕ) → KeepsHolder (with_balance n height)
with_balance-KeepsHolder n height = record { token = λ b. refl; holder = λ b. refl }

with_height-KeepsHolder : (height : ℕ) → KeepsHolder (with_height height)
with_height-KeepsHolder height = record { token = λ b. refl; holder = λ b. refl }

module _ (token holder : ℕ) (d : Delta) (height : ℕ) where
  apply_to-found :
      (b : TokenBalance) (w : World)
      → find (is_holder token holder) w.balances ≡ some b
      → balance_at token holder (apply_to token holder d height (some b) w).0
        ≡ next_balance b.balance d
  apply_to-found b w e = ground (
    arith,
    find-write_same token holder (with_height height) (with_height-KeepsHolder height) w.balances b
        e,
    find-write_same token holder (with_balance (next_balance b.balance d) height)
        (with_balance-KeepsHolder (next_balance b.balance d) height) w.balances b e,
  )

  apply_to-missing :
      (w : World)
      → find (is_holder token holder) w.balances ≡ none
      → balance_at token holder (apply_to token holder d height none w).0 ≡ next_balance 0 d
  apply_to-missing w e = balance_at-insert_self token holder (next_balance 0 d) height none w e

  pub balance_at-apply_delta_self :
      (w : World)
      → balance_at token holder (apply_delta token holder d height w).0
        ≡ next_balance (balance_at token holder w) d
  unfolding apply_delta
  balance_at-apply_delta_self w = elim (Option-cases (find (is_holder token holder) w.balances)) [
    | inl e ↦ rw e (apply_to-missing w e)
    | inr (b, e) ↦ rw e (apply_to-found b w e)
  ]

  module _ (token' holder' : ℕ) (apart : same_key token holder token' holder' ≡ false) where
    apply_to-apart :
        (e : Option TokenBalance) (w : World)
        → balance_at token' holder' (apply_to token holder d height e w).0
          ≡ balance_at token' holder' w
    apply_to-apart (some b) w = ground (
      arith,
      find-write_apart token holder token' holder' (with_height height)
          (with_height-KeepsHolder height) apart w.balances,
      find-write_apart token holder token' holder' (with_balance (next_balance b.balance d) height)
          (with_balance-KeepsHolder (next_balance b.balance d) height) apart w.balances,
    )
    apply_to-apart none w =
        balance_at-insert_other token holder (next_balance 0 d) height none token' holder' apart w

    pub balance_at-apply_delta_other :
        (w : World)
        → balance_at token' holder' (apply_delta token holder d height w).0
          ≡ balance_at token' holder' w
    unfolding apply_delta
    balance_at-apply_delta_other w = apply_to-apart (find (is_holder token holder) w.balances) w

same_key_eq :
    (token holder token' holder' : ℕ)
    → same_key token holder token' holder' ≡ true
    → (token ≡ token') × (holder ≡ holder')
same_key_eq token holder token' holder' h = (ground arith, ground arith)

-- A family over keys holds at the key that the test takes for the same.
pub subst_key :
    (P : ℕ → ℕ → Type 0) (token holder token' holder' : ℕ)
    → same_key token holder token' holder' ≡ true
    → P token holder
    → P token' holder'
subst_key P token holder token' holder' h p =
    let (t, e) = same_key_eq token holder token' holder' h in
    subst (λ a. P a holder') t (subst (P token) e p)

balance_at-apply_delta_key :
    (token holder : ℕ) (d : Delta) (height token' holder' : ℕ) (w : World)
    → same_key token holder token' holder' ≡ true
    → balance_at token' holder' (apply_delta token holder d height w).0
      ≡ next_balance (balance_at token' holder' w) d
balance_at-apply_delta_key token holder d height token' holder' w same =
    subst_key
      (λ t h.
        balance_at t h (apply_delta token holder d height w).0 ≡ next_balance (balance_at t h w) d)
      token holder token' holder' same (balance_at-apply_delta_self token holder d height w)

-- After an upsert the holder has the next balance, and all others have what they had.
pub balance_at-apply_delta :
    (token holder : ℕ) (d : Delta) (height token' holder' : ℕ) (w : World)
    → balance_at token' holder' (apply_delta token holder d height w).0 ≡ (
        if same_key token holder token' holder'
        then next_balance (balance_at token' holder' w) d
        else balance_at token' holder' w)
balance_at-apply_delta token holder d height token' holder' w =
    elim (Bool-cases (same_key token holder token' holder')) [
      | inl same ↦ rw same (balance_at-apply_delta_key token holder d height token' holder' w same)
      | inr apart ↦
          rw apart (balance_at-apply_delta_other token holder d height token' holder' apart w)
    ]

abbrev reconciled : TokenBalance → ℕ → ℕ → ℕ → TokenBalance → TokenBalance
reconciled b value tip now row = record row {
  balance = value;
  updated_height = if b.balance == value then b.updated_height else tip;
  last_reconciled_at = some now;
}

reconciled-KeepsHolder :
    (b : TokenBalance) (value tip now : ℕ) → KeepsHolder (reconciled b value tip now)
reconciled-KeepsHolder b value tip now = record { token = λ b. refl; holder = λ b. refl }

module _ (token holder value tip now : ℕ) where
  pub balance_at-set_self :
      (w : World)
      → balance_at token holder (set_authoritative_balance token holder value tip now w).0 ≡ value
  unfolding set_authoritative_balance
  balance_at-set_self w = elim (Option-cases (find (is_holder token holder) w.balances)) [
    | inl e ↦ rw e (balance_at-insert_self token holder value tip (some now) w e)
    | inr (b, e) ↦ rw e (
        ground (
          arith,
          find-write_same token holder (reconciled b value tip now)
              (reconciled-KeepsHolder b value tip now) w.balances b e,
        ))
  ]

  module _ (token' holder' : ℕ) (apart : same_key token holder token' holder' ≡ false) where
    set_balance-apart :
        (e : Option TokenBalance) (w : World)
        → balance_at token' holder' (set_balance token holder value tip now e w).0
          ≡ balance_at token' holder' w
    set_balance-apart (some b) w =
        ap (λ o. or_else (balance_of o) 0)
          (find-write_apart token holder token' holder' (reconciled b value tip now)
            (reconciled-KeepsHolder b value tip now) apart w.balances)
    set_balance-apart none w =
        balance_at-insert_other token holder value tip (some now) token' holder' apart w

    pub balance_at-set_other :
        (w : World)
        → balance_at token' holder' (set_authoritative_balance token holder value tip now w).0
          ≡ balance_at token' holder' w
    unfolding set_authoritative_balance
    balance_at-set_other w = set_balance-apart (find (is_holder token holder) w.balances) w
