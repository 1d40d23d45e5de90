-- ===== src/Rooms/Balances/Sweep/Healed.antt =====
-- The balance table after a sweep.
use superhero_api.Base.{
  ℕ, Bool, Option, none, some, List, [], ◌∷◌, ◌≡◌, refl, ap, ◌∙◌, arith, ◌==◌, if◌then◌else◌,
  or_else, any, find, update, Bool-cases, inl, inr,
}
use superhero_api.Base.Pages.{each}
use superhero_api.Rooms.Store.{TokenBalance, World}
use superhero_api.Rooms.Eligibility.{is_holder, balance_of}
use superhero_api.Rooms.Config.{Config}
use superhero_api.Rooms.Balances.{balance_at, set_authoritative_balance, emit_balance_changed}
use superhero_api.Rooms.Balances.Keyed.{same_key}
use superhero_api.Rooms.Balances.Upsert.{subst_key, balance_at-set_self, balance_at-set_other}
use superhero_api.Rooms.Balances.Sweep.{
  batch_of, read_authoritative_balance, with_reconciled, correct, correct_to, correct_row, run_once,
}

-- What the chain says of a holder, or what the table said where it could not be read.
abbrev pub chain_or : (ℕ → ℕ → Option (Option ℕ)) → ℕ → ℕ → ℕ → ℕ
chain_or chain token holder old = or_else (read_authoritative_balance (chain token holder)) old

-- A write that keeps key and balance is not seen in the balances.
balance_of-touch :
    (now token holder : ℕ) (p : TokenBalance → Bool) (rows : List TokenBalance)
    → balance_of (find (is_holder token holder) (update p (with_reconciled now) rows))
      ≡ balance_of (find (is_holder token holder) rows)
balance_of-touch now token holder p [] = refl
balance_of-touch now token holder p (r ∷ rs) =
    ground (arith, balance_of-touch now token holder p rs)

balances-correct :
    (token holder n : ℕ) (w : World) (p : World × Option ℕ)
    → (correct token holder (n, w) p).1.balances ≡ p.0.balances
unfolding emit_balance_changed
balances-correct token holder n w (w', none) = refl
balances-correct token holder n w (w', some v) = refl

balance_at-set :
    (token holder value tip now token' holder' : ℕ) (w : World)
    → balance_at token' holder' (set_authoritative_balance token holder value tip now w).0
      ≡ (if same_key token holder token' holder' then value else balance_at token' holder' w)
balance_at-set token holder value tip now token' holder' w =
    elim (Bool-cases (same_key token holder token' holder')) [
      | inl same ↦ rw same (
          subst_key
            (λ t h.
              balance_at t h (set_authoritative_balance token holder value tip now w).0 ≡ value)
            token holder token' holder' same (balance_at-set_self token holder value tip now w))
      | inr apart ↦
          rw apart (balance_at-set_other token holder value tip now token' holder' apart w)
    ]

module _ (now tip : ℕ) (chain : ℕ → ℕ → Option (Option ℕ)) (token holder : ℕ) where
  balance_at-correct_to :
      (row : TokenBalance) (answer : Option ℕ) (s : ℕ × World)
      → balance_at token holder (correct_to now tip row answer s).1 ≡ (
          if is_holder token holder row
          then or_else answer (balance_at token holder s.1)
          else balance_at token holder s.1)
  balance_at-correct_to row none (n, w) = ground (
    arith,
    balance_of-touch now token holder (is_holder row.token_address row.holder_address) w.balances,
  )
  balance_at-correct_to row (some v) (n, w) =
      ap (λ rows. or_else (balance_of (find (is_holder token holder) rows)) 0)
        (balances-correct row.token_address row.holder_address n w (
          set_authoritative_balance row.token_address row.holder_address v
            (if tip == 0 then row.updated_height else tip) now w))
      ∙ balance_at-set row.token_address row.holder_address v
          (if tip == 0 then row.updated_height else tip) now token holder w

  abbrev answer : TokenBalance → Option ℕ
  answer row = read_authoritative_balance (chain row.token_address row.holder_address)

  balance_at-correct_row :
      (row : TokenBalance) (s : ℕ × World)
      → balance_at token holder (correct_row now tip chain s row).1 ≡ (
          if is_holder token holder row
          then chain_or chain token holder (balance_at token holder s.1)
          else balance_at token holder s.1)
  unfolding correct_row
  balance_at-correct_row row s = elim (Bool-cases (is_holder token holder row)) [
    | inl hit ↦ ground (
      arith,
      balance_at-correct_to row (answer row) s,
      subst_key
          (λ t h.
            or_else (answer row) (balance_at token holder s.1)
            ≡ chain_or chain t h (balance_at token holder s.1))
          row.token_address row.holder_address token holder hit refl,
    )
    | inr miss ↦ ground (arith, balance_at-correct_to row (answer row) s)
  ]

  balance_at-each :
      (rows : List TokenBalance) (s : ℕ × World)
      → balance_at token holder (each (correct_row now tip chain) s rows).1 ≡ (
          if any (is_holder token holder) rows
          then chain_or chain token holder (balance_at token holder s.1)
          else balance_at token holder s.1)
  balance_at-each [] s = refl
  balance_at-each (r ∷ rs) s =
      ground (arith, balance_at-each rs (correct_row now tip chain s r), balance_at-correct_row r s)

-- After a sweep, the holders of its batch have what the chain says, where it could be read; all
-- other balances are as they were.
pub balance_at-run_once :
    (c : Config) (now : ℕ) (tip : Option ℕ) (chain : ℕ → ℕ → Option (Option ℕ)) (w : World)
    (token holder : ℕ)
    → balance_at token holder (run_once c now tip chain w).1 ≡ (
        if any (is_holder token holder) (batch_of c w)
        then chain_or chain token holder (balance_at token holder w)
        else balance_at token holder w)
unfolding run_once
balance_at-run_once c now tip chain w token holder =
    balance_at-each now (or_else tip 0) chain token holder (batch_of c w) (0, w)
