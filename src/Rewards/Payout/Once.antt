-- ===== src/Rewards/Payout/Once.antt =====
-- What an X identity is paid for the posts of one day.
use superhero_api.Base.{
  ℕ, suc, ◌≤◌, Bool, true, false, ◌&&◌, some, List, [], ◌∷◌, ◌≡◌, refl, arith, ◌==◌, if◌then◌else◌,
  any, update, opt_eq, Bool-cases, inl, inr, ◌⊎◌,
}
use superhero_api.Base.Count.{count, count_ext, count_zero}
use superhero_api.Rewards.Payout.{
  Settings, LedgerRow, has_id, is_claimable, mark_claimed, mark_skipped,
}
use superhero_api.Rewards.Payout.Recovery.{reconcile_row, is_confirmed, hash_eq, mark_reconciled}
use superhero_api.Rewards.Payout.Entry.{clashes}
use superhero_api.Rewards.Payout.Counts.{count-settle_keys}
use superhero_api.Base.Pick.{count-update}
use superhero_api.Rewards.Payout.System.{
  System, Step, Reach, is_at, enters, skips, claims, spends, settles, stops_waiting, stops_answered,
  recovers, here, next,
}
use superhero_api.Rewards.Payout.Sound.{Reach-IsSound, empty_system, empty-IsSound}

abbrev pub is_on : ℕ → ℕ → LedgerRow → Bool
is_on x_user_id day r = r.x_user_id == x_user_id && opt_eq r.tweet_utc_day (some day)

-- An id of a row that is the identity's for the day.
abbrev pub is_paid_on : ℕ → ℕ → List LedgerRow → ℕ → Bool
is_paid_on x_user_id day rows i = any (λ r. r.id == i && is_on x_user_id day r) rows

module _ (x d : ℕ) where
  free_day :
      (t day : ℕ) (user : ℕ) (rows : List LedgerRow)
      → any (clashes user t day) rows ≡ false
      → (user == x && day == d) ≡ true
      → count (is_on x d) rows ≡ 0
  free_day t day user [] e k = refl
  free_day t day user (r ∷ rows) e k = ground (arith, free_day t day user rows)

  count-reconcile_row :
      (on_chain : ℕ → Bool) (row : LedgerRow) (rows : List LedgerRow)
      → count (is_on x d) (reconcile_row on_chain row rows) ≡ count (is_on x d) rows
  count-reconcile_row on_chain row rows =
      elim (is_confirmed on_chain row.tx_hash)
        as (λ b.
          count (is_on x d) (
            if b
            then update (λ r. r.id == row.id && hash_eq r.tx_hash row.tx_hash) mark_reconciled rows
            else rows)
          ≡ count (is_on x d) rows) [
            | true ↦
                count-update (is_on x d) (λ r. r.id == row.id && hash_eq r.tx_hash row.tx_hash)
                  mark_reconciled (λ r. refl) rows
            | false ↦ refl
          ]

  Step-daily :
      (c : Settings) {s t : System}
      → Step c s t
      → count (is_on x d) s.rows ≤ 1
      → count (is_on x d) t.rows ≤ 1
  Step-daily c (enters s address user t day amount) h = ground (arith, free_day t day user s.rows)
  Step-daily c (skips s row) h =
      omega (arith, h, count-update (is_on x d) (has_id row.id) mark_skipped (λ r. refl) s.rows)
  Step-daily c (claims s row e) h =
      omega
        (arith, h, count-update (is_on x d) (is_claimable row.id) mark_claimed (λ r. refl) s.rows)
  Step-daily c (spends s row o before after e) h = h
  Step-daily c (settles s a y before after e) h = omega (
    arith,
    h,
    count-settle_keys (λ i u day. u == x && opt_eq day (some d)) c a y.row y.outcome s.rows,
  )
  Step-daily c (stops_waiting s row before after e) h = h
  Step-daily c (stops_answered s y before after e) h = h
  Step-daily c (recovers s on_chain row) h =
      omega (arith, h, count-reconcile_row on_chain row s.rows)

  Reach-daily :
      (c : Settings) {s t : System}
      → count (is_on x d) s.rows ≤ 1
      → Reach c s t
      → count (is_on x d) t.rows ≤ 1
  Reach-daily c h here = h
  Reach-daily c h (next r st) = Step-daily c st (Reach-daily c h r)

  no_row :
      (rows : List LedgerRow) → count (is_on x d) rows ≡ 0 → (i : ℕ) → is_paid_on x d rows i ≡ false
  no_row [] e i = refl
  no_row (r ∷ rows) e i = ground (arith, no_row rows (ground arith) i)

  -- At most one row: no id is one of the day's, or just one.
  one_row :
      (rows : List LedgerRow)
      → count (is_on x d) rows ≤ 1
      → ((i : ℕ) → is_paid_on x d rows i ≡ false)
        ⊎ ((k : ℕ) × ((i : ℕ) → is_paid_on x d rows i ≡ is_at k i))
  one_row [] h = inl (λ i. refl)
  one_row (r ∷ rows) h = elim (Bool-cases (is_on x d r)) [
    | inl hit ↦ inr (r.id, λ i. ground (arith, no_row rows (ground arith) i))
    | inr miss ↦ elim (one_row rows (ground arith)) [
      | inl nowhere ↦ inl (λ i. ground (arith, nowhere i))
      | inr (k, only) ↦ inr (k, λ i. ground (arith, only i))
    ]
  ]

-- However entries of posts, attempts at payouts, crashes and recoveries follow one another, in one
-- process or several, from an empty ledger: for the posts of an X identity on one day no more transfers
-- reach the chain than one, and one more for each that the code took for a failure.
pub paid_once_a_day :
    (c : Settings) (s : System) (x d : ℕ)
    → Reach c empty_system s
    → count (is_paid_on x d s.rows) s.transfers ≤ suc (count (is_paid_on x d s.rows) s.slipped)
paid_once_a_day c s x d r = elim (one_row x d s.rows (Reach-daily x d c (omega arith) r)) [
  | inl nowhere ↦ omega (arith, count_zero (is_paid_on x d s.rows) nowhere s.transfers)
  | inr (k, only) ↦ omega (
    arith,
    (Reach-IsSound c k (empty-IsSound k) r).paid_once,
    count_ext (is_paid_on x d s.rows) (is_at k) only s.transfers,
    count_ext (is_paid_on x d s.rows) (is_at k) only s.slipped,
  )
]
