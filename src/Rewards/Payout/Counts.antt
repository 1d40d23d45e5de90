-- ===== src/Rewards/Payout/Counts.antt =====
-- What the writes of a payout do to the number of rows with an id, and of those that can be claimed.
use superhero_api.Base.{
  ℕ, ◌+◌, ◌≤◌, ◌<◌, Bool, true, false, not, ◌&&◌, Option, none, some, List, [], ◌∷◌, ◌≡◌, refl, ap,
  arith, ◌==◌, if◌then◌else◌, is_some, any, update,
}
use superhero_api.Base.Pick.{count-update}
use superhero_api.Base.Count.{count, count_mono}
use superhero_api.Rewards.Payout.{
  Settings, Answer, LedgerRow, Outcome, sent, rejected, real, has_id, is_claimable, mark_paid,
  mark_unconfirmed, mark_failed, claim, write, settle_rejected, settle, resolve_broadcasted_tx_hash,
  placeholder,
}

-- A test of a row's keys.
abbrev pub on_keys : (ℕ → ℕ → Option ℕ → Bool) → LedgerRow → Bool
on_keys q r = q r.id r.x_user_id r.tweet_utc_day

-- A write that keeps what a test reads keeps the number of the rows that satisfy it.
module _ (n : ℕ) where
  has_id_keep :
      (f : LedgerRow → LedgerRow)
      → ((r : LedgerRow) → (f r).id ≡ r.id)
      → (r : LedgerRow) → has_id n (f r) ≡ has_id n r
  has_id_keep f keep r = ap (λ k. k == n) (keep r)

  -- A write that opens no row leaves no more of them open.
  pub count-closes :
      (p : LedgerRow → Bool) (f : LedgerRow → LedgerRow)
      → ((r : LedgerRow) → is_claimable n (f r) ≡ true → is_claimable n r ≡ true)
      → (rows : List LedgerRow)
      → count (is_claimable n) (update p f rows) ≤ count (is_claimable n) rows
  count-closes p f closes [] = omega arith
  count-closes p f closes (r ∷ rows) = ground (arith, closes r, count-closes p f closes rows)

  pub count-claim :
      (m : ℕ) (rows : List LedgerRow)
      → count (is_claimable n) (claim m rows) ≡ (if m == n then 0 else count (is_claimable n) rows)
  count-claim m [] = ground arith
  count-claim m (r ∷ rows) = ground (arith, count-claim m rows)

  pub any-claimable :
      (rows : List LedgerRow) → any (is_claimable n) rows ≡ true → 0 < count (is_claimable n) rows
  any-claimable [] e = cc
  any-claimable (r ∷ rows) e = ground (arith, any-claimable rows)

  pub count-claimable-has_id :
      (rows : List LedgerRow) → count (is_claimable n) rows ≤ count (has_id n) rows
  count-claimable-has_id rows =
      count_mono (is_claimable n) (has_id n) (λ (r : LedgerRow) e. ground arith) rows

  -- A write of another id's row changes no number.
  count-claimable_other :
      (m : ℕ) (f : LedgerRow → LedgerRow)
      → ((r : LedgerRow) → (f r).id ≡ r.id)
      → (rows : List LedgerRow) → (m == n) ≡ false
      → count (is_claimable n) (update (has_id m) f rows) ≡ count (is_claimable n) rows
  count-claimable_other m f keep [] e = refl
  count-claimable_other m f keep (r ∷ rows) e =
      ground (arith, keep r, count-claimable_other m f keep rows)

-- The attempt's transfer reached the chain, and the code took it for one that did not.
abbrev pub has_slipped : (ℕ → Bool) → Outcome → Bool
has_slipped on_chain (sent h) = false
has_slipped on_chain (rejected e) =
    e.landed && not (is_some (resolve_broadcasted_tx_hash on_chain e))

abbrev pub reopens : (ℕ → Bool) → Outcome → Bool
reopens on_chain (sent h) = false
reopens on_chain (rejected e) = not (is_some (resolve_broadcasted_tx_hash on_chain e))

module _ (n : ℕ) (c : Settings) (a : Answer) (row : LedgerRow) where
  count-write :
      (saved : Bool) (f : LedgerRow → LedgerRow) (rows : List LedgerRow)
      → ((r : LedgerRow) → is_claimable n (f r) ≡ true → is_claimable n r ≡ true)
      → count (is_claimable n) (write saved row.id f rows).0 ≤ count (is_claimable n) rows
  count-write true f rows closes = count-closes n (has_id row.id) f closes rows
  count-write false f rows closes = omega arith

  count-write_any :
      (saved : Bool) (f : LedgerRow → LedgerRow) (rows : List LedgerRow)
      → ((r : LedgerRow) → (f r).id ≡ r.id)
      → count (has_id n) rows ≤ 1
      → count (is_claimable n) (write saved row.id f rows).0
        ≤ count (is_claimable n) rows + (if row.id == n then 1 else 0)
  count-write_any false f rows keep h = omega arith
  count-write_any true f rows keep h = ground (
    arith,
    count-update (has_id n) (has_id row.id) f (has_id_keep n f keep) rows,
    count-claimable-has_id n (update (has_id row.id) f rows),
    count-claimable_other n row.id f keep rows,
  )

  count-settle_sent :
      (saved : Bool) (h : Option ℕ) (rows : List LedgerRow)
      → count
          (is_claimable n)
          (if saved
            then write true row.id (mark_paid h) rows
            else write a.outcome_saved row.id (mark_unconfirmed (placeholder h)) rows).0
        ≤ count (is_claimable n) rows
  count-settle_sent true h rows = count-write true (mark_paid h) rows (λ r e. ground arith)
  count-settle_sent false h rows =
      count-write a.outcome_saved (mark_unconfirmed (placeholder h)) rows (λ r e. ground arith)

  count-settle_rejected :
      (o : Option ℕ) (rows : List LedgerRow)
      → count (has_id n) rows ≤ 1
      → count (is_claimable n) (settle_rejected c a row o rows).0
        ≤ count (is_claimable n) rows + (if row.id == n && not (is_some o) then 1 else 0)
  count-settle_rejected (some h) rows u = ground (
    arith,
    count-write a.outcome_saved (mark_unconfirmed (real h)) rows
        (λ (r : LedgerRow) e. ground arith),
  )
  count-settle_rejected none rows u = ground (
    arith,
    count-write_any a.outcome_saved (mark_failed c a.now (row.retry_count + 1)) rows
        (λ (r : LedgerRow). refl) u,
  )

  -- Only the write of a failure opens a row again, that of the attempt.
  pub count-settle :
      (o : Outcome) (rows : List LedgerRow)
      → count (has_id n) rows ≤ 1
      → count (is_claimable n) (settle c a row o rows).0
        ≤ count (is_claimable n) rows + (if row.id == n && reopens a.on_chain o then 1 else 0)
  count-settle (sent h) rows u = omega (arith, count-settle_sent a.paid_saved h rows)
  count-settle (rejected e) rows u =
      count-settle_rejected (resolve_broadcasted_tx_hash a.on_chain e) rows u

module _ (q : ℕ → ℕ → Option ℕ → Bool) (c : Settings) (a : Answer) (row : LedgerRow) where
  count-write_keys :
      (saved : Bool) (f : LedgerRow → LedgerRow) (rows : List LedgerRow)
      → ((r : LedgerRow) → on_keys q (f r) ≡ on_keys q r)
      → count (on_keys q) (write saved row.id f rows).0 ≡ count (on_keys q) rows
  count-write_keys true f rows keep = count-update (on_keys q) (has_id row.id) f keep rows
  count-write_keys false f rows keep = refl

  count-settle_sent_keys :
      (saved : Bool) (h : Option ℕ) (rows : List LedgerRow)
      → count
          (on_keys q)
          (if saved
            then write true row.id (mark_paid h) rows
            else write a.outcome_saved row.id (mark_unconfirmed (placeholder h)) rows).0
        ≡ count (on_keys q) rows
  count-settle_sent_keys true h rows = count-write_keys true (mark_paid h) rows (λ r. refl)
  count-settle_sent_keys false h rows =
      count-write_keys a.outcome_saved (mark_unconfirmed (placeholder h)) rows (λ r. refl)

  count-settle_rejected_keys :
      (o : Option ℕ) (rows : List LedgerRow)
      → count (on_keys q) (settle_rejected c a row o rows).0 ≡ count (on_keys q) rows
  count-settle_rejected_keys (some h) rows =
      count-write_keys a.outcome_saved (mark_unconfirmed (real h)) rows (λ r. refl)
  count-settle_rejected_keys none rows =
      count-write_keys a.outcome_saved (mark_failed c a.now (row.retry_count + 1)) rows (λ r. refl)

  pub count-settle_keys :
      (o : Outcome) (rows : List LedgerRow)
      → count (on_keys q) (settle c a row o rows).0 ≡ count (on_keys q) rows
  count-settle_keys (sent h) rows = count-settle_sent_keys a.paid_saved h rows
  count-settle_keys (rejected e) rows =
      count-settle_rejected_keys (resolve_broadcasted_tx_hash a.on_chain e) rows
