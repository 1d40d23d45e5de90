-- ===== src/Rewards/Payout/Sound.antt =====
-- Each step keeps what holds of an id.
use superhero_api.Base.{
  ℕ, suc, ◌+◌, ◌≤◌, Bool, true, false, ◌&&◌, List, [], ◌∷◌, ◌++◌, ◌≡◌, refl, ap, arith, ◌==◌,
  ==_iff, if◌then◌else◌, any, update, ◌⊎◌,
}
use superhero_api.Base.Count.{count, count-append, count_mono}
use superhero_api.Rewards.Payout.{
  Settings, Answer, LedgerRow, Outcome, sent, rejected, has_id, is_claimable, mark_claimed,
  mark_skipped, claim, settle, has_landed, transfer,
}
use superhero_api.Rewards.Payout.Recovery.{reconcile_row, is_confirmed, hash_eq, mark_reconciled}
use superhero_api.Rewards.Payout.Entry.{insert_or_ignore}
use superhero_api.Rewards.Payout.Counts.{
  count-closes, count-claim, any-claimable, count-claimable-has_id, has_slipped, reopens,
  count-settle, count-settle_keys,
}
use superhero_api.Base.Pick.{count-update}
use superhero_api.Rewards.Payout.System.{
  Answered, System, slip, Step, Reach, is_at, is_of, has_failed, IsSound, enters, skips, claims,
  spends, settles, stops_waiting, stops_answered, recovers, here, next,
}

count-remove {ℓ} :
    {A : Type ℓ} (p : A → Bool) (xs : List A) (before : List A) (x : A) (after : List A)
    → xs ≡ before ++ x ∷ after
    → count p xs ≡ (if p x then 1 else 0) + count p (before ++ after)
count-remove p xs before x after e =
    ground (arith, ap (count p) e, count-append p before (x ∷ after), count-append p before after)

-- An attempt that opens its row again had sent nothing, or its transfer slipped.
reopens_cases :
    (on_chain : ℕ → Bool) (o : Outcome)
    → reopens on_chain o ≡ true
    → (has_landed o ≡ false) ⊎ (has_slipped on_chain o ≡ true)
reopens_cases on_chain (sent h) e = cc
reopens_cases on_chain (rejected e) r = ground arith

claimable_same :
    (n m : ℕ) (rows : List LedgerRow)
    → (m == n) ≡ true
    → count (is_claimable m) rows ≡ count (is_claimable n) rows
claimable_same n m rows e = ap (λ k. count (is_claimable k) rows) ((==_iff m n).0 e)

count-failed : (n : ℕ) (xs : List Answered) → count (has_failed n) xs ≤ count (is_of n) xs
count-failed n xs = count_mono (has_failed n) (is_of n) (λ (x : Answered) e. ground arith) xs

module _ (n : ℕ) (s : System) (h : IsSound n s) where
  enters-IsSound :
      (address x t d amount : ℕ)
      → IsSound n (record s {
        rows = insert_or_ignore s.next_id address x t d amount s.rows;
        next_id = s.next_id + 1;
      })
  enters-IsSound address x t d amount = record {
    paid_once =
        ground
          (arith, h.paid_once, h.fresh, count-failed n s.answered, count-claimable-has_id n s.rows);
    single = ground (arith, h.single, h.fresh);
    fresh = λ later. ground (arith, h.fresh);
  }

  -- A write that keeps the ids and opens no row.
  closes-IsSound :
      (p : LedgerRow → Bool) (f : LedgerRow → LedgerRow)
      → ((r : LedgerRow) → has_id n (f r) ≡ has_id n r)
      → ((r : LedgerRow) → is_claimable n (f r) ≡ true → is_claimable n r ≡ true)
      → IsSound n (record s { rows = update p f s.rows })
  closes-IsSound p f keep closes = record {
    paid_once = omega (arith, h.paid_once, count-closes n p f closes s.rows);
    single = omega (arith, h.single, count-update (has_id n) p f keep s.rows);
    fresh = λ later. omega (arith, h.fresh later, count-update (has_id n) p f keep s.rows);
  }

  claims-IsSound :
      (row : LedgerRow)
      → any (is_claimable row.id) s.rows ≡ true
      → IsSound n (record s { rows = claim row.id s.rows; waiting = row ∷ s.waiting })
  claims-IsSound row e = record {
    paid_once = ground (
      arith,
      h.paid_once,
      count-claim n row.id s.rows,
      any-claimable row.id s.rows e,
      claimable_same n row.id s.rows,
    );
    single = omega (
      arith,
      h.single,
      count-update (has_id n) (is_claimable row.id) mark_claimed (λ r. refl) s.rows,
    );
    fresh = λ later. ground (
      arith,
      h.fresh later,
      count-update (has_id n) (is_claimable row.id) mark_claimed (λ (r : LedgerRow). refl) s.rows,
      any-claimable row.id s.rows e,
      claimable_same n row.id s.rows,
      count-claimable-has_id n s.rows,
    );
  }

  spends-IsSound :
      (row : LedgerRow) (o : Outcome) (before after : List LedgerRow)
      → s.waiting ≡ before ++ row ∷ after
      → IsSound n (record s {
        waiting = before ++ after;
        answered = record { row = row; outcome = o } ∷ s.answered;
        transfers = transfer row.id o s.transfers;
      })
  spends-IsSound row o before after e =
      let split = count-remove (has_id n) s.waiting before row after e in
      record {
        paid_once = ground (arith, h.paid_once, split);
        single = h.single;
        fresh = λ later. ground (arith, h.fresh later, split);
      }

  settles_once :
      (c : Settings) (a : Answer) (x : Answered) (before after : List Answered)
      → s.answered ≡ before ++ x ∷ after
      → count (is_at n) s.transfers
          + count (is_claimable n) (settle c a x.row x.outcome s.rows).0
          + count (has_id n) s.waiting
          + count (has_failed n) (before ++ after)
        ≤ suc (count (is_at n) (slip x.row.id a.on_chain x.outcome s.slipped))
  settles_once c a x before after e = ground (
    arith,
    h.paid_once,
    h.single,
    count-settle n c a x.row x.outcome s.rows,
    count-remove (has_failed n) s.answered before x after e,
    reopens_cases a.on_chain x.outcome,
  )

  settles-IsSound :
      (c : Settings) (a : Answer) (x : Answered) (before after : List Answered)
      → s.answered ≡ before ++ x ∷ after
      → IsSound n (record s {
        rows = (settle c a x.row x.outcome s.rows).0;
        answered = before ++ after;
        slipped = slip x.row.id a.on_chain x.outcome s.slipped;
      })
  settles-IsSound c a x before after e =
      let same = count-settle_keys (λ i u d. i == n) c a x.row x.outcome s.rows in
      record {
        paid_once = settles_once c a x before after e;
        single = omega (arith, h.single, same);
        fresh = λ later.
            omega (arith, h.fresh later, same, count-remove (is_of n) s.answered before x after e);
      }

  stops_waiting-IsSound :
      (row : LedgerRow) (before after : List LedgerRow)
      → s.waiting ≡ before ++ row ∷ after
      → IsSound n (record s { waiting = before ++ after })
  stops_waiting-IsSound row before after e =
      let split = count-remove (has_id n) s.waiting before row after e in
      record {
        paid_once = omega (arith, h.paid_once, split);
        single = h.single;
        fresh = λ later. omega (arith, h.fresh later, split);
      }

  stops_answered-IsSound :
      (x : Answered) (before after : List Answered)
      → s.answered ≡ before ++ x ∷ after
      → IsSound n (record s { answered = before ++ after })
  stops_answered-IsSound x before after e = record {
    paid_once = omega (arith, h.paid_once, count-remove (has_failed n) s.answered before x after e);
    single = h.single;
    fresh =
        λ later. omega (arith, h.fresh later, count-remove (is_of n) s.answered before x after e);
  }

  recovers-IsSound :
      (on_chain : ℕ → Bool) (row : LedgerRow)
      → IsSound n (record s { rows = reconcile_row on_chain row s.rows })
  recovers-IsSound on_chain row =
      elim (is_confirmed on_chain row.tx_hash)
        as (λ b. IsSound n (record s {
          rows =
              if b
              then update (λ r. r.id == row.id && hash_eq r.tx_hash row.tx_hash) mark_reconciled
                  s.rows
              else s.rows;
        })) [
          | true ↦
              closes-IsSound (λ r. r.id == row.id && hash_eq r.tx_hash row.tx_hash) mark_reconciled
                (λ r. refl) (λ r e. ground arith)
          | false ↦ record { paid_once = h.paid_once; single = h.single; fresh = h.fresh }
        ]

module _ (c : Settings) where
  Step-IsSound : (n : ℕ) {s t : System} → Step c s t → IsSound n s → IsSound n t
  Step-IsSound n (enters s address x t d amount) h = enters-IsSound n s h address x t d amount
  Step-IsSound n (skips s row) h =
      closes-IsSound n s h (has_id row.id) mark_skipped (λ r. refl) (λ r e. ground arith)
  Step-IsSound n (claims s row e) h = claims-IsSound n s h row e
  Step-IsSound n (spends s row o before after e) h = spends-IsSound n s h row o before after e
  Step-IsSound n (settles s a x before after e) h = settles-IsSound n s h c a x before after e
  Step-IsSound n (stops_waiting s row before after e) h =
      stops_waiting-IsSound n s h row before after e
  Step-IsSound n (stops_answered s x before after e) h =
      stops_answered-IsSound n s h x before after e
  Step-IsSound n (recovers s on_chain row) h = recovers-IsSound n s h on_chain row

  pub Reach-IsSound : (n : ℕ) {s t : System} → IsSound n s → Reach c s t → IsSound n t
  Reach-IsSound n h here = h
  Reach-IsSound n h (next r st) = Step-IsSound n st (Reach-IsSound n h r)

abbrev pub empty_system : System
empty_system = record {
  rows = [];
  next_id = 1;
  waiting = [];
  answered = [];
  transfers = [];
  slipped = [];
}

pub empty-IsSound : (n : ℕ) → IsSound n empty_system
empty-IsSound n = record { paid_once = omega arith; single = omega arith; fresh = λ e. refl }
