-- ===== src/Rewards/Payout/System.antt =====
-- Attempts at payouts that overlap, of one process or of several, with crashes and recoveries.
use superhero_api.Base.{
  ℕ, suc, ◌+◌, ◌≤◌, Bool, true, not, ◌&&◌, List, ◌∷◌, ◌++◌, ◌≡◌, ◌==◌, if◌then◌else◌, any, update,
}
use superhero_api.Base.Count.{count}
use superhero_api.Rewards.Payout.{
  Settings, Answer, LedgerRow, Outcome, has_id, is_claimable, mark_skipped, claim, settle,
  has_landed, transfer,
}
use superhero_api.Rewards.Payout.Recovery.{reconcile_row}
use superhero_api.Rewards.Payout.Entry.{insert_or_ignore}
use superhero_api.Rewards.Payout.Counts.{has_slipped}

-- An attempt after its spend.
pub record Answered : Type 0 where
  pub row : LedgerRow
  pub outcome : Outcome

-- The table with the next id, the attempts that have claimed their row and not yet spent, those that
-- have spent and not yet written, the ids of the transfers, and those of the transfers that the code
-- took for failures.
pub record System : Type 0 where
  pub rows : List LedgerRow
  pub next_id : ℕ
  pub waiting : List LedgerRow
  pub answered : List Answered
  pub transfers : List ℕ
  pub slipped : List ℕ

abbrev pub slip : ℕ → (ℕ → Bool) → Outcome → List ℕ → List ℕ
slip id on_chain o slipped = if has_slipped on_chain o then id ∷ slipped else slipped

module _ (c : Settings) where
  -- One step, of any process. The row of an attempt was read at any earlier time.
  pub data Step : System → System → Type 0 where
    enters :
        (s : System) (address x_user_id tweet_id day amount : ℕ)
        → Step s (record s {
          rows = insert_or_ignore s.next_id address x_user_id tweet_id day amount s.rows;
          next_id = s.next_id + 1;
        })
    skips :
        (s : System) (row : LedgerRow)
        → Step s (record s { rows = update (has_id row.id) mark_skipped s.rows })
    claims :
        (s : System) (row : LedgerRow)
        → any (is_claimable row.id) s.rows ≡ true
        → Step s (record s { rows = claim row.id s.rows; waiting = row ∷ s.waiting })
    spends :
        (s : System) (row : LedgerRow) (o : Outcome) (before after : List LedgerRow)
        → s.waiting ≡ before ++ row ∷ after
        → Step s (record s {
          waiting = before ++ after;
          answered = record { row = row; outcome = o } ∷ s.answered;
          transfers = transfer row.id o s.transfers;
        })
    settles :
        (s : System) (a : Answer) (x : Answered) (before after : List Answered)
        → s.answered ≡ before ++ x ∷ after
        → Step s (record s {
          rows = (settle c a x.row x.outcome s.rows).0;
          answered = before ++ after;
          slipped = slip x.row.id a.on_chain x.outcome s.slipped;
        })
    stops_waiting :
        (s : System) (row : LedgerRow) (before after : List LedgerRow)
        → s.waiting ≡ before ++ row ∷ after
        → Step s (record s { waiting = before ++ after })
    stops_answered :
        (s : System) (x : Answered) (before after : List Answered)
        → s.answered ≡ before ++ x ∷ after
        → Step s (record s { answered = before ++ after })
    recovers :
        (s : System) (on_chain : ℕ → Bool) (row : LedgerRow)
        → Step s (record s { rows = reconcile_row on_chain row s.rows })

  pub data Reach (s : System) : System → Type 0 where
    here : Reach s s
    next : {t u : System} → Reach s t → Step t u → Reach s u

abbrev pub is_at : ℕ → ℕ → Bool
is_at n i = i == n

abbrev pub is_of : ℕ → Answered → Bool
is_of n x = x.row.id == n

abbrev pub has_failed : ℕ → Answered → Bool
has_failed n x = x.row.id == n && not (has_landed x.outcome)

-- What holds of each id.
pub record IsSound (n : ℕ) (s : System) : Type 0 where
  pub paid_once :
      count (is_at n) s.transfers
        + count (is_claimable n) s.rows
        + count (has_id n) s.waiting
        + count (has_failed n) s.answered
      ≤ suc (count (is_at n) s.slipped)
  pub single : count (has_id n) s.rows ≤ 1
  pub fresh :
      s.next_id ≤ n
      → count (has_id n) s.rows
          + count (has_id n) s.waiting
          + count (is_of n) s.answered
          + count (is_at n) s.transfers
        ≡ 0
