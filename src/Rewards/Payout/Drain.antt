-- ===== src/Rewards/Payout/Drain.antt =====
-- src/profile/services/profile-x-posting-reward.service.ts: the drain of the rows
-- that are due, in runs over fetched pages.
use superhero_api.Base.{
  ℕ, zero, suc, ◌+◌, Bool, true, false, ◌&&◌, ◌||◌, Option, none, some, List, [], ◌∷◌, ◌==◌, leb,
  if◌then◌else◌, select, take, length, ltb,
}
use superhero_api.Rewards.Payout.{Settings, Answer, LedgerRow, Ledger, is_unpaid, pay_ledger_row}

abbrev pub is_past : ℕ → Option ℕ → Bool
is_past now none = true
is_past now (some t) = leb t now

-- The query of the rows that are due.
abbrev pub is_due : ℕ → ℕ → LedgerRow → Bool
is_due address now r = r.address == address && (is_unpaid r.status && is_past now r.next_retry_at)

abbrev pub pay_next :
    Ledger × Option Bool → ℕ → (ℕ → Ledger → Ledger × Option ℕ) → Ledger × Option ℕ
pay_next (s, none) progressed next = (s, none)
pay_next (s, some true) progressed next = next (progressed + 1) s
pay_next (s, some false) progressed next = next progressed s

-- The rows of one fetch, one after another, with how many advanced; an error leaves the loop.
abbrev pub pay_rows :
    Settings → (LedgerRow → Answer) → List LedgerRow → ℕ → Ledger → Ledger × Option ℕ
pay_rows c answer [] progressed s = (s, some progressed)
pay_rows c answer (row ∷ rows) progressed s =
    pay_next (pay_ledger_row c (answer row) row s) progressed (pay_rows c answer rows)

abbrev pub drain_next : Settings → ℕ → (Ledger → Ledger × Bool) → Ledger × Option ℕ → Ledger × Bool
drain_next c fetched next (s, none) = (s, false)
drain_next c fetched next (s, some progressed) =
    elim (progressed == 0 || ltb fetched c.ledger_batch_size) [ true ↦ (s, true) | false ↦ next s ]

abbrev pub drain_fetched :
    Settings
    → (LedgerRow → Answer)
    → List LedgerRow
    → (Ledger → Ledger × Bool)
    → Ledger
    → Ledger × Bool
drain_fetched c answer [] next s = (s, true)
drain_fetched c answer (row ∷ rows) next s =
    drain_next c (length (row ∷ rows)) next (pay_rows c answer (row ∷ rows) 0 s)

-- The runs of the drain, `n` of them left. The query has no order: the table's is taken.
abbrev pub drain : Settings → ℕ → (ℕ → ℕ) → (ℕ → LedgerRow → Answer) → ℕ → Ledger → Ledger × Bool
drain c address clock answer zero s = (s, true)
drain c address clock answer (suc n) s =
    drain_fetched c (answer n) (take c.ledger_batch_size (select (is_due address (clock n)) s.rows))
      (drain c address clock answer n) s

-- payPendingLedger, and whether it returned: it throws if an attempt does.
unfoldable pub pay_pending_ledger :
    Settings → ℕ → (ℕ → ℕ) → (ℕ → LedgerRow → Answer) → Ledger → Ledger × Bool
unfolding pay_ledger_row
pay_pending_ledger c address clock answer s =
    if c.per_post_enabled && c.has_private_key
    then drain c address clock answer c.max_ledger_drain_runs s
    else (s, true)
