-- ===== src/Rewards/Payout/Runs.antt =====
-- The drain of the ledger, as a run of steps that others may interrupt.
use superhero_api.Base.{
  ℕ, zero, suc, ◌+◌, Bool, true, false, ◌&&◌, ◌||◌, Option, none, some, List, [], ◌∷◌, ◌≡◌, refl,
  ◌==◌, any, select, take, length, ltb, Bool-cases, inl, inr,
}
use superhero_api.Rewards.Payout.{
  Settings, Answer, LedgerRow, Ledger, has_amount, is_claimable, claim, transfer, spend_and_settle,
  pay_ledger_row,
}
use superhero_api.Rewards.Payout.Drain.{
  pay_next, pay_rows, drain_next, drain_fetched, drain, is_due, pay_pending_ledger,
}
use superhero_api.Rewards.Payout.System.{
  System, slip, Reach, skips, claims, spends, settles, here, next,
}

Reach-trans : (c : Settings) {s t u : System} → Reach c s t → Reach c t u → Reach c s u
Reach-trans c r here = r
Reach-trans c r (next q st) = next (Reach-trans c r q) st

abbrev pub ledger_of : System → Ledger
ledger_of s = record { rows = s.rows; transfers = s.transfers }

abbrev pub with_ledger : Ledger → List ℕ → System → System
with_ledger l slipped s = record s { rows = l.rows; transfers = l.transfers; slipped = slipped }

-- Steps lead from the system to one with that ledger, in which all else but `slipped` is as before.
abbrev pub Runs : Settings → System → Ledger → Type 0
Runs c s l = (slipped : List ℕ) × Reach c s (with_ledger l slipped s)

module _ (c : Settings) where
  Runs-trans :
      (s : System) (l m : Ledger) (h : Runs c s l) → Runs c (with_ledger l h.0 s) m → Runs c s m
  Runs-trans s l m (slipped, r) (slipped', q) = (slipped', Reach-trans c r q)

  spend_and_settle-Runs :
      (a : Answer) (row : LedgerRow) (s : System)
      → any (is_claimable row.id) s.rows ≡ true
      → Runs c s
          (spend_and_settle c a row
            (record { rows = claim row.id s.rows; transfers = s.transfers })).0
  spend_and_settle-Runs a row s e = (
    slip row.id a.on_chain a.outcome s.slipped,
    next
        (next (next here (claims s row e)) (
          spends (record s { rows = claim row.id s.rows; waiting = row ∷ s.waiting }) row a.outcome
            [] s.waiting refl))
        (settles
          (record s {
            rows = claim row.id s.rows;
            answered = record { row = row; outcome = a.outcome } ∷ s.answered;
            transfers = transfer row.id a.outcome s.transfers;
          })
          a (record { row = row; outcome = a.outcome }) [] s.answered refl),
  )

  pay_ledger_row-Runs :
      (a : Answer) (row : LedgerRow) (s : System)
      → Runs c s (pay_ledger_row c a row (ledger_of s)).0
  unfolding pay_ledger_row
  pay_ledger_row-Runs a row s = elim (Bool-cases (has_amount row.amount_aettos)) [
    | inr bad ↦ rw bad (s.slipped, next here (skips s row))
    | inl good ↦ elim (Bool-cases (any (is_claimable row.id) s.rows)) [
      | inl open_row ↦ rw (good, open_row) (spend_and_settle-Runs a row s open_row)
      | inr taken ↦ rw (good, taken) (s.slipped, here)
    ]
  ]

  pay_next-Runs :
      (s : System) (res : Ledger × Option Bool) (progressed : ℕ)
      (k : ℕ → Ledger → Ledger × Option ℕ)
      → Runs c s res.0
      → ((p : ℕ) (t : System) → Runs c t (k p (ledger_of t)).0)
      → Runs c s (pay_next res progressed k).0
  pay_next-Runs s (l, none) progressed k h rest = h
  pay_next-Runs s (l, some true) progressed k h rest =
      Runs-trans s l (k (progressed + 1) l).0 h (rest (progressed + 1) (with_ledger l h.0 s))
  pay_next-Runs s (l, some false) progressed k h rest =
      Runs-trans s l (k progressed l).0 h (rest progressed (with_ledger l h.0 s))

  pay_rows-Runs :
      (answer : LedgerRow → Answer) (rows : List LedgerRow) (progressed : ℕ) (s : System)
      → Runs c s (pay_rows c answer rows progressed (ledger_of s)).0
  pay_rows-Runs answer [] progressed s = (s.slipped, here)
  pay_rows-Runs answer (row ∷ rows) progressed s =
      pay_next-Runs s (pay_ledger_row c (answer row) row (ledger_of s)) progressed
        (pay_rows c answer rows) (pay_ledger_row-Runs (answer row) row s)
        (pay_rows-Runs answer rows)

  drain_next-Runs :
      (s : System) (fetched : ℕ) (k : Ledger → Ledger × Bool) (res : Ledger × Option ℕ)
      → Runs c s res.0
      → ((t : System) → Runs c t (k (ledger_of t)).0)
      → Runs c s (drain_next c fetched k res).0
  drain_next-Runs s fetched k (l, none) h rest = h
  drain_next-Runs s fetched k (l, some p) h rest =
      elim (p == 0 || ltb fetched c.ledger_batch_size)
        as (λ b. Runs c s (elim b as (λ b. Ledger × Bool) [ true ↦ (l, true) | false ↦ k l ]).0) [
          | true ↦ h
          | false ↦ Runs-trans s l (k l).0 h (rest (with_ledger l h.0 s))
        ]

  drain_fetched-Runs :
      (answer : LedgerRow → Answer) (rows : List LedgerRow) (k : Ledger → Ledger × Bool)
      (s : System)
      → ((t : System) → Runs c t (k (ledger_of t)).0)
      → Runs c s (drain_fetched c answer rows k (ledger_of s)).0
  drain_fetched-Runs answer [] k s rest = (s.slipped, here)
  drain_fetched-Runs answer (row ∷ rows) k s rest =
      drain_next-Runs s (length (row ∷ rows)) k (pay_rows c answer (row ∷ rows) 0 (ledger_of s))
        (pay_rows-Runs answer (row ∷ rows) 0 s) rest

  drain-Runs :
      (address : ℕ) (clock : ℕ → ℕ) (answer : ℕ → LedgerRow → Answer) (n : ℕ) (s : System)
      → Runs c s (drain c address clock answer n (ledger_of s)).0
  drain-Runs address clock answer zero s = (s.slipped, here)
  drain-Runs address clock answer (suc n) s =
      drain_fetched-Runs (answer n)
        (take c.ledger_batch_size (select (is_due address (clock n)) s.rows))
        (drain c address clock answer n) s (drain-Runs address clock answer n)

  -- Whatever is answered, a drain of an address's ledger is a run of the steps of entries, attempts and
  -- recoveries, from any state of the attempts of others, which it leaves as they are.
  pub pay_pending_ledger-Runs :
      (address : ℕ) (clock : ℕ → ℕ) (answer : ℕ → LedgerRow → Answer) (s : System)
      → Runs c s (pay_pending_ledger c address clock answer (ledger_of s)).0
  unfolding pay_pending_ledger
  pay_pending_ledger-Runs address clock answer s =
      elim (Bool-cases (c.per_post_enabled && c.has_private_key)) [
        | inl on ↦ rw on (drain-Runs address clock answer c.max_ledger_drain_runs s)
        | inr off ↦ rw off (s.slipped, here)
      ]
