-- ===== src/Rooms/Balances.antt =====
-- src/token-gated-rooms/services/balance-indexer.service.ts: which tokens are indexed, and the raw
-- balances of their holders. An address is a number, 0 for one that is empty or missing. The table
-- holds no negative balance, so a balance is a natural number. Between the read and the write of one
-- upsert no other write takes place.
pub mod Keyed
pub mod Upsert
pub mod Transfers
pub mod Sweep
use superhero_api.Base.{
  ℕ, ◌+◌, ◌-◌, ◌*◌, Bool, true, false, not, ◌&&◌, Option, none, some, List, [], ◌∷◌, ◌++◌, ◌==◌,
  ltb, leb, if◌then◌else◌, or_else, is_some, includes, find, update, dedup, select,
}
use superhero_api.Rooms.Store.{TokenBalance, World, emit, balance_changed}
use superhero_api.Rooms.Eligibility.{is_holder, balance_of}

-- The service's own state: the allowlist, when it was loaded, and whether a load is on its way.
pub record Allowlist : Type 0 where
  pub addresses : List ℕ
  pub loaded_at : ℕ
  pub reloading : Bool

-- `ttl` is communityTokenRefreshSec.
unfoldable pub is_stale : ℕ → ℕ → Allowlist → Bool
is_stale ttl now a = leb (ttl * 1000) (now - a.loaded_at)

-- refreshAllowlist, up to its query: a load that is on its way is shared.
unfoldable pub refresh_allowlist : Allowlist → Allowlist
refresh_allowlist a = record a { reloading = true }

-- The end of the load, with the addresses that were read, or `none` after an error.
unfoldable pub finish_refresh : ℕ → Option (List ℕ) → Allowlist → Allowlist
finish_refresh now (some rows) a = record {
  addresses = dedup (select (λ address. not (address == 0)) rows);
  loaded_at = now;
  reloading = false;
}
finish_refresh now none a = record a { loaded_at = now; reloading = false }

-- isCommunityToken: it answers from the snapshot, and starts a load when that is stale.
unfoldable pub is_community_token : ℕ → ℕ → ℕ → Allowlist → Allowlist × Bool
unfolding is_stale refresh_allowlist
is_community_token ttl now address a =
    if address == 0
    then (a, false)
    else (if is_stale ttl now a then refresh_allowlist a else a, includes address a.addresses)

unfoldable pub add_to_allowlist : ℕ → Allowlist → Allowlist
add_to_allowlist address a = if address == 0 then a else record a {
  addresses = if includes address a.addresses then a.addresses else a.addresses ++ address ∷ [];
}

-- A signed amount.
pub data Delta : Type 0 where
  credit debit : ℕ → Delta

-- The next balance, clamped at 0.
unfoldable pub next_balance : ℕ → Delta → ℕ
next_balance current (credit v) = current + v
next_balance current (debit v) = if ltb current v then 0 else current - v

-- What the table says of a holder; a holder without a row has nothing.
abbrev pub balance_at : ℕ → ℕ → World → ℕ
balance_at token holder w = or_else (balance_of (find (is_holder token holder) w.balances)) 0

-- `update` by the primary key.
abbrev pub write_balance : ℕ → ℕ → (TokenBalance → TokenBalance) → World → World
write_balance token holder f w = record w {
  balances = update (is_holder token holder) f w.balances;
}

abbrev pub insert_balance : TokenBalance → World → World
insert_balance b w = record w { balances = w.balances ++ b ∷ [] }

-- A saved entity leaves the columns alone that it does not name.
abbrev pub with_balance : ℕ → ℕ → TokenBalance → TokenBalance
with_balance balance height b = record b { balance = balance; updated_height = height }

abbrev pub with_height : ℕ → TokenBalance → TokenBalance
with_height height b = record b { updated_height = height }

abbrev pub apply_to : ℕ → ℕ → Delta → ℕ → Option TokenBalance → World → World × Option ℕ
apply_to token holder delta height (some b) w =
    let next = next_balance b.balance delta in
    if b.balance == next
    then (
      if ltb b.updated_height height then write_balance token holder (with_height height) w else w,
      none,
    )
    else (write_balance token holder (with_balance next height) w, some next)
apply_to token holder delta height none w =
    let next = next_balance 0 delta in
    (
      insert_balance
          (record {
            token_address = token;
            holder_address = holder;
            balance = next;
            updated_height = height;
            last_reconciled_at = none;
          })
          w,
      some next,
    )

-- applyDelta: the world, and the new balance if it changed.
unfoldable pub apply_delta : ℕ → ℕ → Delta → ℕ → World → World × Option ℕ
unfolding next_balance
apply_delta token holder delta height w =
    apply_to token holder delta height (find (is_holder token holder) w.balances) w

abbrev pub set_balance : ℕ → ℕ → ℕ → ℕ → ℕ → Option TokenBalance → World → World × Option ℕ
set_balance token holder value tip now (some b) w = (
  write_balance token holder
      (λ row. record row {
        balance = value;
        updated_height = if b.balance == value then b.updated_height else tip;
        last_reconciled_at = some now;
      })
      w,
  if b.balance == value then none else some value,
)
set_balance token holder value tip now none w = (
  insert_balance
      (record {
        token_address = token;
        holder_address = holder;
        balance = value;
        updated_height = tip;
        last_reconciled_at = some now;
      })
      w,
  some value,
)

-- setAuthoritativeBalance
unfoldable pub set_authoritative_balance : ℕ → ℕ → ℕ → ℕ → ℕ → World → World × Option ℕ
set_authoritative_balance token holder value tip now w =
    set_balance token holder value tip now (find (is_holder token holder) w.balances) w

unfoldable pub emit_balance_changed : ℕ → ℕ → World → World
emit_balance_changed token holder w = emit (balance_changed token holder) w
