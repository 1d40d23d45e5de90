-- ===== src/Rooms/Access/Ledger.antt =====
-- recordAccessTransition of membership-access.service.ts and the order of the ledger: for each member
-- grant, revoke, grant, and so on, with the row's access state that of the last event.
pub mod Transition
use superhero_api.Base.{
  ℕ, Bool, true, false, not, ◌&&◌, Option, none, some, List, [], ◌∷◌, ◌≡◌, refl, ap, subst, ◌∙◌,
  inl, inr, arith, ◌==◌, ==_iff, if◌then◌else◌, length, find, select, any, update, Bool-cases,
}
use Prim.Native.String.{String}
use superhero_api.Base.Keys.{by_id}
use superhero_api.Rooms.Store.{
  AccessState, no_access, granted, is_granted, Membership, access_granted, access_revoked,
  AccessEvent, World, is_member, find_member, update_row,
}
use superhero_api.Rooms.Rows.{
  HasIds, row_id, KeepsKey, HasIds-update, find-write_self, find-write_other,
}
use superhero_api.Rooms.Access.{is_grant, is_of, disarm, arm, set_access, prior_grants}

abbrev pub history : ℕ → ℕ → List AccessEvent → List AccessEvent
history sale address = select (is_of sale address)

abbrev is_nil : List AccessEvent → Bool
is_nil [] = true
is_nil (e ∷ es) = false

-- Newest first.
pub data Alternates : AccessState → List AccessEvent → Type 0 where
  start : Alternates no_access []
  grant :
      (e : AccessEvent) (es : List AccessEvent)
      → Alternates no_access es
      → e.event ≡ access_granted
      → e.is_first_grant ≡ is_nil es
      → Alternates granted (e ∷ es)
  revoke :
      (e : AccessEvent) (es : List AccessEvent)
      → Alternates granted es
      → e.event ≡ access_revoked
      → e.is_first_grant ≡ false
      → Alternates no_access (e ∷ es)

abbrev pub access_of : Option Membership → AccessState
access_of none = no_access
access_of (some m) = m.access_state

pub record IsLedgered (w : World) : Type 0 where
  pub ids : HasIds w.memberships
  pub alternates :
      (sale address : ℕ)
      → Alternates (access_of (find_member sale address w)) (history sale address w.ledger)

-- A row that was read from the table at some time: it still has its id there.
pub record IsSnapshot (row : Membership) (w : World) : Type 0 where
  pub current : Membership
  pub found : find_member row.sale_address row.member_address w ≡ some current
  pub same_id : current.id ≡ row.id

access-update :
    {f : Membership → Membership} (k : KeepsKey f)
    → ((m : Membership) → (f m).access_state ≡ m.access_state)
    → (p : Membership → Bool) (sale address : ℕ) (rows : List Membership)
    → access_of (find (is_member sale address) (update p f rows))
      ≡ access_of (find (is_member sale address) rows)
access-update k keeps p sale address [] = refl
access-update k keeps p sale address (x ∷ xs) =
    ground (arith, k.sale x, k.address x, keeps x, access-update k keeps p sale address xs)

-- A write that leaves the access columns alone.
pub quiet-IsLedgered :
    {f : Membership → Membership} (k : KeepsKey f)
    → ((m : Membership) → (f m).access_state ≡ m.access_state)
    → (p : Membership → Bool) (w w' : World) → w'.memberships ≡ update p f w.memberships
    → w'.ledger ≡ w.ledger
    → IsLedgered w
    → IsLedgered w'
quiet-IsLedgered {f} k keeps p w w' rows same v = record {
  ids = rw rows (HasIds-update k p w.memberships v.ids);
  alternates = λ sale address.
      rw (rows, same, access-update k keeps p sale address w.memberships)
        (v.alternates sale address);
}

by_id_self : (a : ℕ) (b : Bool) → b ≡ true → (a == a && b) ≡ true
by_id_self a b h = ground arith

-- A write that flips one member's access, with its event.
module _ {f : Membership → Membership} (k : KeepsKey f) (r : Membership → Bool) (w w' : World)
    (current : Membership) (e : AccessEvent)
    (found : find_member e.sale_address e.member_address w ≡ some current)
    (rows : w'.memberships ≡ update (by_id row_id current.id r) f w.memberships)
    (ledger : w'.ledger ≡ e ∷ w.ledger) where
  flip_self :
      r current ≡ true
      → Alternates (f current).access_state (e ∷ history e.sale_address e.member_address w.ledger)
      → Alternates
          (access_of (find_member e.sale_address e.member_address w'))
          (history e.sale_address e.member_address w'.ledger)
  flip_self hit next =
      rw
        (
          rows,
          ledger,
          find-write_self k (by_id row_id current.id r) e.sale_address e.member_address
              w.memberships current found (by_id_self current.id (r current) hit),
          by_id_self e.sale_address (e.member_address == e.member_address)
              ((==_iff e.member_address e.member_address).1 refl),
        )
        next

  flip_other :
      (sale address : ℕ)
      → HasIds w.memberships
      → (e.sale_address == sale && e.member_address == address) ≡ false
      → Alternates (access_of (find_member sale address w)) (history sale address w.ledger)
      → Alternates (access_of (find_member sale address w')) (history sale address w'.ledger)
  flip_other sale address ids other before =
      rw
        (
          rows,
          ledger,
          other,
          find-write_other k r e.sale_address e.member_address sale address w.memberships current
              ids found other,
        )
        before

  pub flip-IsLedgered :
      r current ≡ true
      → Alternates (f current).access_state (e ∷ history e.sale_address e.member_address w.ledger)
      → IsLedgered w
      → IsLedgered w'
  flip-IsLedgered hit next v = record {
    ids = rw rows (HasIds-update k (by_id row_id current.id r) w.memberships v.ids);
    alternates = λ sale address.
        elim (Bool-cases (e.sale_address == sale && e.member_address == address)) [
          | inl same ↦
              subst
                (λ s.
                  Alternates (access_of (find_member s address w')) (history s address w'.ledger))
                ((==_iff e.sale_address sale).0 (ground arith))
                (subst
                  (λ a.
                    Alternates (access_of (find_member e.sale_address a w'))
                      (history e.sale_address a w'.ledger))
                  ((==_iff e.member_address address).0 (ground arith)) (flip_self hit next))
          | inr other ↦ flip_other sale address v.ids other (v.alternates sale address)
        ];
  }

-- Whether the code counts earlier grants or looks for any event, the first grant is the same one.
prior_grants-eq :
    (sale address : ℕ) (es : List AccessEvent)
    → prior_grants sale address es ≡ length (select is_grant (history sale address es))
unfolding prior_grants
prior_grants-eq sale address [] = refl
prior_grants-eq sale address (e ∷ es) = ground (arith, prior_grants-eq sale address es)

first_grant :
    (es : List AccessEvent)
    → Alternates no_access es
    → (length (select is_grant es) == 0) ≡ is_nil es
first_grant [] a = refl
first_grant (e ∷ es) (revoke _ _ (grant e' es' _ g _) r _) = ground arith

pub disarm-KeepsKey : KeepsKey disarm
disarm-KeepsKey = record { sale = λ m. refl; address = λ m. refl; id = λ m. refl }

pub arm-KeepsKey : (now : ℕ) (reason : String) → KeepsKey (arm now reason)
arm-KeepsKey now reason = record { sale = λ m. refl; address = λ m. refl; id = λ m. refl }

pub set_access-KeepsKey : (now : ℕ) (s : AccessState) → KeepsKey (set_access now s)
set_access-KeepsKey now s = record { sale = λ m. refl; address = λ m. refl; id = λ m. refl }

pub disarm-IsLedgered : (id : ℕ) (w : World) → IsLedgered w → IsLedgered (update_row id disarm w)
disarm-IsLedgered id w v =
    quiet-IsLedgered disarm-KeepsKey (λ m. refl) (λ m. m.id == id) w _ refl refl v

not_granted : (a : AccessState) → not (is_granted a) ≡ true → a ≡ no_access
not_granted no_access h = refl
not_granted granted h = cc

pub is_granted→granted : (a : AccessState) → is_granted a ≡ true → a ≡ granted
is_granted→granted granted h = refl
is_granted→granted no_access h = cc

-- The history of a member whose row is known.
pub history-Alternates :
    (row current : Membership) (w : World) (a : AccessState)
    → IsLedgered w
    → find_member row.sale_address row.member_address w ≡ some current
    → current.access_state ≡ a
    → Alternates a (history row.sale_address row.member_address w.ledger)
history-Alternates row current w a v found e =
    subst (λ x. Alternates x (history row.sale_address row.member_address w.ledger))
      (ap access_of found ∙ e) (v.alternates row.sale_address row.member_address)
