-- ===== src/Rooms/Eligibility/Transition.antt =====
-- nextRelayState of eligibility.service.ts: its transitions.
use superhero_api.Base.{
  ◌&&◌, Bool, true, false, Option, none, some, ◌≡◌, refl, ◌⊎◌, inl, inr, arith,
}
use superhero_api.Rooms.Store.{
  Role, member, admin, RelayState, pending_add, added, pending_remove, removed,
}
use superhero_api.Rooms.Eligibility.{next_relay_state}

abbrev pub is_added : Option RelayState → Bool
is_added (some added) = true
is_added (some pending_add) = false
is_added (some pending_remove) = false
is_added (some removed) = false
is_added none = false

-- The transitions that the service asks for, one for each case. A linked member who was added stays;
-- only a relay ACK leads to a new `added`.
pub data Wanted (eligible linked : Bool) (role : Role)
    : Option RelayState → RelayState → Type 0 where
  invite :
      {prev : Option RelayState}
      → eligible ≡ true
      → (linked && is_added prev) ≡ false
      → Wanted eligible linked role prev pending_add
  stay :
      (s : RelayState)
      → eligible ≡ true
      → linked ≡ true
      → s ≡ added
      → Wanted eligible linked role (some s) s
  exempt :
      (s : RelayState) → eligible ≡ false → role ≡ admin → Wanted eligible linked role (some s) s
  seed : eligible ≡ false → role ≡ admin → Wanted eligible linked role none pending_add
  evict :
      (s : RelayState)
      → eligible ≡ false
      → role ≡ member
      → (s ≡ added) ⊎ (s ≡ pending_add)
      → Wanted eligible linked role (some s) pending_remove
  gone :
      (s : RelayState)
      → eligible ≡ false
      → role ≡ member
      → (s ≡ removed) ⊎ (s ≡ pending_remove)
      → Wanted eligible linked role (some s) s
  absent : eligible ≡ false → role ≡ member → Wanted eligible linked role none removed

-- Every transition that the service asks for is one of the listed ones.
pub next_relay_state-Wanted :
    (eligible linked : Bool) (role : Role) (prev : Option RelayState)
    → Wanted eligible linked role prev (next_relay_state eligible linked role prev)
unfolding next_relay_state
next_relay_state-Wanted true false role prev = invite refl refl
next_relay_state-Wanted true true role none = invite refl refl
next_relay_state-Wanted true true role (some pending_add) = invite refl refl
next_relay_state-Wanted true true role (some added) = stay added refl refl refl
next_relay_state-Wanted true true role (some pending_remove) = invite refl refl
next_relay_state-Wanted true true role (some removed) = invite refl refl
next_relay_state-Wanted false linked admin none = seed refl refl
next_relay_state-Wanted false linked admin (some s) = exempt s refl refl
next_relay_state-Wanted false linked member none = absent refl refl
next_relay_state-Wanted false linked member (some pending_add) =
    evict pending_add refl refl (inr refl)
next_relay_state-Wanted false linked member (some added) = evict added refl refl (inl refl)
next_relay_state-Wanted false linked member (some pending_remove) =
    gone pending_remove refl refl (inr refl)
next_relay_state-Wanted false linked member (some removed) = gone removed refl refl (inl refl)

-- Asking again changes nothing.
pub next_relay_state_idempotent :
    (eligible linked : Bool) (role : Role) (prev : Option RelayState)
    → next_relay_state eligible linked role (some (next_relay_state eligible linked role prev))
      ≡ next_relay_state eligible linked role prev
unfolding next_relay_state
next_relay_state_idempotent eligible linked role prev = ground arith
