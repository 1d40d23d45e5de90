-- ===== src/Rooms/Store.antt =====
-- The rows and tables of the token-gated rooms (src/token-gated-rooms/entities), with the events
-- (events.ts), the relay templates (nostr/nip29.ts) and the publish jobs (queues).
-- An address, a pubkey and a group id are texts that the code only compares: each is a number here,
-- 0 for the empty text. Times are milliseconds. A column that is null is `none`.
use superhero_api.Base.{
  ℕ, Bool, true, false, ◌&&◌, Option, none, some, List, ◌∷◌, ◌==◌, or_else, find, update,
}
use Prim.Native.String.{String}

pub data Role : Type 0 where
  member admin : Role

pub data RelayState : Type 0 where
  pending_add added pending_remove removed : RelayState

-- `no_access` is the source's 'none'.
pub data AccessState : Type 0 where
  no_access granted : AccessState

abbrev pub is_admin : Role → Bool
is_admin admin = true
is_admin member = false

abbrev pub role_eq : Role → Role → Bool
role_eq member member = true
role_eq admin admin = true
role_eq _ _ = false

abbrev pub relay_eq : RelayState → RelayState → Bool
relay_eq pending_add pending_add = true
relay_eq added added = true
relay_eq pending_remove pending_remove = true
relay_eq removed removed = true
relay_eq _ _ = false

abbrev pub is_granted : AccessState → Bool
is_granted granted = true
is_granted no_access = false

abbrev pub bool_eq : Bool → Bool → Bool
bool_eq true true = true
bool_eq false false = true
bool_eq _ _ = false

pub record Room : Type 0 where
  pub sale_address : ℕ
  pub token_address : ℕ
  pub min_token_threshold : ℕ
  -- A null list reads as the empty one wherever the code reads it.
  pub moderators : List ℕ
  pub muted : List ℕ
  pub deleted : Bool

-- created_at and updated_at, which the database sets itself at each write and no code here reads, are
-- left out.
pub record Membership : Type 0 where
  pub id : ℕ
  pub sale_address : ℕ
  pub member_address : ℕ
  pub member_pubkey : Option ℕ
  pub role : Role
  pub eligible : Bool
  pub relay_state : RelayState
  pub access_state : AccessState
  pub access_changed_at : Option ℕ
  pub pending_revoke_since : Option ℕ
  pub pending_revoke_reason : Option String
  pub held_until_height : Option ℕ
  pub last_published_at : Option ℕ
  pub last_reconciled_at : Option ℕ

pub record TokenBalance : Type 0 where
  pub token_address : ℕ
  pub holder_address : ℕ
  pub balance : ℕ
  pub updated_height : ℕ
  pub last_reconciled_at : Option ℕ

-- The columns of `Token` that the rooms read.
pub record Token : Type 0 where
  pub sale_address : ℕ
  pub nostr_group_id : Option ℕ
  pub room_created : Bool
  pub room_id : Option ℕ

pub data AccessEventType : Type 0 where
  access_granted access_revoked : AccessEventType

pub record AccessEvent : Type 0 where
  pub id : ℕ
  pub sale_address : ℕ
  pub member_address : ℕ
  pub event : AccessEventType
  pub reason : String
  pub is_first_grant : Bool

-- The tags of a template: `["h", group]` and `["p", pubkey, ...roles]`.
pub data Tag : Type 0 where
  h : ℕ → Tag
  p : ℕ → List Role → Tag

pub record Template : Type 0 where
  pub kind : ℕ
  pub tags : List Tag

pub record Job : Type 0 where
  pub template : Template
  pub group_id : ℕ
  pub sale_address : ℕ
  pub reason : String

-- A membership change is emitted with all its optional fields.
pub data Event : Type 0 where
  community_upserted : (sale_address : ℕ) → Event
  room_created : (sale_address : ℕ) → Event
  link_changed : (address : ℕ) → Event
  eligibility_changed : (sale_address member_address : ℕ) (eligible : Bool) → Event
  membership_changed :
      (sale_address member_address : ℕ) (relay_state : RelayState) (access_event_id : ℕ)
      (is_first_grant : Bool) (reason : String)
      → Event
  balance_changed : (token_address holder_address : ℕ) → Event
  publish_ack : (sale_address kind : ℕ) (pubkey : Option ℕ) (ok : Bool) → Event
  group_missing : (sale_address : ℕ) → Event

-- The database, the publish queue and the event bus, as the services share them. `queue`, `emitted`
-- and `ledger` have their newest item first. `pubkey_of` is what the identity service answers.
pub record World : Type 0 where
  pub rooms : List Room
  pub memberships : List Membership
  pub next_id : ℕ
  pub balances : List TokenBalance
  pub tokens : List Token
  pub pubkey_of : ℕ → Option ℕ
  pub tip_height : Option ℕ
  pub missing : List (ℕ × ℕ)
  pub queue : List Job
  pub emitted : List Event
  pub ledger : List AccessEvent
  pub next_event : ℕ

abbrev pub emit : Event → World → World
emit e w = record w { emitted = e ∷ w.emitted }

-- `findOne({ where: { sale_address } })` of the room table.
abbrev pub find_room : ℕ → World → Option Room
find_room sale w = find (λ r. r.sale_address == sale) w.rooms

-- `where: { sale_address, member_address }`
abbrev pub is_member : ℕ → ℕ → Membership → Bool
is_member sale address m = m.sale_address == sale && m.member_address == address

abbrev pub find_member : ℕ → ℕ → World → Option Membership
find_member sale address w = find (is_member sale address) w.memberships

-- `update({ id }, …)` of the membership table.
abbrev pub update_row : ℕ → (Membership → Membership) → World → World
update_row id f w = record w { memberships = update (λ m. m.id == id) f w.memberships }

-- groupIdFor of nostr/group-id.ts, behind the look-up of the token.
abbrev pub group_id_for : ℕ → Option Token → ℕ
group_id_for sale none = sale
group_id_for sale (some t) = or_else t.nostr_group_id sale

abbrev pub find_token : ℕ → World → Option Token
find_token sale w = find (λ (t : Token). t.sale_address == sale) w.tokens
