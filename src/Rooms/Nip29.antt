-- ===== src/Rooms/Nip29.antt =====
-- src/token-gated-rooms/nostr/nip29.ts: the templates that membership publishes, and the member that
-- a template names (pubkeyFromTags of queues/publish-policy.ts).
use superhero_api.Base.{ℕ, Option, none, some, List, [], ◌∷◌}
use superhero_api.Rooms.Store.{Role, Tag, h, p, Template}

-- NIP29_KIND
abbrev pub create_group_kind : ℕ
create_group_kind = 9007

abbrev pub put_user_kind : ℕ
put_user_kind = 9000

abbrev pub remove_user_kind : ℕ
remove_user_kind = 9001

abbrev pub set_roles_kind : ℕ
set_roles_kind = 9006

abbrev pub delete_group_kind : ℕ
delete_group_kind = 9008

abbrev pub put_user : ℕ → ℕ → Option Role → Template
put_user group pubkey none = record { kind = put_user_kind; tags = h group ∷ p pubkey [] ∷ [] }
put_user group pubkey (some role) = record {
  kind = put_user_kind;
  tags = h group ∷ p pubkey (role ∷ []) ∷ [];
}

abbrev pub remove_user : ℕ → ℕ → Template
remove_user group pubkey = record { kind = remove_user_kind; tags = h group ∷ p pubkey [] ∷ [] }

abbrev pub set_roles : ℕ → ℕ → List Role → Template
set_roles group pubkey roles = record {
  kind = set_roles_kind;
  tags = h group ∷ p pubkey roles ∷ [];
}

abbrev pub delete_group : ℕ → Template
delete_group group = record { kind = delete_group_kind; tags = h group ∷ [] }

abbrev pub create_group : ℕ → Template
create_group group = record { kind = create_group_kind; tags = h group ∷ [] }

abbrev pub pubkey_from_tags : List Tag → Option ℕ
pubkey_from_tags [] = none
pubkey_from_tags (h group ∷ tags) = pubkey_from_tags tags
pubkey_from_tags (p pubkey roles ∷ tags) = some pubkey
