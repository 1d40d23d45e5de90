-- ===== src/Rooms/Config.antt =====
-- The settings of the token-gated rooms that the services read (config/tgr.config.ts).
use superhero_api.Base.{ℕ, Bool, false, Option, none, some, List, includes}

-- `normalize` is normalizePubkey of nostr/pubkey.ts, which decodes bech32 by a library.
pub record Config : Type 0 where
  pub reconcile_batch_size : ℕ
  pub reorg_confirmation_depth_blocks : ℕ
  pub access_revoke_grace_sec : ℕ
  pub publish_max_retries : ℕ
  pub nostr_room_admins : List ℕ
  pub normalize : ℕ → Option ℕ

abbrev admin_hex : Config → Option ℕ → Bool
admin_hex c none = false
admin_hex c (some hex) = includes hex c.nostr_room_admins

-- isConfiguredAdmin of nostr/room-admins.ts, by the configured list.
unfoldable pub is_configured_admin : Config → Option ℕ → Bool
is_configured_admin c none = false
is_configured_admin c (some pubkey) = admin_hex c (c.normalize pubkey)
