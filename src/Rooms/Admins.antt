-- ===== src/Rooms/Admins.antt =====
-- src/token-gated-rooms/nostr/room-admins.ts: the configured room admins, parsed and compared with the
-- admins that the relay has. `normalize` is normalizePubkey; a trimmed entry is a text, 0 if empty.
pub mod Converge
pub mod Parsed
use superhero_api.Base.{
  ℕ, not, ◌&&◌, ◌||◌, Option, none, some, List, [], ◌∷◌, ◌++◌, ◌==◌, if◌then◌else◌, includes, dedup,
  select, opt_eq,
}

-- RoomAdminConfigError names the entry.
pub data Parse : Type 0 where
  admins : List ℕ → Parse
  config_error : ℕ → Parse

-- What a normalized entry adds, before the rest.
abbrev pub parse_entry : ℕ → Option ℕ → List ℕ → (List ℕ → Parse) → Parse
parse_entry entry none out rest = config_error entry
parse_entry entry (some hex) out rest =
    if includes hex out then rest out else rest (out ++ hex ∷ [])

-- The loop of parseRoomAdmins: `out` holds what has been seen, in order.
unfoldable pub parse_from : (ℕ → Option ℕ) → List ℕ → List ℕ → Parse
parse_from normalize [] out = admins out
parse_from normalize (entry ∷ entries) out =
    if entry == 0
    then parse_from normalize entries out
    else parse_entry entry (normalize entry) out (parse_from normalize entries)

unfoldable pub parse_room_admins : (ℕ → Option ℕ) → List ℕ → Parse
parse_room_admins normalize entries = parse_from normalize entries []

abbrev pub add_hex : Option ℕ → List ℕ → List ℕ
add_hex none hs = hs
add_hex (some hex) hs = hex ∷ hs

-- The values that have a normal form.
abbrev pub hexes : (ℕ → Option ℕ) → List ℕ → List ℕ
hexes normalize [] = []
hexes normalize (a ∷ rest) = add_hex (normalize a) (hexes normalize rest)

-- toHexSet
unfoldable pub to_hex_set : (ℕ → Option ℕ) → List ℕ → List ℕ
to_hex_set normalize values = dedup (hexes normalize values)

pub record RoomAdminDiff : Type 0 where
  pub to_promote : List ℕ
  pub to_demote : List ℕ

abbrev pub normalize_opt : (ℕ → Option ℕ) → Option ℕ → Option ℕ
normalize_opt normalize none = none
normalize_opt normalize (some a) = normalize a

unfoldable pub diff_room_admins : (ℕ → Option ℕ) → List ℕ → List ℕ → Option ℕ → RoomAdminDiff
diff_room_admins normalize configured current bot =
    let configured_set = to_hex_set normalize configured in
    let current_set = to_hex_set normalize current in
    let bot_hex = normalize_opt normalize bot in
    record {
      to_promote = select (λ hex. not (includes hex current_set)) configured_set;
      to_demote =
          select (λ hex. not (opt_eq (some hex) bot_hex) && not (includes hex configured_set))
            current_set;
    }
