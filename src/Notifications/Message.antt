-- ===== src/Notifications/Message.antt =====
-- The messages that are signed: src/notifications/notifications.constants.ts and
-- src/token-gated-rooms/notifications/room-mute.message.ts. A text is its list of code points.
-- `sha256` stands for the hash of the crypto library, in hexadecimal; a list of preferences is
-- given as the canonical text that is hashed.
use Prim.Native.Char.{code}
use Prim.Native.String.{String}
use superhero_api.Base.{
  ℕ, Bool, true, false, Option, none, some, List, [], ◌∷◌, ◌++◌, zero, suc, ◌≡◌, refl, sym, ◌∙◌, ap,
  take, ◌==◌, if◌then◌else◌,
}

abbrev pub codes : String → List ℕ
codes String.[] = []
codes (String.◌∷◌ c s) = code c ∷ codes s

abbrev pub flag : Bool → String
flag true = "1"
flag false = "0"

abbrev pub mute_all_token : Option Bool → String
mute_all_token none = "-"
mute_all_token (some b) = flag b

-- canonicalRoomMuteHash, before the hash.
abbrev pub canonical_room_mute : Bool → Option Bool → List ℕ
canonical_room_mute muted mute_all =
    codes "muted="
    ++ (codes (flag muted) ++ (codes ";mute_all=" ++ codes (mute_all_token mute_all)))

-- What a signature is asked for; the addresses and the nonce come with each.
pub data Intent : Type 0 where
  device_link device_unlink : (token : List ℕ) → Intent
  preferences_update : (canonical : List ℕ) → Intent
  feed_session : Intent
  room_mute : (sale_address : List ℕ) (muted : Bool) (mute_all : Option Bool) → Intent

module _ (sha256 : List ℕ → List ℕ) where
  -- tokenFingerprint
  abbrev pub token_fingerprint : List ℕ → List ℕ
  token_fingerprint token = take 16 (sha256 token)

  -- buildDeviceLinkMessage, buildDeviceUnlinkMessage, buildPreferencesUpdateMessage,
  -- buildFeedSessionMessage and buildRoomMuteMessage.
  unfoldable pub build_message : Intent → List ℕ → List ℕ → List ℕ
  build_message (device_link token) address nonce =
      codes "Superhero Notifications\nLink device "
      ++ (token_fingerprint token ++ (codes " to " ++ (address ++ (codes "\nnonce: " ++ nonce))))
  build_message (device_unlink token) address nonce =
      codes "Superhero Notifications\nUnlink device "
      ++ (token_fingerprint token ++ (codes " from " ++ (address ++ (codes "\nnonce: " ++ nonce))))
  build_message (preferences_update canonical) address nonce =
      codes "Superhero Notifications\nUpdate preferences for "
      ++ (address ++ (codes "\nbody: " ++ (sha256 canonical ++ (codes "\nnonce: " ++ nonce))))
  build_message feed_session address nonce =
      codes "Superhero Notifications\nOpen notification feed session for "
      ++ (address ++ (codes "\nnonce: " ++ nonce))
  build_message (room_mute sale muted mute_all) address nonce =
      codes "Superhero Rooms\nMute "
      ++ (sale
          ++ (codes " for "
              ++ (address
                  ++ (codes "\nbody: "
                      ++ (sha256 (canonical_room_mute muted mute_all)
                          ++ (codes "\nnonce: " ++ nonce))))))

-- The kinds of intents, by number.
abbrev pub kind_of : Intent → ℕ
kind_of (device_link t) = 0
kind_of (device_unlink t) = 1
kind_of (preferences_update c) = 2
kind_of feed_session = 3
kind_of (room_mute s m a) = 4

abbrev nth : ℕ → List ℕ → ℕ
nth n [] = 0
nth zero (x ∷ xs) = x
nth (suc n) (x ∷ xs) = nth n xs

-- The kind of a message, by its text: the first letter after the first blank, and the first two of
-- the second line.
abbrev kind_at : List ℕ → ℕ
kind_at m =
    if nth 10 m == b'R'
    then 4
    else if nth 24 m == b'L'
    then 0
    else if nth 24 m == b'O'
    then 3
    else if nth 25 m == b'n'
    then 1
    else 2

module _ (sha256 : List ℕ → List ℕ) where
  kind_at-build_message :
      (i : Intent) (address nonce : List ℕ)
      → kind_at (build_message sha256 i address nonce) ≡ kind_of i
  unfolding build_message
  kind_at-build_message (device_link token) address nonce = refl
  kind_at-build_message (device_unlink token) address nonce = refl
  kind_at-build_message (preferences_update canonical) address nonce = refl
  kind_at-build_message feed_session address nonce = refl
  kind_at-build_message (room_mute sale muted mute_all) address nonce = refl

  -- Whatever the addresses, the nonces and the hash, one text is never asked for by two kinds of
  -- intents.
  pub build_message_apart :
      (i j : Intent) (address nonce address' nonce' : List ℕ)
      → build_message sha256 i address nonce ≡ build_message sha256 j address' nonce'
      → kind_of i ≡ kind_of j
  build_message_apart i j address nonce address' nonce' e =
      sym (kind_at-build_message i address nonce)
      ∙ ap kind_at e
      ∙ kind_at-build_message j address' nonce'
