-- ===== src/Notifications/Challenge.antt =====
-- src/notifications/services/device-challenge.service.ts: nonces that an address signs once. Nonces,
-- addresses and signatures are texts that the code only compares; a message is a list of code points,
-- which Notifications.Message builds. The check of a signature is a parameter. Times are milliseconds.
pub mod Counts
pub mod System
pub mod Verified
pub mod Once
use superhero_api.Base.{
  ℕ, ◌+◌, Bool, true, false, not, ◌&&◌, ◌||◌, Option, none, some, List, [], ◌∷◌, ◌++◌, ◌==◌, ltb,
  leb, if◌then◌else◌, is_some, find, update, select, any,
}
use superhero_api.Base.Count.{count}
use superhero_api.Notifications.Message.{Intent, build_message}

pub record DeviceChallenge : Type 0 where
  pub nonce : ℕ
  pub address : ℕ
  pub expires_at : ℕ
  pub consumed_at : Option ℕ

pub record Settings : Type 0 where
  pub challenge_max_pending_per_address : ℕ
  pub challenge_ttl_ms : ℕ

pub data Error : Type 0 where
  too_many_pending invalid_challenge already_used expired invalid_signature duplicate_nonce : Error

pub data Result (A : Type 0) : Type 0 where
  ok : A → Result A
  err : Error → Result A

abbrev pub is_ok : {A : Type 0} → Result A → Bool
is_ok (ok a) = true
is_ok (err e) = false

abbrev pub has_nonce : ℕ → DeviceChallenge → Bool
has_nonce n c = c.nonce == n

-- `consumed_at < cutoff`, for a challenge that has been consumed an hour ago or more.
abbrev pub is_old : ℕ → Option ℕ → Bool
is_old now none = false
is_old now (some t) = ltb (t + 3600000) now

abbrev pub is_prunable : ℕ → ℕ → DeviceChallenge → Bool
is_prunable address now c =
    c.address == address && (ltb c.expires_at now || is_old now c.consumed_at)

-- pruneAddress
unfoldable pub prune_address : ℕ → ℕ → List DeviceChallenge → List DeviceChallenge
prune_address address now = select (λ c. not (is_prunable address now c))

-- A live challenge that counts against the cap.
abbrev pub is_pending : ℕ → ℕ → DeviceChallenge → Bool
is_pending address now c =
    c.address == address && not (is_some c.consumed_at) && ltb now c.expires_at

pub record IssuedChallenge : Type 0 where
  pub nonce : ℕ
  pub expires_at : ℕ

-- The insert fails on the unique index of nonces.
abbrev pub save_challenge :
    ℕ → ℕ → ℕ → List DeviceChallenge → Result IssuedChallenge × List DeviceChallenge
save_challenge nonce address expires rows =
    if any (has_nonce nonce) rows then (err duplicate_nonce, rows) else (
      ok (record { nonce = nonce; expires_at = expires }),
      rows
          ++ record { nonce = nonce; address = address; expires_at = expires; consumed_at = none }
            ∷ [],
    )

-- issue, with the nonce that was drawn.
unfoldable pub issue :
    Settings → ℕ → ℕ → ℕ → List DeviceChallenge → Result IssuedChallenge × List DeviceChallenge
unfolding prune_address
issue c now nonce address rows =
    let kept = prune_address address now rows in
    if leb c.challenge_max_pending_per_address (count (is_pending address now) kept)
    then (err too_many_pending, kept)
    else save_challenge nonce address (now + c.challenge_ttl_ms) kept

-- What a caller of verifyWithMessage presents.
pub record Claim : Type 0 where
  pub nonce : ℕ
  pub address : ℕ
  pub message : List ℕ
  pub signature : ℕ

-- Whether the challenge that was read may be used, by the source's checks in their order.
abbrev pub check_found : Bool → ℕ → Claim → Option DeviceChallenge → Result (Unit {0})
check_found signed now c none = err invalid_challenge
check_found signed now c (some row) =
    if not (row.address == c.address)
    then err invalid_challenge
    else if is_some row.consumed_at
    then err already_used
    else if ltb row.expires_at now
    then err expired
    else if not signed
    then err invalid_signature
    else ok tt

-- verifyWithMessage, up to its update. `verify` is verifyAeAddressSignature.
unfoldable pub check_claim :
    (ℕ → List ℕ → ℕ → Bool) → ℕ → Claim → List DeviceChallenge → Result (Unit {0})
check_claim verify now c rows =
    check_found (verify c.address c.message c.signature) now c (find (has_nonce c.nonce) rows)

abbrev pub is_open : ℕ → DeviceChallenge → Bool
is_open nonce c = c.nonce == nonce && not (is_some c.consumed_at)

abbrev pub consume : ℕ → DeviceChallenge → DeviceChallenge
consume now c = record c { consumed_at = some now }

-- The update of verifyWithMessage, one statement of the database, and the check of its count.
unfoldable pub commit_claim :
    ℕ → Claim → List DeviceChallenge → Result (Unit {0}) × List DeviceChallenge
commit_claim now c rows = (
  if count (is_open c.nonce) rows == 1 then ok tt else err already_used,
  update (is_open c.nonce) (consume now) rows,
)

abbrev pub commit_checked :
    Result (Unit {0}) → ℕ → Claim → List DeviceChallenge → Result (Unit {0}) × List DeviceChallenge
commit_checked (err e) now c rows = (err e, rows)
commit_checked (ok _) now c rows = commit_claim now c rows

-- verifyWithMessage where nothing comes between its read and its update.
unfoldable pub verify_with_message :
    (ℕ → List ℕ → ℕ → Bool)
    → ℕ
    → Claim
    → List DeviceChallenge
    → Result (Unit {0}) × List DeviceChallenge
unfolding check_claim commit_claim
verify_with_message verify now c rows = commit_checked (check_claim verify now c rows) now c rows

-- cleanupExpired, where the replica has got the lock.
unfoldable pub cleanup_expired : Bool → ℕ → List DeviceChallenge → List DeviceChallenge
cleanup_expired locked now rows =
    if locked then select (λ c. not (ltb c.expires_at now)) rows else rows

-- verifyAndConsume and its siblings: the message of the intent is rebuilt here. `text` gives the text
-- of an address or a nonce.
unfoldable pub verify_and_consume :
    (List ℕ → List ℕ)
    → (ℕ → List ℕ)
    → (ℕ → List ℕ → ℕ → Bool)
    → ℕ
    → Intent
    → ℕ
    → ℕ
    → ℕ
    → List DeviceChallenge
    → Result (Unit {0}) × List DeviceChallenge
unfolding verify_with_message
verify_and_consume sha256 text verify now intent nonce address signature rows =
    verify_with_message verify now
      (record {
        nonce = nonce;
        address = address;
        message = build_message sha256 intent (text address) (text nonce);
        signature = signature;
      })
      rows
