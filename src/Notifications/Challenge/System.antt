-- ===== src/Notifications/Challenge/System.antt =====
-- src/notifications/services/device-challenge.service.ts: its operations, and the halves of its
-- verification, as steps that overlap.
use superhero_api.Base.{
  ℕ, ◌≤◌, ◌<◌, Bool, true, false, List, ◌∷◌, ◌++◌, ◌≡◌, ◌==◌, if◌then◌else◌, includes, All,
}
use superhero_api.Base.Count.{count}
use superhero_api.Notifications.Challenge.{
  DeviceChallenge, Settings, Claim, is_ok, has_nonce, is_open, check_claim, commit_claim, issue,
  cleanup_expired,
}

-- The table, every nonce that was ever drawn, the claims that have passed the checks and wait for
-- their update, and the claims that were accepted.
pub record System : Type 0 where
  pub rows : List DeviceChallenge
  pub drawn : List ℕ
  pub waiting : List Claim
  pub accepted : List Claim

abbrev pub claims_nonce : ℕ → Claim → Bool
claims_nonce n c = c.nonce == n

module _ (c : Settings) (verify : ℕ → List ℕ → ℕ → Bool) where
  -- One operation, or one half of a verification, whoever asks for it. A nonce is drawn once.
  pub data Step : System → System → Type 0 where
    issues :
        (s : System) (now nonce address : ℕ)
        → includes nonce s.drawn ≡ false
        → Step s (record s { rows = (issue c now nonce address s.rows).1; drawn = nonce ∷ s.drawn })
    checks :
        (s : System) (now : ℕ) (claim : Claim)
        → is_ok (check_claim verify now claim s.rows) ≡ true
        → Step s (record s { waiting = claim ∷ s.waiting })
    commits :
        (s : System) (now : ℕ) (claim : Claim) (before after : List Claim)
        → s.waiting ≡ before ++ claim ∷ after
        → Step s (record s {
          rows = (commit_claim now claim s.rows).1;
          waiting = before ++ after;
          accepted =
              if is_ok (commit_claim now claim s.rows).0 then claim ∷ s.accepted else s.accepted;
        })
    cleans :
        (s : System) (locked : Bool) (now : ℕ)
        → Step s (record s { rows = cleanup_expired locked now s.rows })

  pub data Reach (s : System) : System → Type 0 where
    here : Reach s s
    next : {t u : System} → Reach s t → Step t u → Reach s u

-- What holds of each nonce.
pub record IsSound (n : ℕ) (s : System) : Type 0 where
  pub once : count (claims_nonce n) s.accepted ≤ 1
  pub closed : 0 < count (claims_nonce n) s.accepted → count (is_open n) s.rows ≡ 0
  pub known : includes n s.drawn ≡ false → count (has_nonce n) s.rows ≡ 0
  pub claimed : includes n s.drawn ≡ false → count (claims_nonce n) s.accepted ≡ 0

-- The claims that passed the checks, and so all that were accepted, are signed.
pub record IsSigned (verify : ℕ → List ℕ → ℕ → Bool) (s : System) : Type 0 where
  pub waits : All (λ (w : Claim). verify w.address w.message w.signature ≡ true) s.waiting
  pub accepts : All (λ (w : Claim). verify w.address w.message w.signature ≡ true) s.accepted
