-- ===== src/Notifications/Challenge/Once.antt =====
-- Verifications that overlap, with each other and with the other operations of the service.
use superhero_api.Base.{
  find, subst, ℕ, ◌≤◌, Bool, true, false, Option, none, some, List, [], ◌∷◌, ◌++◌, ◌≡◌, refl, arith,
  ◌==◌, if◌then◌else◌, includes, All, Bool-cases, inl, inr,
}
use superhero_api.Base.Count.{count, count_mono}
use superhero_api.Notifications.Challenge.{
  DeviceChallenge, Settings, Claim, is_ok, has_nonce, is_open, check_found, check_claim,
  commit_claim, issue, cleanup_expired,
}
use superhero_api.Notifications.Challenge.System.{
  System, claims_nonce, Step, issues, checks, commits, cleans, Reach, here, next, IsSound, IsSigned,
}
use superhero_api.Notifications.Challenge.Counts.{
  count-cleanup_expired, count-issue, count-commit, count-commit_nonce, count-open_eq,
  includes_same,
}

module _ (c : Settings) (n : ℕ) (s : System) (h : IsSound n s) where
  -- A nonce that is drawn was never claimed, and rows of others are at most dropped.
  issue-IsSound :
      (now nonce address : ℕ)
      → includes nonce s.drawn ≡ false
      → IsSound n
          (record s { rows = (issue c now nonce address s.rows).1; drawn = nonce ∷ s.drawn })
  issue-IsSound now nonce address fresh = elim (Bool-cases (nonce == n)) [
    | inl same ↦
        let unclaimed : count (claims_nonce n) s.accepted ≡ 0 =
          h.claimed (ground (arith, includes_same nonce n s.drawn)) in
        record {
          once = h.once;
          closed = λ a. absurd (omega arith);
          known = λ a. ground arith;
          claimed = λ a. unclaimed;
        }
    | inr apart ↦ record {
      once = h.once;
      closed = λ a. omega (
        arith,
        h.closed a,
        count-issue (is_open n) c now nonce address s.rows (λ row e. ground arith),
      );
      known = λ a. omega (
        arith,
        h.known (ground arith),
        count-issue (has_nonce n) c now nonce address s.rows (λ row e. ground arith),
      );
      claimed = λ a. h.claimed (ground arith);
    }
  ]

  commit-IsSound :
      (now : ℕ) (claim : Claim) (left : List Claim)
      → IsSound n (record s {
        rows = (commit_claim now claim s.rows).1;
        waiting = left;
        accepted =
            if is_ok (commit_claim now claim s.rows).0 then claim ∷ s.accepted else s.accepted;
      })
  unfolding commit_claim
  commit-IsSound now claim left = record {
    once = ground (arith, h.closed, h.once, count-open_eq claim.nonce n s.rows);
    closed = λ a. ground (
      arith,
      h.closed,
      count-commit now claim.nonce n s.rows,
      count-open_eq claim.nonce n s.rows,
    );
    known = λ a. ground (arith, h.known a, count-commit_nonce now claim.nonce n s.rows);
    claimed = λ a. ground (
      arith,
      h.known a,
      h.claimed a,
      count-open_eq claim.nonce n s.rows,
      count_mono (is_open n) (has_nonce n) (λ x e. ground arith) s.rows,
    );
  }

  clean-IsSound :
      (locked : Bool) (now : ℕ) → IsSound n (record s { rows = cleanup_expired locked now s.rows })
  clean-IsSound locked now = record {
    once = h.once;
    closed = λ a. omega (arith, h.closed a, count-cleanup_expired (is_open n) locked now s.rows);
    known = λ a. omega (arith, h.known a, count-cleanup_expired (has_nonce n) locked now s.rows);
    claimed = h.claimed;
  }

All-without {ℓ} :
    {A : Type 0} (P : A → Type ℓ) (xs ys : List A) (x : A)
    → All P (xs ++ x ∷ ys)
    → P x × All P (xs ++ ys)
All-without P [] ys x h = h
All-without P (y ∷ xs) ys x (h, hs) = let (a, rest) = All-without P xs ys x hs in (a, (h, rest))

check_found-signed :
    (signed : Bool) (now : ℕ) (c : Claim) (o : Option DeviceChallenge)
    → is_ok (check_found signed now c o) ≡ true
    → signed ≡ true
check_found-signed signed now c none e = cc
check_found-signed signed now c (some row) e = ground arith

module _ (c : Settings) (verify : ℕ → List ℕ → ℕ → Bool) where
  Step-IsSound : (n : ℕ) {s t : System} → Step c verify s t → IsSound n s → IsSound n t
  Step-IsSound n (issues s now nonce address fresh) h =
      issue-IsSound c n s h now nonce address fresh
  Step-IsSound n (checks s now claim e) h = record {
    once = h.once;
    closed = h.closed;
    known = h.known;
    claimed = h.claimed;
  }
  Step-IsSound n (commits s now claim before after e) h =
      commit-IsSound c n s h now claim (before ++ after)
  Step-IsSound n (cleans s locked now) h = clean-IsSound c n s h locked now

  Step-IsSigned : {s t : System} → Step c verify s t → IsSigned verify s → IsSigned verify t
  unfolding check_claim
  Step-IsSigned (issues s now nonce address fresh) h = record {
    waits = h.waits;
    accepts = h.accepts;
  }
  Step-IsSigned (checks s now claim e) h = record {
    waits = (
      check_found-signed (verify claim.address claim.message claim.signature) now claim
          (find (has_nonce claim.nonce) s.rows) e,
      h.waits,
    );
    accepts = h.accepts;
  }
  Step-IsSigned (commits s now claim before after e) h =
      let (signed, rest) =
        All-without (λ (w : Claim). verify w.address w.message w.signature ≡ true) before after
          claim
          (subst (All (λ (w : Claim). verify w.address w.message w.signature ≡ true)) e h.waits) in
      record {
        waits = rest;
        accepts =
            elim (is_ok (commit_claim now claim s.rows).0)
              as (λ b.
                All (λ (w : Claim). verify w.address w.message w.signature ≡ true)
                  (if b then claim ∷ s.accepted else s.accepted)) [
                    | true ↦ (signed, h.accepts)
                    | false ↦ h.accepts
                  ];
      }
  Step-IsSigned (cleans s locked now) h = record { waits = h.waits; accepts = h.accepts }

  Reach-IsSound : (n : ℕ) {s t : System} → IsSound n s → Reach c verify s t → IsSound n t
  Reach-IsSound n h here = h
  Reach-IsSound n h (next r st) = Step-IsSound n st (Reach-IsSound n h r)

  Reach-IsSigned : {s t : System} → IsSigned verify s → Reach c verify s t → IsSigned verify t
  Reach-IsSigned h here = h
  Reach-IsSigned h (next r st) = Step-IsSigned st (Reach-IsSigned h r)

abbrev pub empty_system : System
empty_system = record { rows = []; drawn = []; waiting = []; accepted = [] }

-- However issues, checks, updates and cleanups follow one another, from an empty table and with no
-- nonce drawn twice, at most one claim is accepted of each nonce, and every accepted claim is signed.
pub accepted_once :
    (c : Settings) (verify : ℕ → List ℕ → ℕ → Bool) (s : System) (n : ℕ)
    → Reach c verify empty_system s
    → (count (claims_nonce n) s.accepted ≤ 1)
      × All (λ (w : Claim). verify w.address w.message w.signature ≡ true) s.accepted
accepted_once c verify s n r = (
  (Reach-IsSound c verify n start r).once,
  (Reach-IsSigned c verify (record { waits = tt; accepts = tt }) r).accepts,
)
  where
    start : IsSound n empty_system
    start = record {
      once = omega arith;
      closed = λ a. refl;
      known = λ a. refl;
      claimed = λ a. refl;
    }
