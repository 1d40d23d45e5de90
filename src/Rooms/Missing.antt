-- ===== src/Rooms/Missing.antt =====
-- src/token-gated-rooms/services/group-missing-tracker.service.ts: the groups that the relay reported
-- missing, each with the time until which its member adds are held back.
use superhero_api.Base.{
  ℕ, ◌+◌, Bool, true, false, not, Option, none, some, List, [], ◌∷◌, ◌==◌, leb, max, if◌then◌else◌,
  select,
}

-- `Map.get`
abbrev pub expiry_of : ℕ → List (ℕ × ℕ) → Option ℕ
expiry_of sale [] = none
expiry_of sale ((s, t) ∷ m) = if s == sale then some t else expiry_of sale m

-- `Map.delete`
abbrev pub clear : ℕ → List (ℕ × ℕ) → List (ℕ × ℕ)
clear sale = select (λ e. not (e.0 == sale))

unfoldable pub mark_missing : ℕ → ℕ → ℕ → List (ℕ × ℕ) → List (ℕ × ℕ)
mark_missing now sale ttl_ms m = (sale, now + max 1 ttl_ms) ∷ clear sale m

abbrev pub default_ttl_ms : ℕ
default_ttl_ms = 600_000

-- An expired entry is deleted by the look-up.
unfoldable pub is_missing : ℕ → ℕ → List (ℕ × ℕ) → Bool × List (ℕ × ℕ)
is_missing now sale m = elim (expiry_of sale m) [
  | none ↦ (false, m)
  | some expiry ↦ if leb expiry now then (false, clear sale m) else (true, m)
]
