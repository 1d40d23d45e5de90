-- ===== src/Rooms/Publish/Backoff.antt =====
-- cappedExponentialBackoff of publish-policy.ts: the series of delays.
use native.Mathlib.Nat.{mul_assoc, mul_comm, pow-suc}
use superhero_api.Base.{ℕ, suc, ◌-◌, ◌*◌, ◌^◌, ◌≡◌, sym, ap, ◌∙◌, arith, max, min}
use superhero_api.Rooms.Publish.{capped_exponential_backoff}

double_min : (x c : ℕ) → min (2 * x) c ≡ min (2 * min x c) c
double_min x c = omega arith

exponent : (n : ℕ) → max 1 (suc n) - 1 ≡ n
exponent n = omega arith

next_power : (b n : ℕ) → b * 2 ^ suc n ≡ 2 * (b * 2 ^ n)
next_power b n =
    ap (λ x. b * x) (pow-suc 2 n) ∙ sym (mul_assoc b (2 ^ n) 2) ∙ mul_comm (b * 2 ^ n) 2

-- The first delay is the base, each next one is twice the one before, and all are cut at the cap.
pub capped_exponential_backoff-min :
    (n base_ms cap_ms : ℕ)
    → (capped_exponential_backoff 1 base_ms cap_ms ≡ min base_ms cap_ms)
      × (capped_exponential_backoff (suc (suc n)) base_ms cap_ms
          ≡ min (2 * capped_exponential_backoff (suc n) base_ms cap_ms) cap_ms)
unfolding capped_exponential_backoff
capped_exponential_backoff-min n base_ms cap_ms = (
  omega arith,
  ap (λ e. min (base_ms * 2 ^ e) cap_ms) (exponent (suc n))
      ∙ ap (λ x. min x cap_ms) (next_power base_ms n)
      ∙ double_min (base_ms * 2 ^ n) cap_ms
      ∙ ap (λ e. min (2 * min (base_ms * 2 ^ e) cap_ms) cap_ms) (sym (exponent n)),
)
