-- ===== src/Rewards/Slot/Spaced.antt =====
-- How often X is asked for the posts of one address.
use superhero_api.Base.{
  ℕ, ◌+◌, ◌≤◌, Bool, true, false, Option, none, some, List, [], ◌∷◌, ◌≡◌, refl, leb→le,
  if◌then◌else◌,
}
use superhero_api.Rewards.Slot.{
  window_ms, is_free, Scan, ended, threw, request_manual_recheck, finish_recheck,
}

pub record Request : Type 0 where
  pub now : ℕ
  pub scan : Scan

abbrev pub note : ℕ → Scan → Bool → List ℕ → List ℕ
note now ended true times = now ∷ times
note now ended false times = times
note now threw granted times = times

-- Requests one after another, and the times at which X was asked and the slot was kept.
abbrev pub kept : ℕ → List Request → Option ℕ → List ℕ
kept hours [] last = []
kept hours (r ∷ rs) last =
    let (last', granted) = request_manual_recheck hours r.now r.scan last in
    note r.now r.scan granted (kept hours rs last')

abbrev pub IsAfter : ℕ → Option ℕ → ℕ → Type 0
IsAfter window none t = Unit {0}
IsAfter window (some last) t = last + window ≤ t

-- Each time is at least the window after the one before it.
abbrev pub IsSpaced : ℕ → Option ℕ → List ℕ → Type 0
IsSpaced window last [] = Unit {0}
IsSpaced window last (t ∷ ts) = IsAfter window last t × IsSpaced window (some t) ts

is_free-IsAfter :
    (hours now : ℕ) (last : Option ℕ)
    → is_free hours now last ≡ true
    → IsAfter (window_ms hours) last now
is_free-IsAfter hours now none e = tt
is_free-IsAfter hours now (some last) e = leb→le (last + window_ms hours) now e

abbrev claimed : Bool → ℕ → Option ℕ → Option ℕ × Bool
claimed granted now last = if granted then (some now, true) else (last, false)

one-IsSpaced :
    (hours now : ℕ) (last : Option ℕ) (scan : Scan) (granted : Bool) (k : Option ℕ → List ℕ)
    → is_free hours now last ≡ granted
    → ((l : Option ℕ) → IsSpaced (window_ms hours) l (k l))
    → IsSpaced (window_ms hours) last (
        note now scan
          (finish_recheck scan last (claimed granted now last)).1
          (k (finish_recheck scan last (claimed granted now last)).0))
one-IsSpaced hours now last ended true k e rest =
    (is_free-IsAfter hours now last e, rest (some now))
one-IsSpaced hours now last ended false k e rest = rest last
one-IsSpaced hours now last threw true k e rest = rest last
one-IsSpaced hours now last threw false k e rest = rest last

-- Whenever they come, requests of which each has ended before the next begins keep the slot at times
-- that are a window apart, also from the last time before them: a scan that throws keeps none.
pub kept-IsSpaced :
    (hours : ℕ) (rs : List Request) (last : Option ℕ)
    → IsSpaced (window_ms hours) last (kept hours rs last)
unfolding request_manual_recheck
kept-IsSpaced hours [] last = tt
kept-IsSpaced hours (r ∷ rs) last =
    one-IsSpaced hours r.now last r.scan (is_free hours r.now last) (kept hours rs) refl
      (kept-IsSpaced hours rs)
