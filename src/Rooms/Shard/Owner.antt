-- ===== src/Rooms/Shard/Owner.antt =====
-- The instances of shard.ts share the groups out between them.
use superhero_api.Base.{ℕ, zero, suc, List, [], ◌∷◌}

-- The indices below a count.
abbrev pub below : ℕ → List ℕ
below zero = []
below (suc n) = n ∷ below n
