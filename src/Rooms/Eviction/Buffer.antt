-- ===== src/Rooms/Eviction/Buffer.antt =====
-- bufferEvictions of reorg-eviction.service.ts, and the one update of the table that it amounts to.
use superhero_api.Base.{ℕ, Bool, not, ◌&&◌, List, ◌==◌, includes}
use superhero_api.Rooms.Store.{Membership}
use superhero_api.Rooms.Config.{Config}
use superhero_api.Rooms.Eviction.{is_at_risk}

abbrev in_room : ℕ → Membership → Bool
in_room sale m = m.sale_address == sale && is_at_risk m

-- At risk, in one of the rooms.
abbrev pub in_rooms : List ℕ → Membership → Bool
in_rooms sales m = includes m.sale_address sales && is_at_risk m

-- A room that is named: its address is in the list, and is not the empty text.
abbrev pub is_named : List ℕ → Membership → Bool
is_named sales m = (includes m.sale_address sales && not (m.sale_address == 0)) && is_at_risk m
