-- ===== src/Rooms/Admins/Converge.antt =====
-- diffRoomAdmins of room-admins.ts, and the admins that its publishes lead to.
use superhero_api.Base.{
  ℕ, Bool, true, false, not, ◌&&◌, ◌||◌, Option, some, List, [], ◌∷◌, ◌++◌, ◌≡◌, refl, ap, ◌∙◌,
  arith, opt_eq, includes, select, includes-select,
}
use superhero_api.Rooms.Admins.{to_hex_set, RoomAdminDiff, normalize_opt, diff_room_admins}

-- The relay's admins after the promotions and the demotions.
abbrev pub apply_diff : RoomAdminDiff → List ℕ → List ℕ
apply_diff d current = select (λ hex. not (includes hex d.to_demote)) current ++ d.to_promote

includes-append :
    (a : ℕ) (xs ys : List ℕ) → includes a (xs ++ ys) ≡ (includes a xs || includes a ys)
includes-append a [] ys = refl
includes-append a (x ∷ xs) ys = ground (arith, includes-append a xs ys)

module _ (configured current : List ℕ) (bot : Option ℕ) (hex : ℕ) where
  abbrev kept_bot : Bool
  kept_bot = opt_eq (some hex) bot

  difference :
      let demoted =
        select (λ h. not (opt_eq (some h) bot) && not (includes h configured)) current in
      let promoted = select (λ h. not (includes h current)) configured in
      includes hex (select (λ h. not (includes h demoted)) current ++ promoted)
      ≡ (includes hex configured || (includes hex current && opt_eq (some hex) bot))
  difference =
      let demoted =
        select (λ h. not (opt_eq (some h) bot) && not (includes h configured)) current in
      let promoted = select (λ h. not (includes h current)) configured in
      let d =
        includes-select hex (λ h. not (opt_eq (some h) bot) && not (includes h configured))
          current in
      let p = includes-select hex (λ h. not (includes h current)) configured in
      let k = includes-select hex (λ h. not (includes h demoted)) current in
      includes-append hex (select (λ h. not (includes h demoted)) current) promoted
      ∙ ap (λ b. b || includes hex promoted) k
      ∙ ap (λ b. (includes hex current && not b) || includes hex promoted) d
      ∙ ap
          (λ b.
            (includes hex current
              && not (
                  includes hex current
                  && (not (opt_eq (some hex) bot) && not (includes hex configured))))
            || b)
          p
      ∙ logic (includes hex current) (includes hex configured) (opt_eq (some hex) bot)
    where
      logic :
          (cur con b : Bool)
          → ((cur && not (cur && (not b && not con))) || (con && not cur)) ≡ (con || (cur && b))
      logic true true true = refl
      logic true true false = refl
      logic true false true = refl
      logic true false false = refl
      logic false true true = refl
      logic false true false = refl
      logic false false true = refl
      logic false false false = refl

-- Once its promotions and demotions are done, the relay's admins are the configured ones, and the
-- bot's key if it was an admin.
pub diff_room_admins-apply_diff :
    (normalize : ℕ → Option ℕ) (configured current : List ℕ) (bot : Option ℕ) (hex : ℕ)
    → includes hex (
        apply_diff
          (diff_room_admins normalize configured current bot)
          (to_hex_set normalize current))
      ≡ (includes hex (to_hex_set normalize configured)
          || (includes hex (to_hex_set normalize current)
              && opt_eq (some hex) (normalize_opt normalize bot)))
unfolding diff_room_admins
diff_room_admins-apply_diff normalize configured current bot hex =
    difference (to_hex_set normalize configured) (to_hex_set normalize current)
      (normalize_opt normalize bot) hex
