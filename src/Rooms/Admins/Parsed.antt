-- ===== src/Rooms/Admins/Parsed.antt =====
-- parseRoomAdmins of room-admins.ts: what a parse may give.
use superhero_api.Base.{
  ℕ, true, not, ◌||◌, Option, none, List, [], ◌∷◌, ◌++◌, ◌≡◌, ◌≢◌, refl, sym, ap, ◌∙◌, subst, inl,
  inr, arith, ◌==◌, is_some, includes, dedup_from, select, All, Bool-cases, Option-cases,
}
use superhero_api.Rooms.Admins.{
  Parse, admins, config_error, parse_from, parse_room_admins, hexes, to_hex_set,
}

abbrev pub nonempty : List ℕ → List ℕ
nonempty = select (λ e. not (e == 0))

-- What a parse of the entries may give: all of them parsed, or the error for one that cannot be.
pub data Parsed (normalize : ℕ → Option ℕ) (entries set : List ℕ) : Parse → Type 0 where
  parsed :
      All (λ e. (e == 0 || is_some (normalize e)) ≡ true) entries
      → Parsed normalize entries set (admins set)
  unparseable :
      (entry : ℕ)
      → includes entry entries ≡ true
      → entry ≢ 0
      → normalize entry ≡ none
      → Parsed normalize entries set (config_error entry)

Parsed-∷ :
    (normalize : ℕ → Option ℕ) (e : ℕ) (entries set : List ℕ) (r : Parse)
    → (e == 0 || is_some (normalize e)) ≡ true
    → Parsed normalize entries set r
    → Parsed normalize (e ∷ entries) set r
Parsed-∷ normalize e entries set r h (parsed hs) = parsed (h, hs)
Parsed-∷ normalize e entries set r h (unparseable x i ne bad) =
    unparseable x (ground (arith, i)) ne bad

append_assoc : (xs : List ℕ) (h : ℕ) (ys : List ℕ) → (xs ++ h ∷ []) ++ ys ≡ xs ++ h ∷ ys
append_assoc [] h ys = refl
append_assoc (x ∷ xs) h ys = ap (λ zs. x ∷ zs) (append_assoc xs h ys)

append_nil : (xs : List ℕ) → xs ≡ xs ++ []
append_nil [] = refl
append_nil (x ∷ xs) = ap (λ zs. x ∷ zs) (append_nil xs)

includes_snoc : (a h : ℕ) (xs : List ℕ) → includes a (xs ++ h ∷ []) ≡ (h == a || includes a xs)
includes_snoc a h [] = refl
includes_snoc a h (x ∷ xs) = ground (arith, includes_snoc a h xs)

-- From any point of the loop, where `seen` has the members of `out`.
parse_from-Parsed :
    (normalize : ℕ → Option ℕ) (entries out seen : List ℕ)
    → ((a : ℕ) → includes a seen ≡ includes a out)
    → Parsed normalize entries
        (out ++ dedup_from seen (hexes normalize (nonempty entries)))
        (parse_from normalize entries out)
unfolding parse_from
parse_from-Parsed normalize [] out seen h =
    subst (λ o. Parsed normalize [] (out ++ []) (admins o)) (sym (append_nil out)) (parsed tt)
parse_from-Parsed normalize (e ∷ entries) out seen h = elim (Bool-cases (e == 0)) [
  | inl blank ↦ rw blank (
      Parsed-∷ normalize e entries _ _ (ground (arith, blank))
        (parse_from-Parsed normalize entries out seen h))
  | inr filled ↦ elim (Option-cases (normalize e)) [
    | inl bad ↦ rw (filled, bad) (unparseable e (ground arith) (ground (arith, filled)) bad)
    | inr (hex, good) ↦ elim (Bool-cases (includes hex out)) [
      | inl known ↦
          rw (filled, good, h hex, known)
            (Parsed-∷ normalize e entries _ _ (ground (arith, good))
              (parse_from-Parsed normalize entries out seen h))
      | inr fresh ↦
          rw (filled, good, h hex, fresh)
            (Parsed-∷ normalize e entries _ _ (ground (arith, good)) (
              subst
                (λ set.
                  Parsed normalize entries set (parse_from normalize entries (out ++ hex ∷ [])))
                (append_assoc out hex
                  (dedup_from (hex ∷ seen) (hexes normalize (nonempty entries))))
                (parse_from-Parsed normalize entries (out ++ hex ∷ []) (hex ∷ seen)
                  (λ a. ap (λ b. hex == a || b) (h a) ∙ sym (includes_snoc a hex out)))))
    ]
  ]
]

-- parseRoomAdmins gives the set of the normal forms of the entries that are not empty, in the order
-- in which they first occur, when each has one; else it fails, and names an entry that has none.
pub parse_room_admins-Parsed :
    (normalize : ℕ → Option ℕ) (entries : List ℕ)
    → Parsed normalize entries
        (to_hex_set normalize (nonempty entries))
        (parse_room_admins normalize entries)
unfolding parse_room_admins to_hex_set
parse_room_admins-Parsed normalize entries = parse_from-Parsed normalize entries [] [] (λ a. refl)
