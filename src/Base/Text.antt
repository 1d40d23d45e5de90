-- ===== src/Base/Text.antt =====
-- The characters of a text, and the search for one text in another.
use Prim.Native.Char.{Char, code}
use Prim.Native.String.{String, [], ◌∷◌}
use mathlib.Core.Bool.{Bool, true, false, ◌&&◌, ◌||◌}
use mathlib.Core.List.{List, [] as []ᴸ, ◌∷◌ as ◌∷ᴸ◌}
use superhero_api.Base.Tests.{◌==◌}

unfoldable pub chars : String → List Char
chars [] = []ᴸ
chars (c ∷ s) = c ∷ᴸ chars s

abbrev starts_with : List Char → List Char → Bool
starts_with []ᴸ text = true
starts_with (x ∷ᴸ xs) []ᴸ = false
starts_with (x ∷ᴸ xs) (c ∷ᴸ cs) = (code x == code c) && starts_with xs cs

abbrev contains_chars : List Char → List Char → Bool
contains_chars []ᴸ needle = starts_with needle []ᴸ
contains_chars (c ∷ᴸ cs) needle = starts_with needle (c ∷ᴸ cs) || contains_chars cs needle

-- String.prototype.includes
unfoldable pub contains : String → String → Bool
unfolding chars
contains text needle = contains_chars (chars text) (chars needle)
