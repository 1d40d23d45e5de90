-- ===== src/Rooms/Shard.antt =====
-- src/token-gated-rooms/nostr/shard.ts: which subscriber instance takes a group. A group id is here its
-- list of UTF-16 code units. The bit operations of the language take a number's 32-bit pattern, read it
-- as signed, and give a signed number back; a remainder has the sign of the dividend.
pub mod Hash
pub mod Owner
use Prim.Native.Nat.{bit_xor}
use superhero_api.Base.{
  ℕ, ◌+◌, ◌-◌, ◌*◌, ◌/◌, ◌%◌, ◌^◌, Bool, false, Option, none, some, List, [], ◌∷◌, ◌≡◌, refl, ◌==◌,
  leb, ltb, suc, if◌then◌else◌,
}
use superhero_api.Base.Int.{ℤ, pos, negsuc}

-- ToUint32, the `>>> 0` of the source, and ToInt32 of a pattern.
abbrev pub to_uint32 : ℤ → ℕ
to_uint32 (pos n) = n % 2 ^ 32
to_uint32 (negsuc n) = 2 ^ 32 - suc (n % 2 ^ 32)

abbrev pub to_int32 : ℕ → ℤ
to_int32 n =
    if ltb (n % 2 ^ 32) (2 ^ 31) then pos (n % 2 ^ 32) else negsuc (2 ^ 32 - suc (n % 2 ^ 32))

-- `a ^ b`
abbrev pub xor : ℤ → ℤ → ℤ
xor a b = to_int32 (bit_xor (to_uint32 a) (to_uint32 b))

-- Math.imul
abbrev pub imul : ℤ → ℤ → ℤ
imul a b = to_int32 (to_uint32 a * to_uint32 b)

abbrev pub mix_high : ℕ → ℤ → ℤ
mix_high hi hash = if hi == 0 then hash else xor (imul hash (pos 16777619)) (pos hi)

abbrev pub mix : ℤ → ℕ → ℤ
mix hash unit = imul (mix_high (unit / 256 % 256) (xor hash (pos (unit % 256)))) (pos 16777619)

abbrev pub hash_from : ℤ → List ℕ → ℤ
hash_from hash [] = hash
hash_from hash (unit ∷ units) = hash_from (mix hash unit) units

unfoldable pub fnv1a32 : List ℕ → ℤ
fnv1a32 input = pos (to_uint32 (hash_from (pos 2166136261) input))

-- `a % n`
abbrev pub remainder : ℤ → ℕ → ℤ
remainder (pos a) n = pos (a % n)
remainder (negsuc a) n = if suc a % n == 0 then pos 0 else negsuc (suc a % n - 1)

unfoldable pub shard_for_group_id : List ℕ → ℕ → ℤ
shard_for_group_id group shard_count =
    if leb shard_count 1 then pos 0 else remainder (fnv1a32 group) shard_count

-- `none` for an index that is unset, blank, or no whole number.
unfoldable pub resolve_shard_index : Option ℕ → ℕ → ℕ
resolve_shard_index none shard_count = 0
resolve_shard_index (some parsed) shard_count = if leb shard_count parsed then 0 else parsed

abbrev pub is_index : ℤ → ℕ → Bool
is_index (pos a) index = a == index
is_index (negsuc a) index = false

unfoldable pub owns_group_id : List ℕ → ℕ → ℕ → Bool
owns_group_id group shard_index shard_count =
    is_index (shard_for_group_id group shard_count) shard_index

-- The hash of the empty text, of "a" and of "foobar" is that of FNV-1a.
fnv1a32_tests :
    (fnv1a32 [] ≡ pos 2166136261)
    × (fnv1a32 (97 ∷ []) ≡ pos 3826002220)
    × (fnv1a32 (102 ∷ 111 ∷ 111 ∷ 98 ∷ 97 ∷ 114 ∷ []) ≡ pos 3214735720)
unfolding fnv1a32
fnv1a32_tests = (refl, refl, refl)
