-- ===== src/Rooms/Shard/Hash.antt =====
-- The hash of shard.ts is FNV-1a over 32 bits.
use Prim.Native.Nat.{bit_xor}
use native.Mathlib.Nat.{mod-eq_of_lt}
use superhero_api.Base.{
  ℕ, ◌*◌, ◌/◌, ◌%◌, ◌^◌, ◌<◌, List, [], ◌∷◌, ◌++◌, ◌≡◌, refl, sym, ap, ◌∙◌, arith, ◌==◌, ltb,
  if◌then◌else◌, if-then, if-else, Bool-cases, inl, inr,
}
use superhero_api.Base.Int.{ℤ, pos}
use superhero_api.Rooms.Shard.{to_uint32, to_int32, xor, imul, mix_high, mix, hash_from, fnv1a32}

-- FNV-1a, over bytes: the low byte of each unit, and its high byte unless that is 0.
abbrev pub fnv1a_byte : ℕ → ℕ → ℕ
fnv1a_byte hash byte = bit_xor hash byte * 16777619 % 2 ^ 32

abbrev pub fnv1a_bytes : ℕ → List ℕ → ℕ
fnv1a_bytes hash [] = hash
fnv1a_bytes hash (byte ∷ bytes) = fnv1a_bytes (fnv1a_byte hash byte) bytes

abbrev pub bytes_of_unit : ℕ → ℕ → List ℕ
bytes_of_unit low high = if high == 0 then low ∷ [] else low ∷ high ∷ []

abbrev pub bytes_of : List ℕ → List ℕ
bytes_of [] = []
bytes_of (unit ∷ units) = bytes_of_unit (unit % 256) (unit / 256 % 256) ++ bytes_of units

abbrev pub fnv1a : List ℕ → ℕ
fnv1a bytes = fnv1a_bytes 2166136261 bytes

uint32-int32 : (n : ℕ) → to_uint32 (to_int32 n) ≡ n % 2 ^ 32
uint32-int32 n = elim (Bool-cases (ltb (n % 2 ^ 32) (2 ^ 31))) [
  | inl low ↦ ap to_uint32 (if-then _ _ low) ∙ omega arith
  | inr high ↦ ap to_uint32 (if-else _ _ high) ∙ omega arith
]

mul-mod : (a : ℕ) → a % 2 ^ 32 * 16777619 % 2 ^ 32 ≡ a * 16777619 % 2 ^ 32
mul-mod a = omega arith

-- One byte: both the patterns and FNV-1a go the same way.
byte_lem :
    (hash : ℤ) (byte : ℕ)
    → byte < 256
    → to_uint32 (imul (xor hash (pos byte)) (pos 16777619)) ≡ fnv1a_byte (to_uint32 hash) byte
byte_lem hash byte small =
    uint32-int32 _
    ∙ ap (λ a. a * 16777619 % 2 ^ 32) (uint32-int32 (bit_xor (to_uint32 hash) (byte % 2 ^ 32)))
    ∙ mul-mod (bit_xor (to_uint32 hash) (byte % 2 ^ 32))
    ∙ ap (λ b. fnv1a_byte (to_uint32 hash) b) (mod-eq_of_lt (omega arith))

unit_lem :
    (hash : ℤ) (low high : ℕ)
    → low < 256
    → high < 256
    → to_uint32 (imul (mix_high high (xor hash (pos low))) (pos 16777619))
      ≡ fnv1a_bytes (to_uint32 hash) (bytes_of_unit low high)
unit_lem hash low high l h = elim (Bool-cases (high == 0)) [
  | inl one ↦ rw one (byte_lem hash low l)
  | inr two ↦ rw two (
      byte_lem (imul (xor hash (pos low)) (pos 16777619)) high h
      ∙ ap (λ a. fnv1a_byte a high) (byte_lem hash low l))
]

fnv1a_bytes-append :
    (xs ys : List ℕ) (hash : ℕ) → fnv1a_bytes hash (xs ++ ys) ≡ fnv1a_bytes (fnv1a_bytes hash xs) ys
fnv1a_bytes-append [] ys hash = refl
fnv1a_bytes-append (x ∷ xs) ys hash = fnv1a_bytes-append xs ys (fnv1a_byte hash x)

hash_from_lem :
    (hash : ℤ) (units : List ℕ)
    → to_uint32 (hash_from hash units) ≡ fnv1a_bytes (to_uint32 hash) (bytes_of units)
hash_from_lem hash [] = refl
hash_from_lem hash (unit ∷ units) =
    hash_from_lem (mix hash unit) units
    ∙ ap (λ a. fnv1a_bytes a (bytes_of units))
        (unit_lem hash (unit % 256) (unit / 256 % 256) (omega arith) (omega arith))
    ∙ sym (
        fnv1a_bytes-append (bytes_of_unit (unit % 256) (unit / 256 % 256)) (bytes_of units)
          (to_uint32 hash))

pub fnv1a32-fnv1a : (units : List ℕ) → fnv1a32 units ≡ pos (fnv1a (bytes_of units))
unfolding fnv1a32
fnv1a32-fnv1a units = ap pos (hash_from_lem (pos 2166136261) units)
