-- ===== src/HashMap/Hash.antt =====
-- data_structures/map.c: the default hash, and the comparison of bytes it is used with.
use c_utils.Base.{ℕ, ◌+◌, ◌*◌, ◌/◌, ◌%◌, ◌^◌, List, [], ◌∷◌, compare, Ordering}
use Prim.Native.Nat.{bit_xor}

-- The memory of the caller: the bytes of the string at an address, without the closing zero, and
-- the first bytes at an address.
pub record Memory : Type 0 where
  pub text : ℕ → List ℕ
  pub block : ℕ → ℕ → List ℕ

-- A `uint32_t`.
abbrev pub wrap : ℕ → ℕ
wrap n = n % 2 ^ 32

-- One round: hash += byte; hash += hash << 10; hash ^= hash >> 6.
abbrev pub mix : ℕ → ℕ → ℕ
mix hash byte =
    let added = wrap (hash + byte) in
    let spread = wrap (added + wrap (added * 2 ^ 10)) in bit_xor spread (spread / 2 ^ 6)

abbrev pub mix_all : ℕ → List ℕ → ℕ
mix_all hash [] = hash
mix_all hash (b ∷ bytes) = mix_all (mix hash b) bytes

-- hash += hash << 3; hash ^= hash >> 11; hash += hash << 15.
abbrev pub finish : ℕ → ℕ
finish hash =
    let spread = wrap (hash + wrap (hash * 2 ^ 3)) in
    let folded = bit_xor spread (spread / 2 ^ 11) in wrap (folded + wrap (folded * 2 ^ 15))

unfoldable pub hash_key : List ℕ → ℕ
hash_key bytes = finish (mix_all 0 bytes)

-- `memcmp`, and `strcmp` on what stands before the zero.
abbrev pub compare_bytes : List ℕ → List ℕ → Ordering
compare_bytes [] [] = Ordering.eq
compare_bytes [] (b ∷ bs) = Ordering.lt
compare_bytes (a ∷ rest) [] = Ordering.gt
compare_bytes (a ∷ rest) (b ∷ bs) = elim (compare a b) [
  | Ordering.eq ↦ compare_bytes rest bs
  | Ordering.lt ↦ Ordering.lt
  | Ordering.gt ↦ Ordering.gt
]
