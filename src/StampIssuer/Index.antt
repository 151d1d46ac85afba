-- ===== src/StampIssuer/Index.antt =====
-- indexToBytes and bytesToIndex (pkg/postage/stampissuer.go): two uint32 in eight bytes, the larger
-- first.
use sana.Common.{
  ℕ, ◌+◌, ◌*◌, ◌/◌, ◌%◌, ◌^◌, ◌<◌, ◌≡◌, refl, Option, none, some, List, [], ◌∷◌, ◌++◌, arith,
}

abbrev pub u32_mod : ℕ
u32_mod = 2 ^ 32

-- binary.BigEndian.PutUint32
abbrev pub put32 : ℕ → List ℕ
put32 n = (n / 2 ^ 24) % 256 ∷ (n / 2 ^ 16) % 256 ∷ (n / 2 ^ 8) % 256 ∷ n % 256 ∷ []

-- binary.BigEndian.Uint32, for four bytes
abbrev pub get32 : ℕ → ℕ → ℕ → ℕ → ℕ
get32 a b c d = a * 2 ^ 24 + b * 2 ^ 16 + c * 2 ^ 8 + d

unfoldable pub index_to_bytes : ℕ → ℕ → List ℕ
index_to_bytes bucket index = put32 bucket ++ put32 index

abbrev pub split64 : ℕ → ℕ × ℕ
split64 n = ((n / 2 ^ 32) % u32_mod, n % u32_mod)

-- `none` for the panic on fewer than eight bytes.
unfoldable pub bytes_to_index : List ℕ → Option (ℕ × ℕ)
bytes_to_index (a ∷ b ∷ c ∷ d ∷ e ∷ f ∷ g ∷ h ∷ _) =
    some (split64 (get32 a b c d * 2 ^ 32 + get32 e f g h))
bytes_to_index _ = none

get32-put32 :
    (n : ℕ)
    → n < u32_mod
    → get32 ((n / 2 ^ 24) % 256) ((n / 2 ^ 16) % 256) ((n / 2 ^ 8) % 256) (n % 256) ≡ n
get32-put32 n h = omega arith

split64_lem : (a b : ℕ) → a < u32_mod → b < u32_mod → split64 (a * 2 ^ 32 + b) ≡ (a, b)
split64_lem a b h k =
    let e : ((a * 2 ^ 32 + b) / 2 ^ 32) % u32_mod ≡ a = omega arith in
    let f : (a * 2 ^ 32 + b) % u32_mod ≡ b = omega arith in rw (e, f) refl

-- Two uint32 are read from the bytes they were written to.
pub bytes_to_index-index_to_bytes :
    (bucket index : ℕ)
    → bucket < u32_mod
    → index < u32_mod
    → bytes_to_index (index_to_bytes bucket index) ≡ some (bucket, index)
unfolding bytes_to_index index_to_bytes
bytes_to_index-index_to_bytes bucket index h k =
    rw (get32-put32 bucket h, get32-put32 index k, split64_lem bucket index h k) refl
