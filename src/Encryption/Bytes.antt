-- ===== src/Encryption/Bytes.antt =====
-- `binary.LittleEndian` on 32-bit words (share/encryption/encryption.go).
use freya.Common.{
  ℕ, ◌+◌, ◌*◌, ◌/◌, ◌%◌, ◌^◌, ◌<◌, ◌≡◌, refl, List, [], ◌∷◌, ◌++◌, take, drop, arith, length, All,
}

-- `LittleEndian.Uint32` on the bytes that a slice begins with; a missing byte counts as zero (the
-- callers check the length, or pad with zeros).
unfoldable pub get_u32 : List ℕ → ℕ
get_u32 [] = 0
get_u32 (a ∷ []) = a
get_u32 (a ∷ b ∷ []) = a + b * 2 ^ 8
get_u32 (a ∷ b ∷ c ∷ []) = a + b * 2 ^ 8 + c * 2 ^ 16
get_u32 (a ∷ b ∷ c ∷ d ∷ rest) = a + b * 2 ^ 8 + c * 2 ^ 16 + d * 2 ^ 24

-- `LittleEndian.PutUint32`
unfoldable pub put_u32 : ℕ → List ℕ
put_u32 w = w % 2 ^ 8 ∷ w / 2 ^ 8 % 2 ^ 8 ∷ w / 2 ^ 16 % 2 ^ 8 ∷ w / 2 ^ 24 % 2 ^ 8 ∷ []

abbrev pub IsBytes : List ℕ → Type 0
IsBytes = All (λ b. b < 256)

-- Reading a word back.
pub get-put_append : (w : ℕ) (rest : List ℕ) → w < 2 ^ 32 → get_u32 (put_u32 w ++ rest) ≡ w
unfolding get_u32 put_u32
get-put_append w rest h = omega arith

-- Writing a word that was read from four bytes.
pub put-get :
    (a b c d : ℕ) (rest : List ℕ)
    → a < 256
    → b < 256
    → c < 256
    → d < 256
    → put_u32 (get_u32 (a ∷ b ∷ c ∷ d ∷ rest)) ≡ a ∷ b ∷ c ∷ d ∷ []
unfolding get_u32 put_u32
put-get a b c d rest ha hb hc hd = ground arith

pub get_u32_lt : (bytes : List ℕ) → IsBytes bytes → get_u32 bytes < 2 ^ 32
unfolding get_u32
get_u32_lt [] h = omega arith
get_u32_lt (a ∷ []) h = omega arith
get_u32_lt (a ∷ b ∷ []) h = omega arith
get_u32_lt (a ∷ b ∷ c ∷ []) h = omega arith
get_u32_lt (a ∷ b ∷ c ∷ d ∷ rest) h = omega arith

pub drop-put : (w : ℕ) (rest : List ℕ) → drop 4 (put_u32 w ++ rest) ≡ rest
unfolding put_u32
drop-put w rest = refl

pub length-put : (w : ℕ) (rest : List ℕ) → length (put_u32 w ++ rest) ≡ length rest + 4
unfolding put_u32
length-put w rest = omega arith

pub take-put : (w : ℕ) (rest : List ℕ) → take 4 (put_u32 w ++ rest) ≡ put_u32 w
unfolding put_u32
take-put w rest = refl
