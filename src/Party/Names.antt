-- ===== src/Party/Names.antt =====
-- The names in party packets: `writePartyName`, `decodePartyName` and `writeFixedPartyString` of
-- cmd/gameserver/packet/party.go. A Go string is its bytes.
use freya.Common.{
  ℕ, zero, suc, ◌-◌, ◌≤◌, ◌≡◌, refl, ap, ◌∙◌, false, ◌&&◌, List, [], ◌∷◌, length, take, is_empty,
  length-take, take_all, ◌<◌, leb, ltb, arith, ◌==◌, if◌then◌else◌,
}

-- `strings.TrimRight(raw, "\x00")`
unfoldable pub trim_right : List ℕ → List ℕ
trim_right [] = []
trim_right (b ∷ bs) = let rest = trim_right bs in if b == 0 && is_empty rest then [] else b ∷ rest

-- `decodePartyName`
unfoldable pub decode_name : List ℕ → List ℕ
unfolding trim_right
decode_name [] = []
decode_name (n ∷ bytes) =
    if ltb 0 n && leb n (length bytes) then take (n - 1) bytes else trim_right (n ∷ bytes)

-- `copy` into a slice of zeros: what fits.
unfoldable pub padded : ℕ → List ℕ → List ℕ
padded zero bytes = []
padded (suc size) [] = 0 ∷ padded size []
padded (suc size) (b ∷ bytes) = b ∷ padded size bytes

-- `writePartyName`: the bytes that it writes.
unfoldable pub party_name : List ℕ → List ℕ
unfolding padded
party_name name = let name' = take 16 name in suc (length name') ∷ padded 16 name'

pub length-padded : (size : ℕ) (bytes : List ℕ) → length (padded size bytes) ≡ size
unfolding padded
length-padded zero bytes = refl
length-padded (suc size) [] = ap suc (length-padded size [])
length-padded (suc size) (b ∷ bytes) = ap suc (length-padded size bytes)

take-padded :
    (size : ℕ) (bytes : List ℕ)
    → length bytes ≤ size
    → take (length bytes) (padded size bytes) ≡ bytes
unfolding padded
take-padded zero [] h = refl
take-padded (suc size) [] h = refl
take-padded zero (b ∷ bytes) h = absurd (omega (arith, h))
take-padded (suc size) (b ∷ bytes) h = ap (λ bs. b ∷ bs) (take-padded size bytes (omega (arith, h)))

padded_full :
    (size : ℕ) (bytes : List ℕ)
    → size ≤ length bytes
    → padded size (take size bytes) ≡ take size bytes
unfolding padded
padded_full zero bytes h = refl
padded_full (suc size) [] h = absurd (omega (arith, h))
padded_full (suc size) (b ∷ bytes) h = ap (λ bs. b ∷ bs) (padded_full size bytes (omega (arith, h)))

-- A length that the bytes have room for is taken for one.
decode_name_short :
    (n : ℕ) (bytes : List ℕ) → suc n ≤ length bytes → decode_name (suc n ∷ bytes) ≡ take n bytes
unfolding decode_name
decode_name_short n bytes h = ground (arith, h)

decode_name_long :
    (n : ℕ) (bytes : List ℕ) → length bytes < n → decode_name (n ∷ bytes) ≡ trim_right (n ∷ bytes)
unfolding decode_name
decode_name_long n bytes h =
    let test : (ltb 0 n && leb n (length bytes)) ≡ false = ground (arith, h) in
    rw (test, decode_name) refl

-- A party packet gives a name of up to 15 bytes back as it was: the field is always 17 bytes.
pub decode_name-party_name :
    (name : List ℕ)
    → length name ≤ 15
    → (decode_name (party_name name) ≡ name) × (length (party_name name) ≡ 17)
unfolding party_name
decode_name-party_name name h =
    let whole = take_all 16 name (omega (arith, h)) in
    let room = length-padded 16 name in
    let back : decode_name (suc (length name) ∷ padded 16 name) ≡ name =
      decode_name_short (length name) (padded 16 name) (omega (arith, h, room))
      ∙ take-padded 16 name (omega (arith, h)) in
    (
      ap (λ n. decode_name (suc (length n) ∷ padded 16 n)) whole ∙ back,
      ap suc (length-padded 16 (take 16 name)),
    )

-- The field of a name of 16 bytes or more says 17, which `decodePartyName` does not take for a length: the
-- byte stays in front of the name.
pub decode_name_full :
    (name : List ℕ)
    → 16 ≤ length name
    → decode_name (party_name name) ≡ trim_right (17 ∷ take 16 name)
unfolding party_name
decode_name_full name h =
    let size : length (take 16 name) ≡ 16 = omega (arith, length-take 16 name, h) in
    ap (λ n. decode_name (suc n ∷ padded 16 (take 16 name))) size
    ∙ decode_name_long 17 (padded 16 (take 16 name))
        (omega (arith, length-padded 16 (take 16 name)))
    ∙ ap (λ n. trim_right (17 ∷ n)) (padded_full 16 name h)
