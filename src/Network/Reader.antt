-- ===== src/Network/Reader.antt =====
-- share/network/reader.go: `Reader`. A method returns the value and the new reader; `none` is a
-- panic (`log.Panic`, or an index out of range). A signed value is an integer.
pub mod Places
pub mod Takes
use Prim.Native.Nat.{◌*◌, ◌%◌, ◌^◌}
use freya.Common.Signed.{ℤ, signed}
use freya.Common.{
  ◌≡◌, ℕ, zero, suc, ◌+◌, Option, none, some, List, take, drop, length, get_or, ltb, if◌then◌else◌,
}

pub record Reader : Type 0 where
  pub buffer : List ℕ
  pub index : ℕ
  pub magic_key : ℕ  -- uint16
  pub size : ℕ  -- uint16
  pub check_sum : ℕ  -- uint32
  pub packet_type : ℕ  -- uint16

-- What a method gives back.
abbrev pub Read : Type 0 → Type 0
Read A = Reader → Option (A × Reader)

infixl 5 ◌>>=◌
abbrev pub ◌>>=◌ : {A B : Type 0} → Read A → (A → Read B) → Read B
◌>>=◌ m f r = elim (m r) [ none ↦ none | some (a, r') ↦ f a r' ]

-- `r.buffer[r.index+k]`, times its place, in a type of width `w`; the callers check the length.
unfoldable pub place : ℕ → ℕ → Reader → ℕ
place w k r = get_or r.buffer (r.index + k) 0 * 2 ^ (8 * k) % 2 ^ w

-- `data`, once `n` bytes are added up from the first on, in a type of width `w`.
unfoldable pub sum_places : ℕ → ℕ → Reader → ℕ
unfolding place
sum_places w zero r = 0
sum_places w (suc n) r = (sum_places w n r + place w n r) % 2 ^ w

-- The body that the methods on numbers share: the check of the length, the bytes, the index.
unfoldable pub read_places : ℕ → ℕ → Read ℕ
unfolding sum_places
read_places w n r =
    if ltb (length r.buffer) (r.index + n)
    then none
    else some (sum_places w n r, record r { index = r.index + n })

-- The same for the signed types: the pattern stands for an integer.
unfoldable pub read_signed : ℕ → ℕ → Read ℤ
read_signed w n r = elim (read_places w n r) [ none ↦ none | some (p, r') ↦ some (signed w p, r') ]

pub read_signed_lem :
    (w n p : ℕ) (r r' : Reader)
    → read_places w n r ≡ some (p, r')
    → read_signed w n r ≡ some (signed w p, r')
unfolding read_signed
read_signed_lem w n p r r' e = rw (e, read_signed)

unfoldable pub read_sbyte : Read ℤ
read_sbyte = read_signed 8 1

unfoldable pub read_byte : Read ℕ
read_byte = read_places 8 1

unfoldable pub read_int16 : Read ℤ
read_int16 = read_signed 16 2

unfoldable pub read_uint16 : Read ℕ
read_uint16 = read_places 16 2

unfoldable pub read_int32 : Read ℤ
read_int32 = read_signed 32 4

unfoldable pub read_uint32 : Read ℕ
read_uint32 = read_places 32 4

unfoldable pub read_int64 : Read ℤ
read_int64 = read_signed 64 8

unfoldable pub read_uint64 : Read ℕ
read_uint64 = read_places 64 8

-- `ReadBytes`, for a length that is not negative: `len(r.buffer) <= r.index+length-1` is the test
-- that the buffer is shorter than `r.index+length`.
unfoldable pub read_bytes : ℕ → Read (List ℕ)
read_bytes n r =
    if ltb (length r.buffer) (r.index + n)
    then none
    else some (take n (drop r.index r.buffer), record r { index = r.index + n })

-- `ReadString`; a Go string is its bytes.
unfoldable pub read_string : ℕ → Read (List ℕ)
read_string n r =
    if ltb (length r.buffer) (r.index + n)
    then none
    else some (take n (drop r.index r.buffer), record r { index = r.index + n })

-- The reads of `NewReader`, whose results are fields of the reader.
unfoldable pub read_header : Read (Unit {0})
unfolding read_uint16 read_uint32
read_header = do
  magic ← read_uint16
  size ← read_uint16
  sum ← read_uint32
  type ← read_uint16
  λ r. some (tt, record r { magic_key = magic; size = size; check_sum = sum; packet_type = type })

-- `NewReader`: a reader past the header of a packet from a client.
unfoldable pub new_reader : List ℕ → Option Reader
unfolding read_header
new_reader bytes =
    let start : Reader = record {
      buffer = bytes;
      index = 0;
      magic_key = 0;
      size = 0;
      check_sum = 0;
      packet_type = 0;
    } in
    elim (read_header start) [ none ↦ none | some (_, r) ↦ some r ]

-- The action on what is read.
abbrev pub answer : {A B : Type 0} → Option (A × Reader) → (A → B) → Option B
answer none f = none
answer (some (a, r)) f = some (f a)

abbrev pub both : {A B : Type 0} → Read A → Read B → Read (A × B)
both p q = p >>= (λ a. q >>= (λ b r. some ((a, b), r)))
