-- ===== src/Network/Writer.antt =====
-- share/network/writer.go: `Writer`. A method returns the new writer; `none` is a panic (an index
-- out of range).
pub mod Splice
pub mod Contents
pub mod Header
pub mod Sizes
use freya.Common.Signed.{ℤ, pos, pattern_of}
use freya.Encryption.Tables.{magic_key}
use freya.Common.{
  ◌-◌, set, ℕ, zero, suc, ◌+◌, ◌*◌, ◌/◌, ◌%◌, ◌^◌, Bool, true, false, Option, none, some, List, [],
  ◌∷◌, ◌++◌, take, drop, replicate, length, set, ltb, if◌then◌else◌, ◌-◌,
}

abbrev pub default_buffer_size : ℕ
default_buffer_size = 1024

pub record Writer : Type 0 where
  pub buffer : List ℕ
  pub index : ℕ
  pub packet_type : ℕ

-- What the methods take as `interface{}`: the types that `getType` knows, and any other.
pub data Object : Type 0 where
  int8 int16 int32 int int64 : ℤ → Object
  uint8 uint16 uint32 uint64 : ℕ → Object
  other : Object

-- `checkLength`, which calls itself until the buffer is long enough, on fuel: `index+length` rounds
-- are enough, since each adds 1024 bytes (`check_length_enough`).
pub grow : ℕ → ℕ → List ℕ → List ℕ
grow zero needed buffer = buffer
grow (suc fuel) needed buffer =
    let longer = grow fuel needed (buffer ++ replicate default_buffer_size 0) in
    if ltb (length buffer) needed then longer else buffer

pub check_length : ℕ → Writer → Writer
unfolding grow
check_length n w = record w { buffer = grow (w.index + n) (w.index + n) w.buffer }

-- `tmp[k] = byte(objType >> 8k)` for the first `n` bytes, the rest of the eight left zero.
unfoldable pub low_bytes : ℕ → ℕ → List ℕ
low_bytes zero p = []
low_bytes (suc n) p = p % 2 ^ 8 ∷ low_bytes n (p / 2 ^ 8)

unfoldable pub object_bytes : Object → Option (List ℕ)
unfolding low_bytes
object_bytes (int8 x) = some (low_bytes 1 (pattern_of 8 x) ++ replicate 7 0)
object_bytes (uint8 x) = some (low_bytes 1 x ++ replicate 7 0)
object_bytes (int16 x) = some (low_bytes 2 (pattern_of 16 x) ++ replicate 6 0)
object_bytes (uint16 x) = some (low_bytes 2 x ++ replicate 6 0)
object_bytes (int32 x) = some (low_bytes 4 (pattern_of 32 x) ++ replicate 4 0)
object_bytes (uint32 x) = some (low_bytes 4 x ++ replicate 4 0)
object_bytes (int x) = some (low_bytes 4 (pattern_of 64 x) ++ replicate 4 0)
object_bytes (int64 x) = some (low_bytes 8 (pattern_of 64 x))
object_bytes (uint64 x) = some (low_bytes 8 x)
object_bytes other = none

-- `getType`: the writer with room made, and the bytes (`none` is the nil slice).
pub get_type : Object → ℕ → Writer → Writer × Option (List ℕ)
get_type obj n w =
    (check_length n w, elim (object_bytes obj) [ none ↦ none | some bytes ↦ some (take n bytes) ])

-- `buffer[i] = b` for bytes at successive places.
pub assign : ℕ → List ℕ → List ℕ → Option (List ℕ)
assign i [] buffer = some buffer
assign i (b ∷ bs) buffer =
    let rest = assign (i + 1) bs (set buffer i b) in if ltb i (length buffer) then rest else none

-- Assign at the index, then move it.
assign_at_index : List ℕ → Writer → Option Writer
unfolding assign
assign_at_index bytes w = elim (assign w.index bytes w.buffer) [
  | none ↦ none
  | some b ↦ some (record w { buffer = b; index = w.index + length bytes })
]

-- The body that the methods on numbers share: `getType`, the assignments, the index.
unfoldable pub write_number : ℕ → Object → Writer → Option Writer
unfolding check_length object_bytes get_type assign_at_index
write_number n obj w =
    let (w', t) = get_type obj n w in elim t [ none ↦ none | some bytes ↦ assign_at_index bytes w' ]

unfoldable pub write_sbyte : Object → Writer → Option Writer
write_sbyte = write_number 1

unfoldable pub write_byte : Object → Writer → Option Writer
write_byte = write_number 1

unfoldable pub write_int16 : Object → Writer → Option Writer
write_int16 = write_number 2

unfoldable pub write_uint16 : Object → Writer → Option Writer
write_uint16 = write_number 2

unfoldable pub write_int32 : Object → Writer → Option Writer
write_int32 = write_number 4

unfoldable pub write_uint32 : Object → Writer → Option Writer
write_uint32 = write_number 4

unfoldable pub write_int64 : Object → Writer → Option Writer
write_int64 = write_number 8

unfoldable pub write_uint64 : Object → Writer → Option Writer
write_uint64 = write_number 8

-- `WriteBool`, which does not make room.
pub write_bool : Bool → Writer → Option Writer
unfolding assign_at_index
write_bool b = assign_at_index ((if b then 1 else 0) ∷ [])

-- `WriteBytes`: `copy` writes as many bytes as there is room for.
pub write_bytes : List ℕ → Writer → Option Writer
unfolding check_length
write_bytes bytes w =
    let w' = check_length (length bytes) w in
    let room = length w'.buffer - w'.index in
    let written = take room bytes in
    if ltb (length w'.buffer) w'.index
    then none
    else some (record w' {
      buffer = take w'.index w'.buffer ++ (written ++ drop (w'.index + length written) w'.buffer);
      index = w'.index + length bytes;
    })

-- `WriteString`, on the bytes of the string.
pub write_string : List ℕ → Writer → Option Writer
unfolding write_bytes
write_string bytes w = write_bytes bytes w

-- `NewWriter`; `magic` is the first of the optional keys.
unfoldable pub new_writer : ℕ → Option ℕ → Option Writer
unfolding write_uint16
new_writer code magic =
    let start : Writer = record {
      buffer = replicate default_buffer_size 0;
      index = 0;
      packet_type = 0;
    } in
    let key : ℕ = elim magic [ none ↦ magic_key | some k ↦ k ] in
    elim (write_uint16 (uint16 key) start) [
      | none ↦ none
      | some w ↦ elim (write_uint16 (int (pos 0)) w) [
        | none ↦ none
        | some w' ↦ elim (write_uint16 (uint16 code) w') [
          | none ↦ none
          | some w'' ↦ some (record w'' { packet_type = code })
        ]
      ]
    ]

-- `Finalize`: the writer with the size filled in, and the packet.
pub finalize : Writer → Option (Writer × List ℕ)
unfolding assign
finalize w =
    let len = w.index in
    elim (assign 2 (len % 2 ^ 8 ∷ len / 2 ^ 8 % 2 ^ 8 ∷ []) w.buffer) [
      | none ↦ none
      | some b ↦ if ltb (length b) len then none else some (record w { buffer = b }, take len b)
    ]

-- Writes one after the other.
infixl 5 ◌>=>◌
abbrev pub ◌>=>◌ : Option Writer → (Writer → Option Writer) → Option Writer
none >=> f = none
some w >=> f = f w
