-- ===== src/Network/RoundTrip.antt =====
-- What a `Writer` writes (share/network/writer.go) a `Reader` reads back (share/network/reader.go).
use mathlib.Core.List.{append_assoc}
use freya.Common.Signed.{ℤ, pos, negsuc, signed, pattern_of, FitsSigned}
use freya.Common.{
  length-take, ℕ, ◌+◌, ◌^◌, ◌≤◌, ◌<◌, ◌≡◌, refl, ap, ◌∙◌, sym, Option, none, some, List, ◌++◌, take,
  arith,
}
use freya.Network.Reader.{
  read_signed_lem, Reader, read_sbyte, read_byte, read_int16, read_uint16, read_int32, read_uint32,
  read_int64, read_uint64,
}
use freya.Network.Writer.Contents.{
  IsNumber, IsValid, contents, bytes_or_empty, write_number-Appends,
}
use freya.Network.Writer.{
  Writer, Object, int8, uint8, int16, uint16, int32, uint32, int, int64, uint64, other, low_bytes,
  object_bytes, write_number, write_sbyte, write_byte, write_int16, write_uint16, write_int32,
  write_uint32, write_int64, write_uint64,
}
use freya.Network.Reader.Places.{Before, read_one, read_two, read_four, read_eight}

-- The method that has an object's own width; an `int` goes through `WriteInt32`.
abbrev pub write : Object → Writer → Option Writer
write (int8 z) = write_sbyte (int8 z)
write (uint8 x) = write_byte (uint8 x)
write (int16 z) = write_int16 (int16 z)
write (uint16 x) = write_uint16 (uint16 x)
write (int32 z) = write_int32 (int32 z)
write (uint32 x) = write_uint32 (uint32 x)
write (int z) = write_int32 (int z)
write (int64 z) = write_int64 (int64 z)
write (uint64 x) = write_uint64 (uint64 x)
write other = λ w. none

-- The object is a value of its type; an `int`, of 32 bits.
abbrev pub Fits : Object → Type 0
Fits (int8 z) = FitsSigned 8 z
Fits (uint8 x) = x < 2 ^ 8
Fits (int16 z) = FitsSigned 16 z
Fits (uint16 x) = x < 2 ^ 16
Fits (int32 z) = FitsSigned 32 z
Fits (uint32 x) = x < 2 ^ 32
Fits (int z) = FitsSigned 32 z
Fits (int64 z) = FitsSigned 64 z
Fits (uint64 x) = x < 2 ^ 64
Fits other = ⊥

-- The reader's method of that width returns the object's value and moves past it.
abbrev pub ReadsBack : Object → Reader → Type 0
ReadsBack (int8 z) r = read_sbyte r ≡ some (z, record r { index = r.index + 1 })
ReadsBack (uint8 x) r = read_byte r ≡ some (x, record r { index = r.index + 1 })
ReadsBack (int16 z) r = read_int16 r ≡ some (z, record r { index = r.index + 2 })
ReadsBack (uint16 x) r = read_uint16 r ≡ some (x, record r { index = r.index + 2 })
ReadsBack (int32 z) r = read_int32 r ≡ some (z, record r { index = r.index + 4 })
ReadsBack (uint32 x) r = read_uint32 r ≡ some (x, record r { index = r.index + 4 })
ReadsBack (int z) r = read_int32 r ≡ some (z, record r { index = r.index + 4 })
ReadsBack (int64 z) r = read_int64 r ≡ some (z, record r { index = r.index + 8 })
ReadsBack (uint64 x) r = read_uint64 r ≡ some (x, record r { index = r.index + 8 })
ReadsBack other r = ⊥

signed-pattern_of :
    (z : ℤ)
    → (FitsSigned 8 z → signed 8 (pattern_of 8 z) ≡ z)
      × (FitsSigned 16 z → signed 16 (pattern_of 16 z) ≡ z)
      × (FitsSigned 32 z → signed 32 (pattern_of 32 z) ≡ z)
      × (FitsSigned 64 z → signed 64 (pattern_of 64 z) ≡ z)
signed-pattern_of (pos n) =
    (λ h. ground arith, λ h. ground arith, λ h. ground arith, λ h. ground arith)
signed-pattern_of (negsuc n) =
    (λ h. ground arith, λ h. ground arith, λ h. ground arith, λ h. ground arith)

pattern_of_lt :
    (z : ℤ)
    → (pattern_of 8 z < 2 ^ 8)
      × (pattern_of 16 z < 2 ^ 16)
      × (pattern_of 32 z < 2 ^ 32)
      × (pattern_of 64 z < 2 ^ 64)
pattern_of_lt (pos n) = (omega arith, omega arith, omega arith, omega arith)
pattern_of_lt (negsuc n) = (omega arith, omega arith, omega arith, omega arith)

-- The four low bytes of an `int` that fits 32 bits.
int_low_bytes :
    (z : ℤ) → FitsSigned 32 z → low_bytes 4 (pattern_of 64 z) ≡ low_bytes 4 (pattern_of 32 z)
unfolding low_bytes
int_low_bytes (pos n) h = ground arith
int_low_bytes (negsuc n) h = ground arith

written-Before :
    (n p : ℕ) (obj : Object) (w w' : Writer) (post : List ℕ) (r : Reader)
    → n ≤ 8
    → IsNumber obj
    → take n (bytes_or_empty obj) ≡ low_bytes n p
    → IsValid w
    → write_number n obj w ≡ some w'
    → r.buffer ≡ contents w' ++ post
    → r.index ≡ w.index
    → Before (contents w) n p post r
written-Before n p obj w w' post r small known eb v ew er ei =
    let (u, eu, vu, cu, iu, tu, bu) = write_number-Appends n obj w small known v in
    let same : u ≡ w' = cc (eu, ew) in
    let cw : contents w' ≡ contents w ++ low_bytes n p =
      ap contents (sym same) ∙ cu ∙ ap (λ (l : List ℕ). contents w ++ l) eb in
    (
      er ∙ ap (λ (l : List ℕ). l ++ post) cw ∙ append_assoc (contents w) (low_bytes n p) post,
      omega (arith, ei, v.within, length-take w.index w.buffer),
    )

-- Whatever number a writer writes with the method of its type, a reader that stands where it was
-- written reads back, however much is written after it: all signed and unsigned widths, and an
-- `int` that fits 32 bits.
pub read-write :
    (obj : Object) (w w' : Writer) (post : List ℕ) (r : Reader)
    → Fits obj
    → IsValid w
    → write obj w ≡ some w'
    → r.buffer ≡ contents w' ++ post
    → r.index ≡ w.index
    → ReadsBack obj r
unfolding low_bytes object_bytes bytes_or_empty write_sbyte write_byte write_int16 write_uint16
    write_int32 write_uint32 write_int64 write_uint64 read_sbyte read_byte read_int16 read_uint16
    read_int32 read_uint32 read_int64 read_uint64
read-write (uint8 x) w w' post r f v ew er ei =
    read_one (contents w) x post r
      (written-Before 1 x (uint8 x) w w' post r (omega arith) (λ e. cc) refl v ew er ei) f
read-write (int8 z) w w' post r f v ew er ei =
    let p = pattern_of 8 z in
    let b = written-Before 1 p (int8 z) w w' post r (omega arith) (λ e. cc) refl v ew er ei in
    read_signed_lem _ _ p r _ (read_one (contents w) p post r b (pattern_of_lt z).0)
    ∙ ap (λ (y : ℤ). some (y, record r { index = r.index + 1 })) ((signed-pattern_of z).0 f)
read-write (uint16 x) w w' post r f v ew er ei =
    read_two (contents w) x post r
      (written-Before 2 x (uint16 x) w w' post r (omega arith) (λ e. cc) refl v ew er ei) f
read-write (int16 z) w w' post r f v ew er ei =
    let p = pattern_of 16 z in
    let b = written-Before 2 p (int16 z) w w' post r (omega arith) (λ e. cc) refl v ew er ei in
    read_signed_lem _ _ p r _ (read_two (contents w) p post r b (pattern_of_lt z).1)
    ∙ ap (λ (y : ℤ). some (y, record r { index = r.index + 2 })) ((signed-pattern_of z).1 f)
read-write (uint32 x) w w' post r f v ew er ei =
    read_four (contents w) x post r
      (written-Before 4 x (uint32 x) w w' post r (omega arith) (λ e. cc) refl v ew er ei) f
read-write (int32 z) w w' post r f v ew er ei =
    let p = pattern_of 32 z in
    let b = written-Before 4 p (int32 z) w w' post r (omega arith) (λ e. cc) refl v ew er ei in
    read_signed_lem _ _ p r _ (read_four (contents w) p post r b (pattern_of_lt z).2)
    ∙ ap (λ (y : ℤ). some (y, record r { index = r.index + 4 })) ((signed-pattern_of z).2 f)
read-write (uint64 x) w w' post r f v ew er ei =
    read_eight (contents w) x post r
      (written-Before 8 x (uint64 x) w w' post r (omega arith) (λ e. cc) refl v ew er ei) f
read-write (int64 z) w w' post r f v ew er ei =
    let p = pattern_of 64 z in
    let b = written-Before 8 p (int64 z) w w' post r (omega arith) (λ e. cc) refl v ew er ei in
    read_signed_lem _ _ p r _ (read_eight (contents w) p post r b (pattern_of_lt z).3)
    ∙ ap (λ (y : ℤ). some (y, record r { index = r.index + 8 })) ((signed-pattern_of z).3 f)
read-write (int z) w w' post r f v ew er ei =
    let p = pattern_of 32 z in
    let b =
      written-Before 4 p (int z) w w' post r (omega arith) (λ e. cc) (int_low_bytes z f) v ew er
        ei in
    read_signed_lem _ _ p r _ (read_four (contents w) p post r b (pattern_of_lt z).2)
    ∙ ap (λ (y : ℤ). some (y, record r { index = r.index + 4 })) ((signed-pattern_of z).2 f)
read-write other w w' post r f v ew er ei = absurd f
