-- ===== src/Network/Writer/Sizes.antt =====
-- How far the methods of a `Writer` (share/network/writer.go) move its index, one after the other.
use freya.Common.Signed.{ℤ}
use freya.Common.{
  ℕ, ◌+◌, ◌≤◌, ◌<◌, ◌≡◌, refl, ap, ◌∙◌, Bool, Option, none, some, List, length, replicate,
  length-take, length-replicate, arith,
}
use freya.Network.Writer.{
  uint16, write_uint16, object_bytes, object_bytes, Writer, Object, int32, int, uint8, uint32,
  ◌>=>◌, new_writer, write_number, write_byte, write_int32, write_uint32, write_bool, write_bytes,
}
use freya.Network.Writer.Contents.{
  IsValid, IsNumber, bytes_or_empty, length-object_bytes, write_number-Appends, write_bytes-Appends,
  write_bool-Appends,
}
use freya.Network.Writer.Header.{new_writer_lem}

-- A buffer as `NewWriter` makes it, or a longer one.
abbrev pub IsRoomy : Writer → Type 0
IsRoomy w = IsValid w × (1024 ≤ length w.buffer)

-- A writer that did not panic and is at the index `n`.
abbrev pub Stands : ℕ → Option Writer → Type 0
Stands n o = (w : Writer) × (o ≡ some w) × IsRoomy w × (w.index ≡ n)

abbrev pub Adds : ℕ → (Writer → Option Writer) → Type 0
Adds n f = (w : Writer) → IsRoomy w → Stands (w.index + n) (f w)

pub resize : {n k : ℕ} {o : Option Writer} → n ≡ k → Stands n o → Stands k o
resize same (w, e, r, i) = (w, e, r, i ∙ same)

-- One write after another.
pub then_Stands :
    {n : ℕ} {o : Option Writer} (k : ℕ) (f : Writer → Option Writer)
    → Stands n o
    → Adds k f
    → Stands (n + k) (o >=> f)
then_Stands k f (w, e, r, i) g =
    let (w', e', r', i') = g w r in (w', rw (e, e') refl, r', i' ∙ ap (λ j. j + k) i)

pub number-Adds : (n : ℕ) (obj : Object) → n ≤ 8 → IsNumber obj → Adds n (write_number n obj)
number-Adds n obj small known w (v, r) =
    let (w', e, v', c, i, t, b) = write_number-Appends n obj w small known v in
    (
      w',
      e,
      (v', omega (arith, r, b)),
      omega (arith, i, small, length-take n (bytes_or_empty obj), length-object_bytes obj known),
    )

pub bytes-Adds : (n : ℕ) (bytes : List ℕ) → length bytes ≡ n → Adds n (write_bytes bytes)
bytes-Adds n bytes size w (v, r) =
    let (w', e, v', c, i, t, b) = write_bytes-Appends bytes w v in
    (w', e, (v', omega (arith, r, b)), omega (arith, i, size))

pub bool-Stands :
    {n : ℕ} {o : Option Writer} (b : Bool)
    → n < 1024
    → Stands n o
    → Stands (n + 1) (o >=> write_bool b)
bool-Stands b low (w, e, (v, r), i) =
    let (w', e', v', c', i', t', b') = write_bool-Appends b w v (omega (arith, i, low, r)) in
    (w', rw (e, e') refl, (v', omega (arith, r, b')), omega (arith, i, i'))

pub standing : (w : Writer) → IsRoomy w → Stands w.index (some w)
standing w r = (w, refl, r, refl)

pub then_int32 :
    {n : ℕ} {o : Option Writer} (x : ℤ) → Stands n o → Stands (n + 4) (o >=> write_int32 (int32 x))
unfolding write_int32 object_bytes
then_int32 x s =
    then_Stands 4 (write_int32 (int32 x)) s (number-Adds 4 (int32 x) (omega arith) (λ k. cc k))

pub then_int :
    {n : ℕ} {o : Option Writer} (x : ℤ) → Stands n o → Stands (n + 4) (o >=> write_int32 (int x))
unfolding write_int32 object_bytes
then_int x s =
    then_Stands 4 (write_int32 (int x)) s (number-Adds 4 (int x) (omega arith) (λ k. cc k))

pub then_uint32 :
    {n : ℕ} {o : Option Writer} (x : ℕ)
    → Stands n o
    → Stands (n + 4) (o >=> write_uint32 (uint32 x))
unfolding write_uint32 object_bytes
then_uint32 x s =
    then_Stands 4 (write_uint32 (uint32 x)) s (number-Adds 4 (uint32 x) (omega arith) (λ k. cc k))

pub then_uint :
    {n : ℕ} {o : Option Writer} (x : ℤ) → Stands n o → Stands (n + 4) (o >=> write_uint32 (int x))
unfolding write_uint32 object_bytes
then_uint x s =
    then_Stands 4 (write_uint32 (int x)) s (number-Adds 4 (int x) (omega arith) (λ k. cc k))

pub then_byte :
    {n : ℕ} {o : Option Writer} (x : ℕ) → Stands n o → Stands (n + 1) (o >=> write_byte (uint8 x))
unfolding write_byte object_bytes
then_byte x s =
    then_Stands 1 (write_byte (uint8 x)) s (number-Adds 1 (uint8 x) (omega arith) (λ k. cc k))

pub then_uint16 :
    {n : ℕ} {o : Option Writer} (x : ℕ)
    → Stands n o
    → Stands (n + 2) (o >=> write_uint16 (uint16 x))
unfolding write_uint16 object_bytes
then_uint16 x s =
    then_Stands 2 (write_uint16 (uint16 x)) s (number-Adds 2 (uint16 x) (omega arith) (λ k. cc k))

pub then_uint16_int :
    {n : ℕ} {o : Option Writer} (x : ℤ) → Stands n o → Stands (n + 2) (o >=> write_uint16 (int x))
unfolding write_uint16 object_bytes
then_uint16_int x s =
    then_Stands 2 (write_uint16 (int x)) s (number-Adds 2 (int x) (omega arith) (λ k. cc k))

pub then_byte_int :
    {n : ℕ} {o : Option Writer} (x : ℤ) → Stands n o → Stands (n + 1) (o >=> write_byte (int x))
unfolding write_byte object_bytes
then_byte_int x s =
    then_Stands 1 (write_byte (int x)) s (number-Adds 1 (int x) (omega arith) (λ k. cc k))

pub then_zeros :
    {n : ℕ} {o : Option Writer} (k : ℕ)
    → Stands n o
    → Stands (n + k) (o >=> write_bytes (replicate k 0))
then_zeros k s =
    then_Stands k (write_bytes (replicate k 0)) s
      (bytes-Adds k (replicate k 0) (length-replicate k 0))

pub new_writer-Stands : (code : ℕ) → Stands 6 (new_writer code none)
unfolding new_writer
new_writer-Stands code = let (w, e, v, t, c, i, b) = new_writer_lem code 0xb7e2 in (w, e, (v, b), i)

pub sized : {n : ℕ} {o : Option Writer} → Stands n o → (w : Writer) × (o ≡ some w) × (w.index ≡ n)
sized (w, e, r, i) = (w, e, i)
