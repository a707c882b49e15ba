-- ===== src/Network/Writer/Contents.antt =====
-- What a `Writer` (share/network/writer.go) has written, as a list to which every method appends.
use freya.Common.{
  if◌then◌else◌, ◌∷◌, [], ◌<◌, subst, le→ltb, take_all, ◌-◌, ◌↔◌, ◌∙◌, length-take, ℕ, zero, suc,
  ◌+◌, ◌/◌, ◌^◌, ◌≤◌, ◌≡◌, ◌≢◌, refl, ap, Bool, Option, none, some, List, [], ◌++◌, take, replicate,
  length, arith, length-append, length-replicate, take-append,
}
use freya.Network.Writer.{
  int8, other, low_bytes, int8, Writer, Object, default_buffer_size, grow, check_length,
  object_bytes, get_type, assign, assign_at_index, write_number, write_bool, write_bytes,
}
use freya.Network.Writer.Splice.{splice, assign-splice, length-splice, take-splice}

-- The bytes written so far, and what holds of a writer between calls.
abbrev pub contents : Writer → List ℕ
contents w = take w.index w.buffer

pub record IsValid (w : Writer) : Type 0 where
  pub within : w.index ≤ length w.buffer
  pub sized : 4 ≤ length w.buffer

-- `checkLength` ends: with as many rounds as bytes are needed, the buffer is long enough.
pub grow_enough :
    (fuel needed : ℕ) (buffer : List ℕ)
    → needed ≤ length buffer + fuel
    → needed ≤ length (grow fuel needed buffer)
unfolding grow
grow_enough zero needed buffer h = omega arith
grow_enough (suc fuel) needed buffer h = ground (
  arith,
  length-append buffer (replicate default_buffer_size 0),
  length-replicate {A = ℕ} default_buffer_size 0,
  grow_enough fuel needed (buffer ++ replicate default_buffer_size 0),
)

pub grow_le : (fuel needed : ℕ) (buffer : List ℕ) → length buffer ≤ length (grow fuel needed buffer)
unfolding grow
grow_le zero needed buffer = omega arith
grow_le (suc fuel) needed buffer = ground (
  arith,
  length-append buffer (replicate default_buffer_size 0),
  grow_le fuel needed (buffer ++ replicate default_buffer_size 0),
)

pub take-grow :
    (fuel needed k : ℕ) (buffer : List ℕ)
    → k ≤ length buffer
    → take k (grow fuel needed buffer) ≡ take k buffer
unfolding grow
take-grow zero needed k buffer h = refl
take-grow (suc fuel) needed k buffer h = ground (
  arith,
  length-append buffer (replicate default_buffer_size 0),
  take-append k buffer (replicate default_buffer_size 0) h,
  take-grow fuel needed k (buffer ++ replicate default_buffer_size 0),
)

pub length-low_bytes : (n p : ℕ) → length (low_bytes n p) ≡ n
unfolding low_bytes
length-low_bytes zero p = refl
length-low_bytes (suc n) p = ap suc (length-low_bytes n (p / 2 ^ 8))

-- The type of an object is one that `getType` knows.
abbrev pub IsNumber : Object → Type 0
IsNumber obj = object_bytes obj ≢ none

-- The bytes of an object, for the types that `getType` knows.
unfoldable pub bytes_or_empty : Object → List ℕ
bytes_or_empty obj = elim (object_bytes obj) [ none ↦ [] | some bytes ↦ bytes ]

object_bytes-some : (obj : Object) → IsNumber obj → object_bytes obj ≡ some (bytes_or_empty obj)
unfolding bytes_or_empty
object_bytes-some obj h = ground arith

pub length-object_bytes : (obj : Object) → IsNumber obj → length (bytes_or_empty obj) ≡ 8
unfolding bytes_or_empty object_bytes
length-object_bytes other h = absurd (h refl)
length-object_bytes (int8 x) h = refl
length-object_bytes _ h = refl

-- Room is made, and nothing that was written is lost.
check_length-IsValid :
    (n : ℕ) (w : Writer)
    → IsValid w
    → IsValid (check_length n w)
      × (w.index + n ≤ length (check_length n w).buffer)
      × (contents (check_length n w) ≡ contents w)
unfolding check_length
check_length-IsValid n w v = (
  record {
    within = omega (arith, room, v.within);
    sized = omega (arith, v.sized, grow_le (w.index + n) (w.index + n) w.buffer);
  },
  room,
  take-grow (w.index + n) (w.index + n) w.index w.buffer v.within,
)
  where
    room : w.index + n ≤ length (grow (w.index + n) (w.index + n) w.buffer)
    room = grow_enough (w.index + n) (w.index + n) w.buffer (omega arith)

-- What a method that appended `bytes` returns.
abbrev pub Appends : Writer → List ℕ → Option Writer → Type 0
Appends w bytes r =
    (w' : Writer) × (r ≡ some w')
    × IsValid w'
    × (contents w' ≡ contents w ++ bytes)
    × (w'.index ≡ w.index + length bytes)
    × (w'.packet_type ≡ w.packet_type)
    × (length w.buffer ≤ length w'.buffer)

assign_at_index-Appends :
    (bytes : List ℕ) (w : Writer)
    → IsValid w
    → w.index + length bytes ≤ length w.buffer
    → Appends w bytes (assign_at_index bytes w)
unfolding assign_at_index
assign_at_index-Appends bytes w v h = (
  record w { buffer = splice w.index bytes w.buffer; index = w.index + length bytes },
  rw (assign-splice bytes w.index w.buffer h, assign_at_index),
  record {
    within = omega (arith, length-splice bytes w.index w.buffer h);
    sized = omega (arith, length-splice bytes w.index w.buffer h, v.sized);
  },
  take-splice bytes w.index w.buffer v.within,
  refl,
  refl,
  omega (arith, length-splice bytes w.index w.buffer h),
)

Appends-contents :
    (w w' : Writer) (bytes : List ℕ) (r : Option Writer)
    → contents w' ≡ contents w
    → w'.index ≡ w.index
    → w'.packet_type ≡ w.packet_type
    → length w.buffer ≤ length w'.buffer
    → Appends w' bytes r
    → Appends w bytes r
Appends-contents w w' bytes r ec ei et eb (u, er, v, c, i, t, b) =
    (u, er, v, c ∙ ap (λ (l : List ℕ). l ++ bytes) ec, omega arith, t ∙ et, omega (arith, eb, b))

-- Writing a number of a known type never panics, and appends exactly its `n` low bytes.
pub write_number-Appends :
    (n : ℕ) (obj : Object) (w : Writer)
    → n ≤ 8
    → IsNumber obj
    → IsValid w
    → Appends w (take n (bytes_or_empty obj)) (write_number n obj w)
unfolding write_number get_type check_length
write_number-Appends n obj w small known v =
    rw (object_bytes-some obj known, write_number)
      (Appends-contents w w' bytes _ room.2 refl refl longer (
        assign_at_index-Appends bytes w' room.0 (
          omega
            (arith, room.1, length-take n (bytes_or_empty obj), length-object_bytes obj known))))
  where
    w' : Writer
    w' = check_length n w

    bytes : List ℕ
    bytes = take n (bytes_or_empty obj)

    room : IsValid w' × (w.index + n ≤ length w'.buffer) × (contents w' ≡ contents w)
    room = check_length-IsValid n w v

    longer : length w.buffer ≤ length w'.buffer
    longer = grow_le (w.index + n) (w.index + n) w.buffer

-- Writing bytes or a string never panics, and appends all of them.
pub write_bytes-Appends :
    (bytes : List ℕ) (w : Writer) → IsValid w → Appends w bytes (write_bytes bytes w)
unfolding write_bytes assign_at_index check_length
write_bytes-Appends bytes w v = Appends-contents w w' bytes _ room.2 refl refl longer (
    subst (Appends w' bytes) same (assign_at_index-Appends bytes w' room.0 (omega (arith, room.1))))
  where
    w' : Writer
    w' = check_length (length bytes) w

    room : IsValid w' × (w.index + length bytes ≤ length w'.buffer) × (contents w' ≡ contents w)
    room = check_length-IsValid (length bytes) w v

    longer : length w.buffer ≤ length w'.buffer
    longer = grow_le (w.index + length bytes) (w.index + length bytes) w.buffer

    all : take (length w'.buffer - w'.index) bytes ≡ bytes
    all = take_all _ bytes (omega (arith, room.1))

    same : assign_at_index bytes w' ≡ write_bytes bytes w
    same =
        rw (all, le→ltb (length w'.buffer) w'.index (omega (arith, room.1)))
          (rw (assign-splice bytes w'.index w'.buffer (omega (arith, room.1)), assign_at_index))

-- `WriteBool` panics exactly when the buffer is full: unlike the other methods it makes no room.
pub write_bool_panics :
    (b : Bool) (w : Writer) → (write_bool b w ≡ none) ↔ (length w.buffer ≤ w.index)
unfolding write_bool assign_at_index assign
write_bool_panics b w = ground arith

-- With room for it the bool is appended.
pub write_bool-Appends :
    (b : Bool) (w : Writer)
    → IsValid w
    → w.index < length w.buffer
    → Appends w ((if b then 1 else 0) ∷ []) (write_bool b w)
unfolding write_bool
write_bool-Appends b w v h =
    assign_at_index-Appends ((if b then 1 else 0) ∷ []) w v (omega (arith, h))
