-- ===== src/Network/Writer/Header.antt =====
-- The header of a packet as `NewWriter` begins and `Finalize` ends it (share/network/writer.go).
use freya.Common.{
  le→ltb, length-take, ℕ, suc, ◌/◌, ◌%◌, ◌^◌, ◌≤◌, ◌≡◌, refl, ap, some, List, [], ◌∷◌, ◌++◌, take,
  replicate, length, arith,
}
use freya.Network.Writer.{
  write_uint16, new_writer, finalize, low_bytes, Writer, grow, check_length, object_bytes, get_type,
  assign, assign_at_index, write_number,
}
use freya.Network.Writer.Contents.{contents, IsValid}

sized_buffer :
    (buffer : List ℕ) (n lo hi a b c d : ℕ) (body : List ℕ)
    → n ≤ length buffer
    → take n buffer ≡ a ∷ b ∷ c ∷ d ∷ body
    → (out : List ℕ) × (assign 2 (lo ∷ hi ∷ []) buffer ≡ some out)
      × (length out ≡ length buffer)
      × (take n out ≡ a ∷ b ∷ lo ∷ hi ∷ body)
unfolding assign
sized_buffer (x ∷ y ∷ z ∷ t ∷ rest) (suc (suc (suc (suc n)))) lo hi a b c d body h e =
    (x ∷ y ∷ lo ∷ hi ∷ rest, ground arith, refl, cc)
sized_buffer buffer n lo hi a b c d body h e =
    absurd (omega (arith, ap (λ (l : List ℕ). length l) e, length-take n buffer))

-- `Finalize` returns the bytes written, with the third and fourth replaced by their number modulo
-- 2 ^ 16, the lower byte first.
pub finalize_lem :
    (w : Writer) (a b c d : ℕ) (body : List ℕ)
    → IsValid w
    → contents w ≡ a ∷ b ∷ c ∷ d ∷ body
    → (w' : Writer) × (finalize w
        ≡ some (w', a ∷ b ∷ w.index % 2 ^ 8 ∷ w.index / 2 ^ 8 % 2 ^ 8 ∷ body))
unfolding finalize
finalize_lem w a b c d body v e =
    let (out, eo, lo, to) =
      sized_buffer w.buffer w.index (w.index % 2 ^ 8) (w.index / 2 ^ 8 % 2 ^ 8) a b c d body
        v.within e in
    (
      record w { buffer = out },
      rw (eo, finalize)
          (rw (le→ltb (length out) w.index (omega (arith, lo, v.within)))
            (ap (λ (l : List ℕ). some (record w { buffer = out }, l)) to)),
    )

-- A new writer holds the six bytes of a header: the key, a size of zero and the code.
pub new_writer_lem :
    (code key : ℕ)
    → (w : Writer) × (new_writer code (some key) ≡ some w)
      × IsValid w
      × (w.packet_type ≡ code)
      × (contents w ≡ low_bytes 2 key ++ (0 ∷ 0 ∷ low_bytes 2 code))
      × (w.index ≡ 6)
      × (1024 ≤ length w.buffer)
unfolding new_writer write_uint16 write_number get_type check_length grow object_bytes low_bytes
    assign_at_index assign
new_writer_lem code key = (
  written,
  refl,
  record { within = omega arith; sized = omega arith },
  refl,
  refl,
  refl,
  omega arith,
)
  where
    written : Writer
    written = record {
      buffer = low_bytes 2 key ++ (0 ∷ 0 ∷ (low_bytes 2 code ++ replicate 1018 0));
      index = 6;
      packet_type = code;
    }
