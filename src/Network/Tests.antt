-- ===== src/Network/Tests.antt =====
-- Packets written and read: tests, and the theorems at inputs that meet their hypotheses.
use freya.Common.Signed.{negsuc}
use freya.Common.{◌≡◌, refl, none, some, [], ◌∷◌, arith}
use freya.Network.Reader.{read_places, Reader, read_uint16, read_int32, new_reader}
use freya.Network.Writer.{Writer, int32, write_number, write_int32}
use freya.Network.Writer.Contents.{IsValid}
use freya.Network.RoundTrip.{read-write}

-- A writer whose buffer is full.
abbrev full : Writer
full = record { buffer = 1 ∷ 2 ∷ 3 ∷ 4 ∷ 5 ∷ []; index = 5; packet_type = 7 }

full-IsValid : IsValid full
full-IsValid = record { within = omega arith; sized = omega arith }

-- Room for a negative number, which is then read back.
abbrev roomy : Writer
roomy = record { buffer = 1 ∷ 2 ∷ 3 ∷ 4 ∷ 0 ∷ 0 ∷ 0 ∷ 0 ∷ 0 ∷ []; index = 4; packet_type = 7 }

abbrev written : Writer
written = record {
  buffer = 1 ∷ 2 ∷ 3 ∷ 4 ∷ 251 ∷ 255 ∷ 255 ∷ 255 ∷ 0 ∷ [];
  index = 8;
  packet_type = 7;
}

abbrev reader : Reader
reader = record {
  buffer = 1 ∷ 2 ∷ 3 ∷ 4 ∷ 251 ∷ 255 ∷ 255 ∷ 255 ∷ 66 ∷ [];
  index = 4;
  magic_key = 0;
  size = 0;
  check_sum = 0;
  packet_type = 0;
}

write_negative : write_int32 (int32 (negsuc 4)) roomy ≡ some written
unfolding write_int32 write_number
write_negative = refl

read-write_example : read_int32 reader ≡ some (negsuc 4, record reader { index = 8 })
read-write_example =
    read-write (int32 (negsuc 4)) roomy written (66 ∷ []) reader (omega arith)
      (record { within = omega arith; sized = omega arith }) write_negative refl refl

short_header : new_reader (1 ∷ 2 ∷ 3 ∷ []) ≡ none
unfolding new_reader read_uint16 read_places
short_header = refl
