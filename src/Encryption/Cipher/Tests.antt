-- ===== src/Encryption/Cipher/Tests.antt =====
-- The cipher on concrete packets: tests, and the theorems at inputs that meet their hypotheses.
use Prim.Native.Nat.{bit_xor}
use freya.Common.{ℕ, ◌≡◌, refl, false, List, [], ◌∷◌, length, arith}
use freya.Encryption.Bytes.{get_u32, put_u32}
use freya.Encryption.Tables.{XorKeyTable, init_table}
use freya.Encryption.Tables.Laws.{init_table-IsKeyTable}
use freya.Encryption.Cipher.{
  mask, encrypt_tail, decrypt_tail, Encryption, ok, init, key_index, get_packet_size, encrypt,
  decrypt, advance, next_key, encrypt_words, decrypt_words,
}
use freya.Encryption.Cipher.State.{IsValid, init-IsValid, decrypt-IsValid}
use freya.Encryption.Cipher.Packets.{
  open_reply, open_reply-encrypt, seal, plain_header, plain_packet, decrypt-seal,
}

abbrev blank_table : XorKeyTable
blank_table = record { key_table = []; seed_2nd = 0 }

abbrev blank : Encryption
blank = record {
  recv_xor_key = 0;
  is_first_packet = false;
  xor_key_table_base_multiple = 0;
  key = blank_table;
  recv_xor_key_idx = 0;
}

-- A session that has just begun.
abbrev fresh : Encryption
unfolding init
fresh = init (init_table blank_table) 5 blank

fresh-IsValid : IsValid (init (init_table blank_table) 5 blank)
fresh-IsValid =
    init-IsValid (init_table blank_table) 5 blank (init_table-IsKeyTable blank_table) (omega arith)
      (omega arith)

abbrev greeting : List ℕ
greeting = 0xe2 ∷ 0xb7 ∷ 0x0b ∷ 0 ∷ 0x65 ∷ 0 ∷ 1 ∷ 2 ∷ 3 ∷ 4 ∷ 5 ∷ []

abbrev connect : List ℕ
connect = 1 ∷ 2 ∷ 3 ∷ 4 ∷ 5 ∷ 6 ∷ 7 ∷ 8 ∷ 9 ∷ 10 ∷ 11 ∷ 12 ∷ 13 ∷ 14 ∷ []

-- A table of four entries is enough for a small packet whose words end in low bits.
round_trip_small :
    decrypt_words
      (next_key (7 ∷ 8 ∷ 9 ∷ 10 ∷ []) 1)
      1
      99
      3
      (encrypt_words (next_key (7 ∷ 8 ∷ 9 ∷ 10 ∷ []) 1) 1 99 3 (1 ∷ 2 ∷ 3 ∷ 4 ∷ 5 ∷ 6 ∷ 7 ∷ []))
    ≡ 1 ∷ 2 ∷ 3 ∷ 4 ∷ 5 ∷ 6 ∷ 7 ∷ []
unfolding decrypt_words encrypt_words next_key key_index decrypt_tail encrypt_tail mask get_u32
    put_u32
round_trip_small = refl

open_reply-encrypt_example :
    (sent : List ℕ) × (encrypt (init (init_table blank_table) 5 blank) greeting ≡ ok sent)
    × (length sent ≡ 11)
    × (open_reply (init (init_table blank_table) 5 blank).key.key_table sent ≡ greeting)
open_reply-encrypt_example =
    open_reply-encrypt (init (init_table blank_table) 5 blank) greeting fresh-IsValid.table
      (omega arith) (omega arith)

decrypt-IsValid_example : IsValid (decrypt (init (init_table blank_table) 5 blank) connect).1
decrypt-IsValid_example =
    decrypt-IsValid (init (init_table blank_table) 5 blank) connect (omega arith) fresh-IsValid

-- A session after its first packet.
abbrev running : Encryption
running = record {
  recv_xor_key = 0x01020304;
  is_first_packet = false;
  xor_key_table_base_multiple = 2;
  key = init_table blank_table;
  recv_xor_key_idx = 7;
}

running-IsValid : IsValid running
running-IsValid = record {
  table = init_table-IsKeyTable blank_table;
  idx_low = omega arith;
  multiple = refl;
  key_word = omega arith;
}

decrypt-seal_example :
    let sent = seal running (bit_xor (plain_header 3) 0x01020304) 77 (9 ∷ 8 ∷ 7 ∷ []) in
    (decrypt running sent ≡ (ok (plain_packet (9 ∷ 8 ∷ 7 ∷ [])), advance running))
    × (get_packet_size running sent ≡ 11)
    × (length sent ≡ 11)
decrypt-seal_example =
    decrypt-seal running 77 (9 ∷ 8 ∷ 7 ∷ []) running-IsValid refl (omega arith) (omega arith)
