-- ===== src/Encryption/Cipher.antt =====
-- share/encryption/encryption.go: `Encryption`, with its methods as functions that return the new
-- state. A slice is the list of its bytes; `j` walks it by `drop`. An index out of range is `panic`.
pub mod Words
pub mod Packets
pub mod State
pub mod Total
mod Tests
use Prim.Native.Nat.{bit_and, bit_or, bit_xor}
use freya.Common.{
  ℕ, zero, suc, ◌+◌, ◌-◌, ◌*◌, ◌/◌, ◌%◌, ◌^◌, Bool, true, false, ◌||◌, ◌&&◌, not, List, [], ◌∷◌,
  ◌++◌, take, drop, replicate, length, get_or, ltb, leb, ◌==◌, if◌then◌else◌,
}
use freya.Encryption.Bytes.{get_u32, put_u32}
use freya.Encryption.Tables.{
  XorKeyTable, recv_xor_key_num, recv_xor_key_num_mask, send_xor_key, s2c_header_size,
  c2s_header_size, main_cmd_size, connect_2_svr_size, magic_key,
}

pub record Encryption : Type 0 where
  pub recv_xor_key : ℕ  -- uint32
  pub is_first_packet : Bool
  pub xor_key_table_base_multiple : ℕ
  pub key : XorKeyTable
  pub recv_xor_key_idx : ℕ

pub data Error : Type 0 where
  too_short : ℕ → Error
  invalid_magic : ℕ → Error
  invalid_size : ℕ → Error

pub data Result : Type 0 where
  ok : List ℕ → Result
  err : Error → Result
  panic : Result

-- `Encryption.Init`; `random` is what `rand.Intn(RecvXorKeyNum)` returns.
unfoldable pub init : XorKeyTable → ℕ → Encryption → Encryption
init table random e = record {
  recv_xor_key = e.recv_xor_key;
  is_first_packet = true;
  xor_key_table_base_multiple = 1;
  key = table;
  recv_xor_key_idx = random;
}

-- `e.Key.KeyTable[(xorNum & RecvXorKeyNumMask) * multiple]`
pub key_index : ℕ → ℕ → ℕ
key_index multiple xor_num = bit_and xor_num recv_xor_key_num_mask * multiple

pub next_key : List ℕ → ℕ → ℕ → ℕ
next_key table multiple xor_num = get_or table (key_index multiple xor_num) 0

-- The index is in the table; where one is not, Go panics, and what `next_key` yields is not used.
pub has_key : List ℕ → ℕ → ℕ → Bool
has_key table multiple xor_num = ltb (key_index multiple xor_num) (length table)

-- The global `mask`, at the 0 to 3 bytes that remain.
pub mask : ℕ → ℕ
mask zero = 0xffffffff
mask (suc zero) = 0xffffff00
mask (suc (suc zero)) = 0xffff0000
mask (suc (suc (suc n))) = 0xff000000

-- `Encryption.GetPacketSize`.
unfoldable pub get_packet_size : Encryption → List ℕ → ℕ
get_packet_size e bytes =
    if not e.is_first_packet
    then bit_xor (get_u32 bytes) e.recv_xor_key / 2 ^ 16
    else connect_2_svr_size

-- The last `remain` bytes of `Encrypt`.
pub encrypt_tail : ℕ → ℕ → List ℕ → List ℕ
encrypt_tail xor_key remain bytes =
    let xor_num = bit_xor (get_u32 (take remain bytes)) xor_key in
    take remain (put_u32 (bit_xor xor_num (bit_and xor_key (mask remain))))

-- The loop of `Encrypt` with the rounds left, the key, and the bytes from `j` on; `next` is the
-- lookup in the key table.
pub encrypt_words : (ℕ → ℕ) → ℕ → ℕ → ℕ → List ℕ → List ℕ
encrypt_words next zero xor_key remain bytes = encrypt_tail xor_key remain bytes
encrypt_words next (suc n) xor_key remain bytes =
    let xor_num = bit_xor (get_u32 bytes) xor_key in
    put_u32 xor_num ++ encrypt_words next n (next xor_num) remain (drop 4 bytes)

-- That loop finds all its keys.
pub encrypt_finds : (ℕ → Bool) → (ℕ → ℕ) → ℕ → ℕ → List ℕ → Bool
encrypt_finds has next zero xor_key bytes = true
encrypt_finds has next (suc n) xor_key bytes =
    let xor_num = bit_xor (get_u32 bytes) xor_key in
    has xor_num && encrypt_finds has next n (next xor_num) (drop 4 bytes)

-- `Encryption.Encrypt`
pub encrypt : Encryption → List ℕ → Result
encrypt e bytes =
    let len = length bytes in
    let xor_num = bit_xor (get_u32 bytes) send_xor_key in
    let next = next_key e.key.key_table 1 in
    let has = has_key e.key.key_table 1 in
    let payload_len = len - (s2c_header_size - main_cmd_size) in
    if ltb len s2c_header_size
    then err (too_short len)
    else if not
        (has xor_num && encrypt_finds has next (payload_len / 4) (next xor_num) (drop 4 bytes))
    then panic
    else ok (
        put_u32 xor_num
        ++ encrypt_words next (payload_len / 4) (next xor_num) (len % 4) (drop 4 bytes))

-- The last `remain` bytes of `Decrypt`.
pub decrypt_tail : ℕ → ℕ → List ℕ → List ℕ
decrypt_tail xor_key remain bytes =
    let xor_num = get_u32 (take remain bytes) in
    take remain (put_u32 (bit_xor (bit_xor xor_num xor_key) (bit_and xor_key (mask remain))))

-- The loop of `Decrypt`, like that of `Encrypt`: the key follows from the word before decryption.
pub decrypt_words : (ℕ → ℕ) → ℕ → ℕ → ℕ → List ℕ → List ℕ
decrypt_words next zero xor_key remain bytes = decrypt_tail xor_key remain bytes
decrypt_words next (suc n) xor_key remain bytes =
    let xor_num = get_u32 bytes in
    put_u32 (bit_xor xor_num xor_key) ++ decrypt_words next n (next xor_num) remain (drop 4 bytes)

-- That loop finds all its keys.
pub decrypt_finds : (ℕ → Bool) → ℕ → List ℕ → Bool
decrypt_finds has zero bytes = true
decrypt_finds has (suc n) bytes = has (get_u32 bytes) && decrypt_finds has n (drop 4 bytes)

-- `Decrypt` once the length is known. The four bytes of the checksum are left zero. Fewer than
-- eight bytes, or a length beyond the data, is a slice out of range.
unfoldable pub decrypt_payload : Encryption → ℕ → List ℕ → Result
decrypt_payload e packet_len bytes =
    let header = get_u32 bytes in
    let next = next_key e.key.key_table e.xor_key_table_base_multiple in
    let payload_len = packet_len - (c2s_header_size - main_cmd_size) in
    if ltb packet_len 8 || ltb (length bytes) packet_len
    then panic
    else ok (
        put_u32 (bit_xor header e.recv_xor_key)
        ++ (replicate 4 0
            ++ decrypt_words next (payload_len / 4) (next header) (packet_len % 4) (drop 8 bytes)))

-- The end of `Decrypt`: the key of the next packet.
pub advance : Encryption → Encryption
advance e =
    let multiple = if e.is_first_packet then 2 else e.xor_key_table_base_multiple in
    let idx = e.recv_xor_key_idx + 1 in
    record {
      recv_xor_key = get_or e.key.key_table (e.recv_xor_key_idx * multiple) 0;
      is_first_packet = false;
      xor_key_table_base_multiple = multiple;
      key = e.key;
      recv_xor_key_idx = if leb recv_xor_key_num idx then 0 else idx;
    }

-- The keys that `Decrypt` looks up are all in the table: that of the header, those of the loop, and that of the
-- next packet. An index out of range is a panic.
pub keys_found : Encryption → ℕ → List ℕ → Bool
keys_found e packet_len bytes =
    let has = has_key e.key.key_table e.xor_key_table_base_multiple in
    let payload_len = packet_len - (c2s_header_size - main_cmd_size) in
    let multiple = if e.is_first_packet then 2 else e.xor_key_table_base_multiple in
    has (get_u32 bytes)
    && (decrypt_finds has (payload_len / 4) (drop 8 bytes)
        && ltb (e.recv_xor_key_idx * multiple) (length e.key.key_table))

unfoldable pub guarded : Bool → Result → Result
guarded true r = r
guarded false r = panic

-- A call that panics does not return; the state beside it is the one before `advance`.
unfoldable pub finish : Encryption → Result → Result × Encryption
finish e (ok payload) = (ok payload, advance e)
finish e (err x) = (err x, e)
finish e panic = (panic, e)

-- `Decrypt` of the first packet, whose header gives the key away.
unfoldable pub decrypt_first : Encryption → List ℕ → Result × Encryption
decrypt_first e bytes =
    let header = get_u32 bytes in
    let k = bit_xor header (bit_or magic_key (connect_2_svr_size * 2 ^ 16)) in
    let e' = record e { recv_xor_key = k } in
    let plain = bit_xor header k in
    if not (plain % 2 ^ 16 == magic_key)
    then (err (invalid_magic (plain % 2 ^ 16)), e')
    else if not (plain / 2 ^ 16 == connect_2_svr_size) || ltb connect_2_svr_size c2s_header_size
    then (err (invalid_size (plain / 2 ^ 16)), e')
    else finish e' (
        guarded (keys_found e' connect_2_svr_size bytes)
          (decrypt_payload e' connect_2_svr_size bytes))

-- `Decrypt` of a later packet.
unfoldable pub decrypt_later : Encryption → List ℕ → Result × Encryption
decrypt_later e bytes =
    let header = bit_xor (get_u32 bytes) e.recv_xor_key in
    if not (header % 2 ^ 16 == magic_key)
    then (err (invalid_magic (header % 2 ^ 16)), e)
    else finish e
        (guarded (keys_found e (header / 2 ^ 16) bytes) (decrypt_payload e (header / 2 ^ 16) bytes))

-- `Encryption.Decrypt`; fewer than four bytes are the panic of `Uint32`.
unfoldable pub decrypt : Encryption → List ℕ → Result × Encryption
decrypt e bytes =
    if ltb (length bytes) 4
    then (panic, e)
    else if not e.is_first_packet
    then decrypt_later e bytes
    else decrypt_first e bytes
