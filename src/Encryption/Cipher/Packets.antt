-- ===== src/Encryption/Cipher/Packets.antt =====
-- Whole packets through `Encrypt` and `Decrypt` (share/encryption/encryption.go). The client's side
-- is not in the repository: it is described here by what it must do.
use Prim.Native.Nat.{bit_xor}
use freya.Common.{
  inl, ◌&&◌, ==_ne, ◌≢◌, ℕ, ◌+◌, ◌-◌, ◌*◌, ◌/◌, ◌%◌, ◌^◌, ◌≤◌, ◌<◌, ◌≡◌, ◌↔◌, refl, ap, ◌∙◌, true,
  false, List, ◌∷◌, ◌++◌, length, replicate, take, drop, arith, le→ltb,
}
use freya.Common.Bits.{xor_cancel, xor_lt, xor_comm}
use freya.Encryption.Bytes.{
  take-put, get_u32, put_u32, IsBytes, get_u32_lt, get-put_append, drop-put, length-put, put-get,
}
use freya.Encryption.Tables.{send_xor_key, magic_key}
use freya.Encryption.Tables.Laws.{IsKeyTable}
use freya.Encryption.Cipher.{
  has_key, encrypt_finds, keys_found, guarded, Encryption, ok, err, too_short, invalid_magic,
  next_key, encrypt_words, decrypt_words, encrypt, decrypt_payload, get_packet_size, finish,
  advance, decrypt_first, decrypt_later, decrypt,
}
use freya.Encryption.Cipher.Words.{
  decrypt_words-encrypt_words, length-encrypt_words, length-decrypt_words,
}
use freya.Encryption.Cipher.State.{
  KeysFit, IsValid-KeysFit, has_key_lem, encrypt_finds_all, keys_found_lem, IsValid, next_key-word,
}

-- How a client that knows the table opens what the server sends.
pub open_reply : List ℕ → List ℕ → List ℕ
open_reply table sent =
    let word = get_u32 sent in
    let len = length sent in
    put_u32 (bit_xor word send_xor_key)
    ++ decrypt_words (next_key table 1) ((len - 4) / 4) (next_key table 1 word) (len % 4)
        (drop 4 sent)

-- Every packet of six bytes or more is encrypted, to as many bytes, and the client that holds the
-- key table reads the packet back.
pub open_reply-encrypt :
    (e : Encryption) (bytes : List ℕ)
    → IsKeyTable e.key
    → 6 ≤ length bytes
    → IsBytes bytes
    → (sent : List ℕ) × (encrypt e bytes ≡ ok sent)
      × (length sent ≡ length bytes)
      × (open_reply e.key.key_table sent ≡ bytes)
unfolding encrypt open_reply
open_reply-encrypt e (a ∷ b ∷ c ∷ d ∷ rest) t h hb =
    (sent, rw (le→ltb len 6 h) (rw (found) refl), same_len, back)
  where
    len : ℕ
    len = length (a ∷ b ∷ c ∷ d ∷ rest)

    w : ℕ
    w = get_u32 (a ∷ b ∷ c ∷ d ∷ rest)

    num : ℕ
    num = bit_xor w send_xor_key

    next : ℕ → ℕ
    next = next_key e.key.key_table 1

    every : (x : ℕ) → has_key e.key.key_table 1 x ≡ true
    every x = has_key_lem e.key.key_table 1 x t.size (inl refl)

    found :
        (has_key e.key.key_table 1 num
          && encrypt_finds (has_key e.key.key_table 1) next ((len - 4) / 4) (next num) rest)
        ≡ true
    found =
        rw
          (
            every num,
            encrypt_finds_all (has_key e.key.key_table 1) next ((len - 4) / 4) (next num) rest
                every,
          )
          refl

    body : List ℕ
    body = encrypt_words next ((len - 4) / 4) (next num) (len % 4) rest

    sent : List ℕ
    sent = put_u32 num ++ body

    same_len : length sent ≡ len
    same_len = omega (
      arith,
      length-put num body,
      length-encrypt_words next ((len - 4) / 4) (next num) (len % 4) rest (omega arith),
    )

    num_lt : num < 2 ^ 32
    num_lt = xor_lt 32 w send_xor_key (get_u32_lt (a ∷ b ∷ c ∷ d ∷ rest) hb) (omega arith)

    opened : decrypt_words next ((len - 4) / 4) (next num) (len % 4) body ≡ rest
    opened =
        decrypt_words-encrypt_words next ((len - 4) / 4) (next num) (len % 4) rest
          (λ x. next_key-word e.key 1 x t) (next_key-word e.key 1 num t) (omega arith) (omega arith)
          hb.1.1.1.1

    back : open_reply e.key.key_table sent ≡ a ∷ b ∷ c ∷ d ∷ rest
    back = rw (get-put_append num body num_lt) (
        rw (drop-put num body) (
          rw same_len (
            rw (
              opened,
              xor_cancel w send_xor_key,
              put-get a b c d rest hb.0 hb.1.0 hb.1.1.0 hb.1.1.1.0,
            ))))
open_reply-encrypt e _ t h hb = absurd (omega arith)

-- `Encrypt` refuses exactly the packets that are shorter than the header of a reply.
pub encrypt_short :
    (e : Encryption) (bytes : List ℕ)
    → (encrypt e bytes ≡ err (too_short (length bytes))) ↔ (length bytes < 6)
unfolding encrypt
encrypt_short e bytes = ground arith

-- How a client seals the body of a packet under the header that it sends. The checksum is its own
-- affair.
pub seal : Encryption → ℕ → ℕ → List ℕ → List ℕ
seal e header checksum body =
    let next = next_key e.key.key_table e.xor_key_table_base_multiple in
    put_u32 header
    ++ (put_u32 checksum
        ++ encrypt_words next (length body / 4) (next header) (length body % 4) body)

-- The header of a packet with a body of `n` bytes, before encryption.
abbrev pub plain_header : ℕ → ℕ
plain_header n = magic_key + (8 + n) * 2 ^ 16

-- The payload that `Decrypt` returns for it: the checksum is left zero.
abbrev pub plain_packet : List ℕ → List ℕ
plain_packet body = put_u32 (plain_header (length body)) ++ (replicate 4 0 ++ body)

length-seal :
    (e : Encryption) (header checksum : ℕ) (body : List ℕ)
    → length (seal e header checksum body) ≡ 8 + length body
unfolding seal put_u32
length-seal e header checksum body =
    let next = next_key e.key.key_table e.xor_key_table_base_multiple in
    omega (
      arith,
      length-encrypt_words next (length body / 4) (next header) (length body % 4) body
          (omega arith),
    )

drop-seal :
    (e : Encryption) (header checksum : ℕ) (body : List ℕ)
    → let next = next_key e.key.key_table e.xor_key_table_base_multiple in
      drop 8 (seal e header checksum body)
      ≡ encrypt_words next (length body / 4) (next header) (length body % 4) body
unfolding seal put_u32
drop-seal e header checksum body = refl

get-seal :
    (e : Encryption) (header checksum : ℕ) (body : List ℕ)
    → header < 2 ^ 32
    → get_u32 (seal e header checksum body) ≡ header
unfolding seal
get-seal e header checksum body h = get-put_append header _ h

decrypt_payload-seal :
    (e : Encryption) (header checksum : ℕ) (body : List ℕ)
    → IsKeyTable e.key
    → header < 2 ^ 32
    → IsBytes body
    → bit_xor header e.recv_xor_key ≡ plain_header (length body)
    → decrypt_payload e (8 + length body) (seal e header checksum body) ≡ ok (plain_packet body)
unfolding decrypt_payload
decrypt_payload-seal e header checksum body t h b k =
    let n = length body in
    let next = next_key e.key.key_table e.xor_key_table_base_multiple in
    let quot : (8 + n - 8) / 4 ≡ n / 4 = omega arith in
    let rem : (8 + n) % 4 ≡ n % 4 = omega arith in
    let opened : decrypt_words next (n / 4) (next header) (n % 4)
          (encrypt_words next (n / 4) (next header) (n % 4) body)
        ≡ body =
      decrypt_words-encrypt_words next (n / 4) (next header) (n % 4) body
        (λ x. next_key-word e.key _ x t) (next_key-word e.key _ header t) (omega arith)
        (omega arith) b in
    rw (le→ltb (8 + n) 8 (omega arith)) (
      rw (length-seal e header checksum body, le→ltb (8 + n) (8 + n) (omega arith))
        (rw (get-seal e header checksum body h, drop-seal e header checksum body)
          (rw (quot, rem, k, opened))))

-- After the first packet, a client that seals a body of up to 65527 bytes under the current key has
-- it delivered as it was, with the size that `GetPacketSize` announced, and both sides move on.
pub decrypt-seal :
    (e : Encryption) (checksum : ℕ) (body : List ℕ)
    → IsValid e
    → e.is_first_packet ≡ false
    → length body < 65528
    → IsBytes body
    → let sent = seal e (bit_xor (plain_header (length body)) e.recv_xor_key) checksum body in
      (decrypt e sent ≡ (ok (plain_packet body), advance e))
      × (get_packet_size e sent ≡ 8 + length body)
      × (length sent ≡ 8 + length body)
unfolding decrypt decrypt_later get_packet_size finish guarded
decrypt-seal e checksum body v f h b = (accepted, size, length-seal e header checksum body)
  where
    n : ℕ
    n = length body

    header : ℕ
    header = bit_xor (plain_header n) e.recv_xor_key

    sent : List ℕ
    sent = seal e header checksum body

    header_lt : header < 2 ^ 32
    header_lt = xor_lt 32 (plain_header n) e.recv_xor_key (omega arith) v.key_word

    plain : bit_xor header e.recv_xor_key ≡ plain_header n
    plain = xor_cancel (plain_header n) e.recv_xor_key

    magic : plain_header n % 2 ^ 16 ≡ magic_key
    magic = omega arith

    size_field : plain_header n / 2 ^ 16 ≡ 8 + n
    size_field = omega arith

    size : get_packet_size e sent ≡ 8 + n
    size = simp f (rw (get-seal e header checksum body header_lt, plain, size_field))

    accepted : decrypt e sent ≡ (ok (plain_packet body), advance e)
    accepted =
        rw (length-seal e header checksum body, le→ltb (8 + n) 4 (omega arith))
          (simp f (
            rw (get-seal e header checksum body header_lt, plain)
              (rw (magic, size_field)
                (rw
                  (
                    keys_found_lem e (8 + n) sent (IsValid-KeysFit e v),
                    decrypt_payload-seal e header checksum body v.table header_lt b plain,
                  )
                  refl))))

first_key : (header k : ℕ) → bit_xor header (bit_xor header k) ≡ k
first_key header k =
    xor_comm header (bit_xor header k)
    ∙ ap (λ (t : ℕ). bit_xor t header) (xor_comm header k)
    ∙ xor_cancel k header

-- The first packet of a connection is accepted whatever its 14 bytes are: the key is set to the one
-- under which the header reads as the magic number and the length 14, and the state moves on.
pub decrypt_first_accepts :
    (e : Encryption) (bytes : List ℕ)
    → e.is_first_packet ≡ true
    → KeysFit e
    → 14 ≤ length bytes
    → (payload : List ℕ) × (decrypt e bytes ≡ (
      ok payload,
      advance (record e { recv_xor_key = bit_xor (get_u32 bytes) (plain_header 6) }),
    ))
      × (length payload ≡ 14)
      × (take 4 payload ≡ put_u32 (plain_header 6))
unfolding decrypt decrypt_first finish decrypt_payload guarded
decrypt_first_accepts e bytes f fit h =
    (put_u32 (plain_header 6) ++ (replicate 4 0 ++ body), accepted, size, take-put _ _)
  where
    header : ℕ
    header = get_u32 bytes

    next : ℕ → ℕ
    next = next_key e.key.key_table e.xor_key_table_base_multiple

    body : List ℕ
    body = decrypt_words next 1 (next header) 2 (drop 8 bytes)

    size : length (put_u32 (plain_header 6) ++ (replicate 4 0 ++ body)) ≡ 14
    size = omega (
      arith,
      length-put (plain_header 6) (replicate 4 0 ++ body),
      length-decrypt_words next 1 (next header) 2 (drop 8 bytes) (omega arith),
    )

    found :
        keys_found
          (record e { recv_xor_key = bit_xor header (plain_header 6); is_first_packet = true })
          14
          bytes
        ≡ true
    found =
        keys_found_lem
          (record e { recv_xor_key = bit_xor header (plain_header 6); is_first_packet = true }) 14
          bytes
          (record {
            size = fit.size;
            idx_low = fit.idx_low;
            multiple = ground (arith, fit.multiple, f);
          })

    accepted : decrypt e bytes ≡ (
      ok (put_u32 (plain_header 6) ++ (replicate 4 0 ++ body)),
      advance (record e { recv_xor_key = bit_xor header (plain_header 6) }),
    )
    accepted = rw (le→ltb (length bytes) 4 (omega arith)) (
        simp f
          (rw (first_key header (plain_header 6)) (rw (found) (rw (le→ltb (length bytes) 14 h)))))

-- A later packet, of four bytes or more, whose header does not decrypt to the magic number is refused,
-- and the state stays.
pub decrypt_refuses :
    (e : Encryption) (bytes : List ℕ)
    → e.is_first_packet ≡ false
    → 4 ≤ length bytes
    → bit_xor (get_u32 bytes) e.recv_xor_key % 2 ^ 16 ≢ magic_key
    → decrypt e bytes ≡ (err (invalid_magic (bit_xor (get_u32 bytes) e.recv_xor_key % 2 ^ 16)), e)
unfolding decrypt decrypt_later
decrypt_refuses e bytes f h ne =
    rw (le→ltb (length bytes) 4 h)
      (simp f (rw (==_ne (bit_xor (get_u32 bytes) e.recv_xor_key % 2 ^ 16) magic_key ne)))
