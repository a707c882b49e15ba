-- ===== src/Encryption/Cipher/Total.antt =====
-- `Decrypt` of a slice as long as `GetPacketSize` says (share/encryption/encryption.go) does not panic, where its
-- keys are in the table.
use Prim.Native.Nat.{bit_xor, bit_or}
use freya.Encryption.Tables.{magic_key, connect_2_svr_size}
use freya.Encryption.Bytes.{get_u32, put_u32}
use freya.Encryption.Cipher.State.{KeysFit, keys_found_lem}
use freya.Encryption.Cipher.{
  panic, advance, keys_found, guarded, Encryption, Result, ok, err, Error, next_key, decrypt_words,
  decrypt_payload, finish, decrypt_first, decrypt_later, decrypt, get_packet_size,
}
use freya.Encryption.Cipher.Words.{length-decrypt_words}
use freya.Common.{
  ltb, ℕ, ◌-◌, ◌*◌, ◌/◌, ◌%◌, ◌^◌, ◌≤◌, ◌≡◌, refl, ap, sym, subst, if_both, ◌⊎◌, inl, inr, false,
  not, ◌||◌, List, ◌++◌, drop, length, replicate, arith, Bool-cases, ◌==◌,
}

pub decrypt_payload_total :
    (e : Encryption) (n : ℕ) (bytes : List ℕ)
    → 8 ≤ n
    → n ≤ length bytes
    → (payload : List ℕ) × (decrypt_payload e n bytes ≡ ok payload) × (length payload ≡ n)
unfolding decrypt_payload put_u32
decrypt_payload_total e n bytes h h' =
    let next = next_key e.key.key_table e.xor_key_table_base_multiple in
    let body = decrypt_words next ((n - 8) / 4) (next (get_u32 bytes)) (n % 4) (drop 8 bytes) in
    (
      put_u32 (bit_xor (get_u32 bytes) e.recv_xor_key) ++ (replicate 4 0 ++ body),
      ground arith,
      omega (
        arith,
        length-decrypt_words next ((n - 8) / 4) (next (get_u32 bytes)) (n % 4) (drop 8 bytes)
            (omega arith),
      ),
    )

-- A slice as long as its header says is opened, to as many bytes, or refused with an error.
abbrev pub Opens : ℕ → Result × Encryption → Type 0
Opens n r =
    ((payload : List ℕ) × (r.0 ≡ ok payload) × (length payload ≡ n)) ⊎ ((x : Error) × (r.0 ≡ err x))

finish-Opens :
    (e : Encryption) (n : ℕ) (bytes : List ℕ)
    → 8 ≤ n
    → n ≤ length bytes
    → KeysFit e
    → Opens n (finish e (guarded (keys_found e n bytes) (decrypt_payload e n bytes)))
unfolding finish guarded
finish-Opens e n bytes h h' fit =
    let (payload, p, l) = decrypt_payload_total e n bytes h h' in
    rw (keys_found_lem e n bytes fit) (inl (payload, ap (λ (r : Result). (finish e r).0) p, l))

later-Opens :
    (e : Encryption) (bytes : List ℕ)
    → 8 ≤ length bytes
    → length bytes ≡ bit_xor (get_u32 bytes) e.recv_xor_key / 2 ^ 16
    → KeysFit e
    → Opens (length bytes) (decrypt_later e bytes)
unfolding decrypt_later
later-Opens e bytes h s fit =
    let header = bit_xor (get_u32 bytes) e.recv_xor_key in
    if_both (Opens (length bytes)) (not (header % 2 ^ 16 == magic_key)) (inr (_, refl)) (
      subst
        (λ (n : ℕ).
          Opens (length bytes)
            (finish e (guarded (keys_found e n bytes) (decrypt_payload e n bytes))))
        s (finish-Opens e (length bytes) bytes h (omega arith) fit))

first-Opens :
    (e : Encryption) (bytes : List ℕ)
    → length bytes ≡ 14
    → KeysFit e
    → Opens 14 (decrypt_first e bytes)
unfolding decrypt_first
first-Opens e bytes s fit =
    let header = get_u32 bytes in
    let k = bit_xor header (bit_or magic_key (connect_2_svr_size * 2 ^ 16)) in
    let plain = bit_xor header k in
    if_both (Opens 14) (not (plain % 2 ^ 16 == magic_key)) (inr (_, refl)) (
      if_both (Opens 14) (not (plain / 2 ^ 16 == connect_2_svr_size) || false) (inr (_, refl)) (
        finish-Opens (record e { recv_xor_key = k }) 14 bytes (omega arith) (omega arith)
          (record { size = fit.size; idx_low = fit.idx_low; multiple = fit.multiple })))

-- A slice of eight bytes or more that is as long as `GetPacketSize` says is opened, to as many bytes, or
-- refused with an error: `Decrypt` does not panic.
pub decrypt-Opens :
    (e : Encryption) (bytes : List ℕ)
    → 8 ≤ length bytes
    → length bytes ≡ get_packet_size e bytes
    → KeysFit e
    → Opens (length bytes) (decrypt e bytes)
unfolding decrypt get_packet_size
decrypt-Opens e bytes h s fit = elim (Bool-cases e.is_first_packet) [
  | inl f ↦
      let size : length bytes ≡ 14 = ground (arith, s, f) in
      let step : decrypt e bytes ≡ decrypt_first e bytes = ground (arith, f, h) in
      subst (Opens (length bytes)) (sym step) (
        subst (λ (n : ℕ). Opens n (decrypt_first e bytes)) (sym size)
          (first-Opens e bytes size fit))
  | inr f ↦
      let step : decrypt e bytes ≡ decrypt_later e bytes = ground (arith, f, h) in
      subst (Opens (length bytes)) (sym step) (later-Opens e bytes h (ground (arith, s, f)) fit)
]

-- The state after a packet, however it went, serves the next lookups.
LeavesFit : Result × Encryption → Type 0
LeavesFit x = KeysFit x.1

finish-LeavesFit : (e : Encryption) (r : Result) → KeysFit e → LeavesFit (finish e r)
unfolding finish LeavesFit advance
finish-LeavesFit e (ok payload) f = record {
  size = f.size;
  idx_low = ground (arith, f.idx_low);
  multiple = ground (arith, f.multiple);
}
finish-LeavesFit e (err x) f = f
finish-LeavesFit e panic f = f

pub decrypt-KeysFit : (e : Encryption) (bytes : List ℕ) → KeysFit e → KeysFit (decrypt e bytes).1
unfolding decrypt decrypt_first decrypt_later LeavesFit
decrypt-KeysFit e bytes f =
    let header = get_u32 bytes in
    let k = bit_xor header (bit_or magic_key (connect_2_svr_size * 2 ^ 16)) in
    let e' : Encryption = record e { recv_xor_key = k } in
    let f' : KeysFit e' = record { size = f.size; idx_low = f.idx_low; multiple = f.multiple } in
    let later = bit_xor (get_u32 bytes) e.recv_xor_key in
    let plain = bit_xor header k in
    if_both LeavesFit (ltb (length bytes) 4) f (
      if_both LeavesFit (not e.is_first_packet)
        (if_both LeavesFit (not (later % 2 ^ 16 == magic_key)) f (finish-LeavesFit e _ f))
        (if_both LeavesFit (not (plain % 2 ^ 16 == magic_key)) f' (
          if_both LeavesFit (not (plain / 2 ^ 16 == connect_2_svr_size) || false) f'
            (finish-LeavesFit e' _ f'))))
