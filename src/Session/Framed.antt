-- ===== src/Session/Framed.antt =====
-- The packets that a session hands on have as many bytes as their header says
-- (share/network/session.go, share/encryption/encryption.go).
use freya.Common.{
  All-append, take, Option-cases, ℕ, zero, suc, ◌-◌, ◌*◌, ◌/◌, ◌%◌, ◌^◌, ◌≤◌, ◌≡◌, refl, sym, ap,
  ◌∙◌, true, false, Bool, ◌||◌, some, List, [], ◌∷◌, ◌++◌, length, replicate, drop, ltb, arith,
  Bool-cases, inl, inr, All, ◌==◌,
}
use Prim.Native.Nat.{bit_xor, bit_or}
use freya.Session.{
  Session, Status, running, stopped, panicked, packet, hand_on, frame, next_packet, drain, receive,
  receive_running, run,
}
use freya.Session.Rounds.{Frame-cases, Round-cases}
use freya.Encryption.Tables.{magic_key, connect_2_svr_size}
use freya.Encryption.Bytes.{get_u32, put_u32}
use freya.Encryption.Cipher.{
  Encryption, Result, ok, err, panic, decrypt, decrypt_payload, decrypt_first, decrypt_later,
  guarded, keys_found, finish, next_key, decrypt_words,
}
use freya.Encryption.Cipher.Total.{decrypt_payload_total}
use freya.Network.Reader.{
  Reader, new_reader, read_header, read_uint16, read_uint32, read_places, sum_places, place,
}

-- A packet whose header has its length.
pub IsSized : List ℕ → Type 0
IsSized p =
    (plain : ℕ) × (rest : List ℕ) × (p ≡ put_u32 plain ++ rest) × (length p ≡ plain / 2 ^ 16)

new_reader-IsSized :
    (plain : ℕ) (rest : List ℕ) (r : Reader)
    → new_reader (put_u32 plain ++ rest) ≡ some r
    → (r.buffer ≡ put_u32 plain ++ rest) × (r.index ≡ 10) × (r.size ≡ plain / 2 ^ 16 % 2 ^ 16)
unfolding new_reader read_header read_uint16 read_uint32 read_places sum_places place put_u32
new_reader-IsSized plain rest r e = (ground (arith, e), ground (arith, e), ground (arith, e))

-- The key under which a packet is opened: the first one brings its own.
payload-IsSized :
    (e : Encryption) (n : ℕ) (bytes p : List ℕ)
    → n ≡ bit_xor (get_u32 bytes) e.recv_xor_key / 2 ^ 16
    → decrypt_payload e n bytes ≡ ok p
    → IsSized p
unfolding decrypt_payload IsSized
payload-IsSized e n bytes p s opened = elim (Bool-cases (ltb n 8 || ltb (length bytes) n)) [
  | inl bad ↦ ground (arith, opened, bad)
  | inr fine ↦
      let (payload, same, long) =
        decrypt_payload_total e n bytes (ground (arith, fine)) (ground (arith, fine)) in
      let next = next_key e.key.key_table e.xor_key_table_base_multiple in
      let body = decrypt_words next ((n - 8) / 4) (next (get_u32 bytes)) (n % 4) (drop 8 bytes) in
      let is_p : payload ≡ p = cc (same, opened) in
      (
        bit_xor (get_u32 bytes) e.recv_xor_key,
        replicate 4 0 ++ body,
        ground (arith, opened, fine),
        sym (ap (λ (l : List ℕ). length l) is_p) ∙ long ∙ s,
      )
]

finish_ok : (e : Encryption) (r : Result) (p : List ℕ) → (finish e r).0 ≡ ok p → r ≡ ok p
unfolding finish
finish_ok e (ok payload) p h = h
finish_ok e (err x) p h = cc h
finish_ok e panic p h = h

guarded_ok : (found : Bool) (r : Result) (p : List ℕ) → guarded found r ≡ ok p → r ≡ ok p
unfolding guarded
guarded_ok true r p h = h
guarded_ok false r p h = cc h

-- What a lookup of keys leaves of the payload.
opened_ok :
    (e : Encryption) (n : ℕ) (bytes p : List ℕ)
    → (finish e (guarded (keys_found e n bytes) (decrypt_payload e n bytes))).0 ≡ ok p
    → decrypt_payload e n bytes ≡ ok p
opened_ok e n bytes p h =
    guarded_ok (keys_found e n bytes) (decrypt_payload e n bytes) p
      (finish_ok e (guarded (keys_found e n bytes) (decrypt_payload e n bytes)) p h)

pub decrypt-IsSized : (e : Encryption) (bytes p : List ℕ) → (decrypt e bytes).0 ≡ ok p → IsSized p
unfolding decrypt decrypt_first decrypt_later
decrypt-IsSized e bytes p h = elim (Bool-cases (ltb (length bytes) 4)) [
  | inl short ↦ ground (arith, h, short)
  | inr long ↦ elim (Bool-cases e.is_first_packet) [
    | inr later ↦
        let header = bit_xor (get_u32 bytes) e.recv_xor_key in
        elim (Bool-cases (header % 2 ^ 16 == magic_key)) [
          | inr bad ↦ ground (arith, h, long, later, bad)
          | inl good ↦
              payload-IsSized e (header / 2 ^ 16) bytes p refl
                (opened_ok e (header / 2 ^ 16) bytes p (ground (arith, h, long, later, good)))
        ]
    | inl first ↦
        let header = get_u32 bytes in
        let k = bit_xor header (bit_or magic_key (connect_2_svr_size * 2 ^ 16)) in
        let e' = record e { recv_xor_key = k } in
        let plain = bit_xor header k in
        elim (Bool-cases (plain % 2 ^ 16 == magic_key)) [
          | inr bad ↦ ground (arith, h, long, first, bad)
          | inl good ↦ elim (Bool-cases (plain / 2 ^ 16 == connect_2_svr_size)) [
            | inr bad ↦ ground (arith, h, long, first, good, bad)
            | inl sized ↦ payload-IsSized e' connect_2_svr_size bytes p (ground (arith, sized)) (
                opened_ok e' connect_2_svr_size bytes p
                  (ground (arith, h, long, first, good, sized)))
          ]
        ]
  ]
]

-- A packet that is read up to the end of its header and has at least as many bytes as that says.
abbrev pub IsFramed : Reader → Type 0
IsFramed r = (r.index ≡ 10) × (r.size ≤ length r.buffer)

reader-IsFramed : (p : List ℕ) (r : Reader) → IsSized p → new_reader p ≡ some r → IsFramed r
unfolding IsSized
reader-IsFramed p r (plain, rest, same, long) e =
    let (buffer, index, size) = new_reader-IsSized plain rest r (ap new_reader (sym same) ∙ e) in
    (
      index,
      omega (
        arith,
        size,
        long,
        ap (λ (l : List ℕ). length l) buffer,
        ap (λ (l : List ℕ). length l) same,
      ),
    )

hand_on-IsFramed :
    (len : ℕ) (s : Session) (x : Result × Encryption) (r : Reader) (s' : Session)
    → ((p : List ℕ) → x.0 ≡ ok p → IsSized p)
    → hand_on len s x ≡ packet r s'
    → IsFramed r
unfolding hand_on
hand_on-IsFramed len s (ok payload, e) r s' sized h = elim (Option-cases (new_reader payload)) [
  | inl off ↦ ground (arith, off, h)
  | inr (r', on) ↦ reader-IsFramed payload r (sized payload refl) (ground (arith, on, h))
]
hand_on-IsFramed len s (err x, e) r s' sized h = cc h
hand_on-IsFramed len s (panic, e) r s' sized h = cc h

next_packet-IsFramed :
    (closes : ℕ → Bool) (s : Session) (r : Reader) (s' : Session)
    → next_packet closes s ≡ packet r s'
    → IsFramed r
unfolding next_packet
next_packet-IsFramed closes s r s' h = elim (Frame-cases (frame closes s)) [
  | inl held ↦ ground (arith, held, h)
  | inr (inl refused) ↦ ground (arith, refused, h)
  | inr (inr (len, e)) ↦
      hand_on-IsFramed len s (decrypt s.encryption (take len s.buffer)) r s'
        (decrypt-IsSized s.encryption (take len s.buffer)) (ground (arith, e, h))
]

drain-IsFramed : (closes : ℕ → Bool) (n : ℕ) (s : Session) → All IsFramed (drain closes n s).0
unfolding drain
drain-IsFramed closes zero s = tt
drain-IsFramed closes (suc n) s = elim (Round-cases (next_packet closes s)) [
  | inl (v, e) ↦ rw (e, drain) tt
  | inr (r, s', e) ↦
      rw (e, drain) (next_packet-IsFramed closes s r s' e, drain-IsFramed closes n s')
]

receive-IsFramed :
    (closes : ℕ → Bool) (bytes : List ℕ) (failed : Bool) (s : Session) (status : Status)
    → All IsFramed (receive_running closes bytes failed s status).0
unfolding receive_running receive
receive-IsFramed closes bytes failed s running =
    drain-IsFramed closes (length (s.buffer ++ bytes)) (record s { buffer = s.buffer ++ bytes })
receive-IsFramed closes bytes failed s stopped = tt
receive-IsFramed closes bytes failed s panicked = tt

-- Every packet that a session hands on has at least as many bytes as its header says.
pub run-IsFramed :
    (closes : ℕ → Bool) (reads : List (List ℕ × Bool)) (s : Session)
    → All IsFramed (run closes reads s).0
unfolding run
run-IsFramed closes [] s = tt
run-IsFramed closes ((bytes, failed) ∷ reads) s =
    let (rs, s') = receive_running closes bytes failed s s.status in
    All-append IsFramed rs (run closes reads s').0 (receive-IsFramed closes bytes failed s s.status)
      (run-IsFramed closes reads s')
