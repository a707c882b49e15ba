-- ===== src/Session/Safety.antt =====
-- The reading of packets and its panics (share/network/session.go).
use freya.Session.{
  Session, Status, running, stopped, panicked, packet, Verdict, waiting, rejected, crashed, halt,
  hand_on, cut, frame, next_packet, drain, settle_status, receive, receive_running, run,
}
use freya.Session.Rounds.{
  get_packet_size-append, get_packet_size-append, Frame-cases, Round-cases, cut_bounds,
}
use freya.Common.{
  ℕ, zero, suc, ◌≤◌, ◌≡◌, ◌≢◌, refl, ap, ◌∙◌, sym, subst, inl, inr, Bool, Option-cases, some, List,
  [], ◌∷◌, ◌++◌, take, drop, length, arith, length-take, take-append-drop,
}
use freya.Encryption.Cipher.{Encryption, Result, ok, err, panic, get_packet_size, decrypt}
use freya.Encryption.Cipher.State.{KeysFit}
use freya.Encryption.Cipher.Total.{Opens, decrypt-Opens, decrypt-KeysFit}
use freya.Network.Reader.{Reader, new_reader, read_uint16, read_uint32}
use freya.Network.Reader.Places.{read_places_total}

blank_reader : List ℕ → ℕ → Reader
blank_reader bytes i = record {
  buffer = bytes;
  index = i;
  magic_key = 0;
  size = 0;
  check_sum = 0;
  packet_type = 0;
}

-- A packet of ten bytes or more has a header.
pub new_reader_total :
    (bytes : List ℕ) → 10 ≤ length bytes → (r : Reader) × (new_reader bytes ≡ some r)
unfolding new_reader read_uint16 read_uint32 blank_reader
new_reader_total bytes h =
    let (m, e1) = read_places_total 16 2 (blank_reader bytes 0) (omega (arith, h)) in
    let (n, e2) = read_places_total 16 2 (blank_reader bytes 2) (omega (arith, h)) in
    let (c, e3) = read_places_total 32 4 (blank_reader bytes 4) (omega (arith, h)) in
    let (t, e4) = read_places_total 16 2 (blank_reader bytes 8) (omega (arith, h)) in
    let r : Reader = record {
      buffer = bytes;
      index = 10;
      magic_key = m;
      size = n;
      check_sum = c;
      packet_type = t;
    } in
    (r, ground (arith, e1, e2, e3, e4))

frame_size :
    (closes : ℕ → Bool) (s : Session) (len : ℕ)
    → frame closes s ≡ cut len
    → get_packet_size s.encryption s.buffer ≡ len
unfolding frame
frame_size closes s len h = ground arith

get_packet_size-take :
    (e : Encryption) (n : ℕ) (bytes : List ℕ)
    → 4 ≤ n
    → n ≤ length bytes
    → get_packet_size e (take n bytes) ≡ get_packet_size e bytes
get_packet_size-take e n bytes h h' =
    sym
      (get_packet_size-append e (take n bytes) (drop n bytes) (omega (arith, length-take n bytes)))
    ∙ ap (get_packet_size e) (take-append-drop n bytes)

-- The keys of the next packet are in the table.
abbrev pub KeysFound : Session → Type 0
KeysFound s = KeysFit s.encryption

hand_on-KeysFound :
    (len : ℕ) (s : Session) (x : Result × Encryption) (r : Reader) (s' : Session)
    → KeysFit x.1
    → hand_on len s x ≡ packet r s'
    → KeysFound s'
unfolding hand_on
hand_on-KeysFound len s (ok payload, e) r s' f h = elim (Option-cases (new_reader payload)) [
  | inl off ↦ ground (arith, off, h)
  | inr (r', on) ↦ let same : e ≡ s'.encryption = ground (arith, on, h) in subst KeysFit same f
]
hand_on-KeysFound len s (err x, e) r s' f h = cc h
hand_on-KeysFound len s (panic, e) r s' f h = cc h

next_packet-KeysFound :
    (closes : ℕ → Bool) (s : Session) (r : Reader) (s' : Session)
    → KeysFound s
    → next_packet closes s ≡ packet r s'
    → KeysFound s'
unfolding next_packet
next_packet-KeysFound closes s r s' f h = elim (Frame-cases (frame closes s)) [
  | inl held ↦ ground (arith, held, h)
  | inr (inl refused) ↦ ground (arith, refused, h)
  | inr (inr (len, e)) ↦
      hand_on-KeysFound len s (decrypt s.encryption (take len s.buffer)) r s'
        (decrypt-KeysFit s.encryption (take len s.buffer) f) (ground (arith, e, h))
]

hand_on_safe :
    (len : ℕ) (s : Session) (x : Result × Encryption)
    → 10 ≤ len
    → Opens len x
    → hand_on len s x ≢ halt crashed
unfolding hand_on
hand_on_safe len s (ok payload, e) h (inl (p, eq, l)) c =
    let same : length payload ≡ len = cc (eq, l) in
    let (r, read) = new_reader_total payload (omega (arith, same)) in ground (arith, read, c)
hand_on_safe len s (ok payload, e) h (inr (x, eq)) c = cc eq
hand_on_safe len s (err x, e) h o c = cc c
hand_on_safe len s (panic, e) h (inl (p, eq, l)) c = cc eq
hand_on_safe len s (panic, e) h (inr (x, eq)) c = cc eq

next_packet_safe :
    (closes : ℕ → Bool) (s : Session) → KeysFound s → next_packet closes s ≢ halt crashed
unfolding next_packet
next_packet_safe closes s f h = elim (Frame-cases (frame closes s)) [
  | inl held ↦ ground (arith, held)
  | inr (inl refused) ↦ ground (arith, refused)
  | inr (inr (len, e)) ↦
      let bounds = cut_bounds closes s len e in
      let slice = take len s.buffer in
      let long : length slice ≡ len = omega (arith, length-take len s.buffer, bounds) in
      let size : length slice ≡ get_packet_size s.encryption slice =
        long
        ∙ sym (
            get_packet_size-take s.encryption len s.buffer (omega (arith, bounds)) bounds.1
            ∙ frame_size closes s len e) in
      let opens =
        subst (λ (n : ℕ). Opens n (decrypt s.encryption slice)) long
          (decrypt-Opens s.encryption slice (omega (arith, long, bounds)) size f) in
      hand_on_safe len s (decrypt s.encryption slice) bounds.0 opens (ground (arith, e, h))
]

drain_safe :
    (closes : ℕ → Bool) (n : ℕ) (s : Session) → KeysFound s → (drain closes n s).2 ≢ crashed
unfolding drain
drain_safe closes zero s f h = cc h
drain_safe closes (suc n) s f h = elim (Round-cases (next_packet closes s)) [
  | inl (v, e) ↦ next_packet_safe closes s f (ground (arith, e, h))
  | inr (r, s', e) ↦
      drain_safe closes n s' (next_packet-KeysFound closes s r s' f e) (ground (arith, e, h))
]

settle_safe :
    (closes : ℕ → Bool) (f : Bool) (s : Session) (v : Verdict)
    → v ≢ crashed
    → settle_status closes f s v ≢ panicked
unfolding settle_status
settle_safe closes f s waiting h = ground arith
settle_safe closes f s rejected h = λ e. cc e
settle_safe closes f s crashed h = absurd (h refl)

drain-KeysFound :
    (closes : ℕ → Bool) (n : ℕ) (s : Session) → KeysFound s → KeysFound (drain closes n s).1
unfolding drain
drain-KeysFound closes zero s f = f
drain-KeysFound closes (suc n) s f = elim (Round-cases (next_packet closes s)) [
  | inl (v, e) ↦ rw (e, drain) f
  | inr (r, s', e) ↦
      rw (e, drain) (drain-KeysFound closes n s' (next_packet-KeysFound closes s r s' f e))
]

receive-KeysFound :
    (closes : ℕ → Bool) (b : List ℕ) (failed : Bool) (s : Session) (st : Status)
    → KeysFound s
    → KeysFound (receive_running closes b failed s st).1
unfolding receive_running receive
receive-KeysFound closes b failed s running f =
    drain-KeysFound closes (length (s.buffer ++ b)) (record s { buffer = s.buffer ++ b }) f
receive-KeysFound closes b failed s stopped f = f
receive-KeysFound closes b failed s panicked f = f

receive_safe :
    (closes : ℕ → Bool) (b : List ℕ) (f : Bool) (s : Session) (st : Status)
    → KeysFound s
    → st ≢ panicked
    → s.status ≡ st
    → (receive_running closes b f s st).1.status ≢ panicked
unfolding receive_running receive
receive_safe closes b f s running k h e =
    let x = drain closes (length (s.buffer ++ b)) (record s { buffer = s.buffer ++ b }) in
    settle_safe closes f x.1 x.2
      (drain_safe closes (length (s.buffer ++ b)) (record s { buffer = s.buffer ++ b }) k)
receive_safe closes b f s stopped k h e = λ p. cc (e, p)
receive_safe closes b f s panicked k h e = absurd (h refl)

-- Where the key table is long enough for the state of the cipher, as it is from `Start` on, no bytes that
-- arrive, in whatever pieces, make the goroutine of the session panic: `Decrypt` finds every key that it
-- looks up in the table, and neither it nor `NewReader` reads out of range of a packet.
pub run_safe :
    (closes : ℕ → Bool) (reads : List (List ℕ × Bool)) (s : Session)
    → KeysFit s.encryption
    → s.status ≢ panicked
    → (run closes reads s).1.status ≢ panicked
unfolding run
run_safe closes [] s k h = h
run_safe closes ((b, f) ∷ reads) s k h =
    run_safe closes reads _ (receive-KeysFound closes b f s s.status k)
      (receive_safe closes b f s s.status k h refl)
