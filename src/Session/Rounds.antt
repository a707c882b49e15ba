-- ===== src/Session/Rounds.antt =====
-- One round of the loop that cuts packets off the buffer (share/network/session.go).
use freya.Session.{
  refuse, Frame, cut, hold, frame, Session, Verdict, waiting, Round, halt, packet, hand_on,
  next_packet, drain,
}
use freya.Common.{
  length-drop, take-append, ltb→le, ltb→le, length-append, ltb, Bool-cases, ◌==◌, is_empty,
  drop-append, Option-cases, ℕ, suc, ◌≤◌, ◌<◌, ◌≡◌, refl, ◌⊎◌, inl, inr, Bool, true, List, [], ◌∷◌,
  ◌++◌, take, drop, length, arith,
}
use freya.Encryption.Bytes.{get_u32}
use freya.Encryption.Cipher.{Encryption, Result, ok, err, panic, get_packet_size, decrypt}
use freya.Network.Reader.{Reader, new_reader}

-- The same session with more bytes received.
abbrev pub extend : List ℕ → Session → Session
extend c s = record s { buffer = s.buffer ++ c }

abbrev pub extend_round : List ℕ → Round → Round
extend_round c (halt v) = halt v
extend_round c (packet r s) = packet r (extend c s)

get_u32-append : (a c : List ℕ) → 4 ≤ length a → get_u32 (a ++ c) ≡ get_u32 a
unfolding get_u32
get_u32-append (w ∷ x ∷ y ∷ z ∷ a) c h = refl
get_u32-append [] c h = absurd (omega arith)
get_u32-append (w ∷ []) c h = absurd (omega arith)
get_u32-append (w ∷ x ∷ []) c h = absurd (omega arith)
get_u32-append (w ∷ x ∷ y ∷ []) c h = absurd (omega arith)

pub get_packet_size-append :
    (e : Encryption) (a c : List ℕ)
    → 4 ≤ length a
    → get_packet_size e (a ++ c) ≡ get_packet_size e a
unfolding get_packet_size
get_packet_size-append e a c h = rw (get_u32-append a c h) refl

pub Frame-cases : (f : Frame) → (f ≡ hold) ⊎ ((f ≡ refuse) ⊎ ((len : ℕ) × (f ≡ cut len)))
Frame-cases hold = inl refl
Frame-cases refuse = inr (inl refl)
Frame-cases (cut len) = inr (inr (len, refl))

hand_on-extend :
    (len : ℕ) (s : Session) (c : List ℕ) (r : Result × Encryption)
    → len ≤ length s.buffer
    → hand_on len (extend c s) r ≡ extend_round c (hand_on len s r)
unfolding hand_on
hand_on-extend len s c (ok payload, e) h = elim (Option-cases (new_reader payload)) [
  | inl p ↦ ground (arith, p)
  | inr (r, p) ↦ ground (arith, p, drop-append len s.buffer c h)
]
hand_on-extend len s c (err x, e) h = refl
hand_on-extend len s c (panic, e) h = refl

pub is_empty-length : (xs : List ℕ) → is_empty xs ≡ (length xs == 0)
is_empty-length [] = refl
is_empty-length (x ∷ xs) = ground arith

-- What a frame that is cut says of the buffer.
pub cut_bounds :
    (closes : ℕ → Bool) (s : Session) (len : ℕ)
    → frame closes s ≡ cut len
    → (10 ≤ len) × (len ≤ length s.buffer)
unfolding frame
cut_bounds closes s len h = ground arith

frame-extend :
    (closes : ℕ → Bool) (s : Session) (c : List ℕ)
    → (frame closes s ≡ hold) ⊎ (frame closes (extend c s) ≡ frame closes s)
unfolding frame
frame-extend closes s c = elim (Bool-cases (ltb (length s.buffer) 4)) [
  | inl p ↦ inl (ground (arith, is_empty-length s.buffer))
  | inr p ↦ ground (
    arith,
    is_empty-length s.buffer,
    is_empty-length (s.buffer ++ c),
    length-append s.buffer c,
    get_packet_size-append s.encryption s.buffer c (ltb→le (length s.buffer) 4 p),
  )
]

-- A round that does not wait is the same with more bytes received.
pub next_packet-extend :
    (closes : ℕ → Bool) (s : Session) (c : List ℕ)
    → (next_packet closes s ≡ halt waiting)
      ⊎ (next_packet closes (extend c s) ≡ extend_round c (next_packet closes s))
unfolding next_packet
next_packet-extend closes s c = elim (Frame-cases (frame closes s)) [
  | inl held ↦ inl (rw (held, next_packet) refl)
  | inr (inl refused) ↦ ground (arith, frame-extend closes s c, refused)
  | inr (inr (len, e)) ↦ ground (
    arith,
    frame-extend closes s c,
    e,
    take-append len s.buffer c (cut_bounds closes s len e).1,
    hand_on-extend len s c (decrypt s.encryption (take len s.buffer)) (cut_bounds closes s len e).1,
  )
]

-- A packet takes bytes off the buffer.
pub hand_on_shrinks :
    (len : ℕ) (s s' : Session) (r : Reader) (x : Result × Encryption)
    → hand_on len s x ≡ packet r s'
    → (s'.buffer ≡ drop len s.buffer) × (s'.status ≡ s.status)
unfolding hand_on
hand_on_shrinks len s s' r (ok payload, e) h = elim (Option-cases (new_reader payload)) [
  | inl p ↦ ground (arith, p)
  | inr (r', p) ↦ ground (arith, p)
]
hand_on_shrinks len s s' r (err x, e) h = cc
hand_on_shrinks len s s' r (panic, e) h = cc

pub next_packet_shrinks :
    (closes : ℕ → Bool) (s s' : Session) (r : Reader)
    → next_packet closes s ≡ packet r s'
    → length s'.buffer < length s.buffer
unfolding next_packet
next_packet_shrinks closes s s' r h = elim (Frame-cases (frame closes s)) [
  | inl held ↦ ground (arith, held)
  | inr (inl refused) ↦ ground (arith, refused)
  | inr (inr (len, e)) ↦ ground (
    arith,
    e,
    cut_bounds closes s len e,
    length-drop len s.buffer,
    hand_on_shrinks len s s' r (decrypt s.encryption (take len s.buffer)),
  )
]

pub Round-cases :
    (x : Round) → ((v : Verdict) × (x ≡ halt v)) ⊎ ((r : Reader) × (s : Session) × (x ≡ packet r s))
Round-cases (halt v) = inl (v, refl)
Round-cases (packet r s) = inr (r, s, refl)

pub drain_halt :
    (closes : ℕ → Bool) (n : ℕ) (s : Session) (v : Verdict)
    → next_packet closes s ≡ halt v
    → drain closes (suc n) s ≡ ([], s, v)
unfolding drain
drain_halt closes n s v e = rw (e, drain) refl

abbrev pub prepend : List Reader → List Reader × Session × Verdict → List Reader × Session × Verdict
prepend rs (rs', s, v) = (rs ++ rs', s, v)

pub drain_packet :
    (closes : ℕ → Bool) (n : ℕ) (s s' : Session) (r : Reader)
    → next_packet closes s ≡ packet r s'
    → drain closes (suc n) s ≡ prepend (r ∷ []) (drain closes n s')
unfolding drain
drain_packet closes n s s' r e = rw (e, drain) refl

pub next_packet_empty :
    (closes : ℕ → Bool) (s : Session) → length s.buffer ≡ 0 → next_packet closes s ≡ halt waiting
unfolding next_packet frame
next_packet_empty closes s h = ground (arith, is_empty-length s.buffer)

-- Once the session is closed a round waits.
pub next_packet_closed :
    (closes : ℕ → Bool) (s : Session)
    → closes s.delivered ≡ true
    → next_packet closes s ≡ halt waiting
unfolding next_packet frame
next_packet_closed closes s h = ground (arith, h)

pub next_packet_status :
    (closes : ℕ → Bool) (s s' : Session) (r : Reader)
    → next_packet closes s ≡ packet r s'
    → s'.status ≡ s.status
unfolding next_packet
next_packet_status closes s s' r h = elim (Frame-cases (frame closes s)) [
  | inl held ↦ ground (arith, held)
  | inr (inl refused) ↦ ground (arith, refused)
  | inr (inr (len, e)) ↦
      ground (arith, e, hand_on_shrinks len s s' r (decrypt s.encryption (take len s.buffer)))
]
