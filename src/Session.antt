-- ===== src/Session.antt =====
-- share/network/session.go: `Start`, which cuts the stream of a TCP connection into packets, and
-- `Send`. Reads of the socket are an argument: what each brings, and whether it also fails. Handlers of
-- packets run elsewhere and may close the session: `closes n` is what `IsClosed` answers once `n`
-- packets are delivered.
pub mod Rounds
pub mod Framing
pub mod Reads
pub mod Delivery
pub mod Safety
pub mod Framed
pub mod Connection
pub mod Sending
mod Tests
use freya.Encryption.Tables.{XorKeyTable, c2s_header_size, connect_2_svr_size}
use freya.Encryption.Cipher.{
  Encryption, Result, ok, err, panic, init, encrypt, decrypt, get_packet_size,
}
use freya.Network.Reader.{Reader, new_reader}
use freya.Network.Writer.{Writer, finalize}
use freya.Common.{
  ℕ, zero, suc, ◌+◌, Bool, true, false, Option, none, some, List, [], ◌∷◌, ◌++◌, take, drop, length,
  ltb, is_empty, if◌then◌else◌,
}

pub data Status : Type 0 where
  running stopped panicked : Status

pub record Session : Type 0 where
  pub buffer : List ℕ
  pub first_packet : Bool  -- a local variable of `Start`
  pub encryption : Encryption
  pub delivered : ℕ  -- how many packets were handed on
  pub status : Status

-- Why the inner loop ends.
pub data Verdict : Type 0 where
  waiting rejected crashed : Verdict

-- A round of the inner loop: it ends the loop, or delivers a packet. A rejected packet closes the
-- session, whose cipher is then of no more use.
pub data Round : Type 0 where
  halt : Verdict → Round
  packet : Reader → Session → Round

-- The end of a round, after `Decrypt`.
pub hand_on : ℕ → Session → Result × Encryption → Round
hand_on len s (err x, e) = halt rejected
hand_on len s (panic, e) = halt crashed
hand_on len s (ok payload, e) = elim (new_reader payload) [
  | none ↦ halt crashed
  | some r ↦ packet r (record s {
    buffer = drop len s.buffer;
    first_packet = false;
    encryption = e;
    delivered = s.delivered + 1;
  })
]

-- The tests of a round before `Decrypt`.
pub data Frame : Type 0 where
  hold refuse : Frame
  cut : ℕ → Frame

pub frame : (ℕ → Bool) → Session → Frame
frame closes s =
    let minimum_header : ℕ = if s.first_packet then connect_2_svr_size else 4 in
    let len = get_packet_size s.encryption s.buffer in
    if is_empty s.buffer
    then hold
    else if closes s.delivered
    then hold
    else if ltb (length s.buffer) minimum_header
    then hold
    else if ltb len c2s_header_size
    then refuse
    else if ltb (length s.buffer) len
    then hold
    else cut len

pub next_packet : (ℕ → Bool) → Session → Round
unfolding hand_on frame
next_packet closes s = elim (frame closes s) [
  | hold ↦ halt waiting
  | refuse ↦ halt rejected
  | cut len ↦ hand_on len s (decrypt s.encryption (take len s.buffer))
]

-- The inner loop, on fuel: every round that goes on takes ten bytes at least off the buffer.
pub drain : (ℕ → Bool) → ℕ → Session → List Reader × Session × Verdict
drain closes zero s = ([], s, waiting)
drain closes (suc fuel) s = elim (next_packet closes s) [
  | halt v ↦ ([], s, v)
  | packet r s' ↦ let (rs, s'', v) = drain closes fuel s' in (r ∷ rs, s'', v)
]

-- The tests after the inner loop, where `failed` says that the read returned an error too.
pub settle_status : (ℕ → Bool) → Bool → Session → Verdict → Status
settle_status closes failed s crashed = panicked
settle_status closes failed s rejected = stopped
settle_status closes failed s waiting =
    if closes s.delivered then stopped else if failed then stopped else running

-- One round of the outer loop.
pub receive : (ℕ → Bool) → List ℕ → Bool → Session → List Reader × Session
unfolding settle_status
receive closes bytes failed s =
    let buffer = s.buffer ++ bytes in
    let (rs, s', v) = drain closes (length buffer) (record s { buffer = buffer }) in
    (rs, record s' { status = settle_status closes failed s' v })

pub receive_running : (ℕ → Bool) → List ℕ → Bool → Session → Status → List Reader × Session
unfolding receive
receive_running closes bytes failed s running = receive closes bytes failed s
receive_running closes bytes failed s stopped = ([], s)
receive_running closes bytes failed s panicked = ([], s)

-- The outer loop over the reads.
pub run : (ℕ → Bool) → List (List ℕ × Bool) → Session → List Reader × Session
unfolding receive_running
run closes [] s = ([], s)
run closes ((bytes, failed) ∷ reads) s =
    let (rs, s') = receive_running closes bytes failed s s.status in
    let (rs', s'') = run closes reads s' in (rs ++ rs', s'')

-- The beginning of `Start`; `random` is the start index that `Init` draws.
unfoldable pub start : XorKeyTable → ℕ → Encryption → Session
start table random blank = record {
  buffer = [];
  first_packet = true;
  encryption = init table random blank;
  delivered = 0;
  status = running;
}

-- `Send`: what is written to the socket. The outer `none` is a panic, the inner one an error.
pub send : Encryption → Writer → Option (Option (List ℕ))
send e w = elim (finalize w) [
  | none ↦ none
  | some (w', bytes) ↦ elim (encrypt e bytes) [
    | ok sent ↦ some (some sent)
    | err x ↦ some none
    | panic ↦ none
  ]
]
