-- ===== src/Session/Delivery.antt =====
-- What a client seals is what the handlers of the server are handed (share/network/session.go with
-- share/encryption and share/network/reader.go).
use mathlib.Core.List.{append-nil}
use Prim.Native.Nat.{bit_xor}
use freya.Session.{
  settle_status, Session, running, Verdict, waiting, packet, hand_on, frame, cut, next_packet,
  drain, run,
}
use freya.Session.Rounds.{is_empty-length, get_packet_size-append, prepend}
use freya.Session.Framing.{drain_all, drain_all_packet}
use freya.Session.Reads.{Outcome, conclude, follow, run_read, in_pieces, whole, reads-Agree}
use freya.Common.{
  ℕ, ◌+◌, ◌*◌, ◌^◌, ◌≤◌, ◌<◌, ◌≡◌, refl, ap, ◌∙◌, sym, Bool, false, some, List, [], ◌∷◌, ◌++◌, map,
  length, All, arith, get_or, take, drop, take-length_append, drop-length_append, length-append,
}
use freya.Encryption.Bytes.{IsBytes, put_u32}
use freya.Encryption.Tables.{magic_key}
use freya.Encryption.Cipher.{Encryption, advance}
use freya.Encryption.Cipher.State.{IsValid, advance-IsValid, advance_later}
use freya.Encryption.Cipher.Packets.{seal, plain_header, plain_packet, decrypt-seal}
use freya.Network.Reader.Places.{read_two, read_four}
use freya.Network.Writer.{low_bytes}
use freya.Network.Reader.{Reader, new_reader, read_uint16, read_uint32}

-- A message: the checksum that the client puts in, and the body, which begins with the packet's type.
abbrev pub Message : Type 0
Message = ℕ × List ℕ

abbrev pub IsSendable : Message → Type 0
IsSendable m = (2 ≤ length m.1) × (length m.1 < 65528) × IsBytes m.1

abbrev pub sealed : Encryption → Message → List ℕ
sealed e (checksum, body) =
    seal e (bit_xor (plain_header (length body)) e.recv_xor_key) checksum body

-- The stream of a client that sends message after message, and moves its key as the server does.
pub client_stream : Encryption → List Message → List ℕ
client_stream e [] = []
client_stream e (m ∷ ms) = sealed e m ++ client_stream (advance e) ms

-- The reader that a handler is given for a message: past the header, with its fields read.
pub opened : Message → Reader
opened (checksum, body) = record {
  buffer = plain_packet body;
  index = 10;
  magic_key = magic_key;
  size = 8 + length body;
  check_sum = 0;
  packet_type = get_or body 0 0 + get_or body 1 0 * 2 ^ 8;
}

-- The bytes of a header before those of `rest`.
abbrev header_bytes : ℕ → ℕ → ℕ → ℕ → List ℕ → List ℕ
header_bytes magic size sum type rest =
    low_bytes 2 magic ++ (low_bytes 2 size ++ (low_bytes 4 sum ++ (low_bytes 2 type ++ rest)))

reader_at : List ℕ → ℕ → Reader
reader_at bytes i = record {
  buffer = bytes;
  index = i;
  magic_key = 0;
  size = 0;
  check_sum = 0;
  packet_type = 0;
}

new_reader_fields :
    (magic size sum type : ℕ) (rest : List ℕ)
    → magic < 2 ^ 16
    → size < 2 ^ 16
    → sum < 2 ^ 32
    → type < 2 ^ 16
    → new_reader (header_bytes magic size sum type rest)
      ≡ some record {
        buffer = header_bytes magic size sum type rest;
        index = 10;
        magic_key = magic;
        size = size;
        check_sum = sum;
        packet_type = type;
      }
unfolding new_reader read_uint16 read_uint32 low_bytes reader_at
new_reader_fields magic size sum type rest hm hs hc ht =
    let bytes = header_bytes magic size sum type rest in
    let e1 =
      read_two [] magic (low_bytes 2 size ++ (low_bytes 4 sum ++ (low_bytes 2 type ++ rest)))
        (reader_at bytes 0) (refl, refl) hm in
    let e2 =
      read_two (low_bytes 2 magic) size (low_bytes 4 sum ++ (low_bytes 2 type ++ rest))
        (reader_at bytes 2) (refl, refl) hs in
    let e3 =
      read_four (low_bytes 2 magic ++ low_bytes 2 size) sum (low_bytes 2 type ++ rest)
        (reader_at bytes 4) (refl, refl) hc in
    let e4 =
      read_two (low_bytes 2 magic ++ (low_bytes 2 size ++ low_bytes 4 sum)) type rest
        (reader_at bytes 8) (refl, refl) ht in
    ground (arith, e1, e2, e3, e4)

new_reader-plain_packet :
    (m : Message) → IsSendable m → new_reader (plain_packet m.1) ≡ some (opened m)
unfolding low_bytes put_u32 opened
new_reader-plain_packet (checksum, lo ∷ hi ∷ rest) (h, h', hb) =
    let n = length rest in
    let same : header_bytes magic_key (10 + n) 0 (lo + hi * 2 ^ 8) rest
        ≡ plain_packet (lo ∷ hi ∷ rest) =
      ground (arith, hb.0, hb.1.0) in
    ap new_reader (sym same)
    ∙ new_reader_fields magic_key (10 + n) 0 (lo + hi * 2 ^ 8) rest (omega arith) (omega arith)
        (omega arith) (omega (arith, hb.0, hb.1.0))
    ∙ ground (arith, same)
new_reader-plain_packet (checksum, lo ∷ []) h = absurd (omega arith)
new_reader-plain_packet (checksum, []) h = absurd (omega arith)

-- A session past its first packet, whose buffer is all that it has received.
abbrev pub past_first : List ℕ → Encryption → ℕ → Session
past_first bytes e n = record {
  buffer = bytes;
  first_packet = false;
  encryption = e;
  delivered = n;
  status = running;
}

abbrev pub never : ℕ → Bool
never n = false

frame-sealed :
    (e : Encryption) (m : Message) (rest : List ℕ) (n : ℕ)
    → IsValid e
    → e.is_first_packet ≡ false
    → IsSendable m
    → frame never (past_first (sealed e m ++ rest) e n) ≡ cut (8 + length m.1)
unfolding frame
frame-sealed e m rest n v f h =
    let bytes = sealed e m in
    let d = decrypt-seal e m.0 m.1 v f h.1 h.2 in
    let size = get_packet_size-append e bytes rest (omega (arith, d.2)) in
    ground (arith, d.1, d.2, size, h.0, length-append bytes rest, is_empty-length (bytes ++ rest))

next_packet-sealed :
    (e : Encryption) (m : Message) (rest : List ℕ) (n : ℕ)
    → IsValid e
    → e.is_first_packet ≡ false
    → IsSendable m
    → next_packet never (past_first (sealed e m ++ rest) e n)
      ≡ packet (opened m) (past_first rest (advance e) (n + 1))
unfolding next_packet hand_on
next_packet-sealed e m rest n v f h =
    let bytes = sealed e m in
    let d = decrypt-seal e m.0 m.1 v f h.1 h.2 in
    let taken : take (8 + length m.1) (bytes ++ rest) ≡ bytes =
      ap (λ (k : ℕ). take k (bytes ++ rest)) (sym d.2) ∙ take-length_append bytes rest in
    let dropped : drop (8 + length m.1) (bytes ++ rest) ≡ rest =
      ap (λ (k : ℕ). drop k (bytes ++ rest)) (sym d.2) ∙ drop-length_append bytes rest in
    ground (arith, frame-sealed e m rest n v f h, taken, dropped, d.0, new_reader-plain_packet m h)

-- Draining the stream hands on every message and waits for more.
pub drain-client_stream :
    (e : Encryption) (ms : List Message) (n : ℕ)
    → IsValid e
    → e.is_first_packet ≡ false
    → All IsSendable ms
    → (s : Session) × (drain_all never (past_first (client_stream e ms) e n)
        ≡ (map opened ms, s, waiting))
unfolding client_stream drain
drain-client_stream e [] n v f h = (past_first [] e n, refl)
drain-client_stream e (m ∷ ms) n v f (h, hs) =
    let rest = client_stream (advance e) ms in
    let (s, later) =
      drain-client_stream (advance e) ms (n + 1) (advance-IsValid e v) (advance_later e) hs in
    (
      s,
      drain_all_packet never (past_first (sealed e m ++ rest) e n)
            (past_first rest (advance e) (n + 1)) (opened m) (next_packet-sealed e m rest n v f h)
          ∙ ap (prepend (opened m ∷ [])) later,
    )

-- After the first packet, every message of a client is handed on once, in order and as it was sent,
-- however the stream is cut into reads, and the session stays open: as long as nobody closes it.
pub delivery :
    (e : Encryption) (ms : List Message) (n : ℕ) (c : List ℕ) (cs : List (List ℕ))
    → IsValid e
    → e.is_first_packet ≡ false
    → All IsSendable ms
    → whole c cs ≡ client_stream e ms
    → ((run never (in_pieces c cs false) (past_first [] e n)).0 ≡ map opened ms)
      × ((run never (in_pieces c cs false) (past_first [] e n)).1.status ≡ running)
unfolding run settle_status
delivery e ms n c cs v f h stream =
    let s = past_first [] e n in
    let agree = reads-Agree never c cs false s refl in
    let (s', drained) = drain-client_stream e ms n v f h in
    let at_once =
      ap (λ (b : List ℕ). run never ((b, false) ∷ []) s) stream
      ∙ run_read never (client_stream e ms) false [] s refl
      ∙ ap (λ (x : List Reader × Session × Verdict). follow never [] (conclude never false x))
          drained in
    (
      agree.0 ∙ ap (λ (o : Outcome). o.0) at_once ∙ append-nil (map opened ms),
      agree.1 ∙ ap (λ (o : Outcome). o.1.status) at_once,
    )
