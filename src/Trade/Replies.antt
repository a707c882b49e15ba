-- ===== src/Trade/Replies.antt =====
-- What the handlers of trades send reaches the client: the packets of cmd/gameserver/packet/trade.go
-- through `Writer` and `Send`.
use freya.Common.Signed.{pos, pattern_of, signed}
use freya.Common.{
  ℕ, zero, suc, ◌/◌, ◌%◌, ◌^◌, ◌≤◌, ◌<◌, ◌≡◌, sym, ap, subst, ◌∙◌, Option, none, some, List, [],
  ◌∷◌, ◌++◌, take, length, All-append, arith, length-append,
}
use freya.Encryption.Bytes.{IsBytes}
use freya.Encryption.Tables.Laws.{IsKeyTable}
use freya.Encryption.Cipher.{Encryption}
use freya.Encryption.Cipher.Packets.{open_reply}
use freya.Network.Writer.{
  ◌>=>◌, Writer, Object, int32, int64, uint8, uint32, int, low_bytes, object_bytes, write_number,
  write_byte, write_int32, write_int64, write_uint32, new_writer,
}
use freya.Network.Writer.Contents.{
  contents, IsValid, IsNumber, bytes_or_empty, write_number-Appends, length-low_bytes,
}
use freya.Network.Writer.Header.{new_writer_lem}
use freya.Session.{send}
use freya.Session.Sending.{send_opens}
use freya.Trade.Messages.{
  Message, packet_result, trade_item, trade_alz, removed_item, trade_event, open_result,
  message_packet, nfy_add_item_type, nfy_remove_item_type, nfy_events_type, open_event_type,
  trade_alz_item_kind,
}

-- The type of the packet, and what the client finds after the header.
pub message_type : Message → ℕ
message_type (packet_result packet_type result) = packet_type
message_type (trade_item item trade_slot) = nfy_add_item_type
message_type (trade_alz amount) = nfy_add_item_type
message_type (removed_item item trade_slot) = nfy_remove_item_type
message_type (trade_event character_id result) = nfy_events_type
message_type (open_result result) = open_event_type

pub message_bytes : Message → List ℕ
message_bytes (packet_result packet_type result) = low_bytes 1 result
message_bytes (trade_item item trade_slot) =
    low_bytes 4 item.kind
    ++ (low_bytes 8 (pattern_of 64 item.option)
        ++ (low_bytes 1 (trade_slot % 2 ^ 8) ++ (low_bytes 4 item.expire ++ (0 ∷ []))))
message_bytes (trade_alz amount) =
    low_bytes 4 13
    ++ (low_bytes 8 (pattern_of 64 (signed 64 amount)) ++ (0 ∷ 0 ∷ 0 ∷ 0 ∷ 0 ∷ 0 ∷ []))
message_bytes (removed_item item trade_slot) =
    low_bytes 4 item.kind
    ++ (low_bytes 8 (pattern_of 64 item.option)
        ++ (low_bytes 1 (trade_slot % 2 ^ 8) ++ low_bytes 4 item.expire))
message_bytes (trade_event character_id result) =
    low_bytes 4 (pattern_of 32 character_id) ++ low_bytes 1 result
message_bytes (open_result result) = low_bytes 1 result

-- A writer that did not panic and holds the bytes.
abbrev Holds : Option Writer → List ℕ → Type 0
Holds o bytes = (w : Writer) × (o ≡ some w) × IsValid w × (contents w ≡ bytes)

header : ℕ → List ℕ
header code = 0xe2 ∷ 0xb7 ∷ 0 ∷ 0 ∷ low_bytes 2 code

new_writer-Holds : (code : ℕ) → Holds (new_writer code none) (header code)
unfolding header low_bytes new_writer
new_writer-Holds code = let (w, e, v, t, c, i, b) = new_writer_lem code 0xb7e2 in (w, e, v, c)

write-Holds :
    (n : ℕ) (obj : Object) (o : Option Writer) (bytes : List ℕ)
    → n ≤ 8
    → IsNumber obj
    → Holds o bytes
    → Holds (o >=> write_number n obj) (bytes ++ take n (bytes_or_empty obj))
write-Holds n obj o bytes small known (w, e, v, c) =
    let (w', e', v', c', i, t, b) = write_number-Appends n obj w small known v in
    (w', ground (arith, e, e'), v', c' ∙ ap (λ l. l ++ take n (bytes_or_empty obj)) c)

message-Holds :
    (m : Message) → Holds (message_packet m) (header (message_type m) ++ message_bytes m)
unfolding message_type message_bytes header low_bytes object_bytes bytes_or_empty write_byte
    write_int32 write_int64 write_uint32 message_packet
message-Holds (packet_result packet_type result) =
    write-Holds 1 (uint8 result) _ _ (omega arith) (λ k. cc k) (new_writer-Holds packet_type)
message-Holds (trade_item item trade_slot) =
    write-Holds 1 (int (pos 0)) _ _ (omega arith) (λ k. cc k)
      (write-Holds 4 (uint32 item.expire) _ _ (omega arith) (λ k. cc k)
        (write-Holds 1 (uint8 (trade_slot % 2 ^ 8)) _ _ (omega arith) (λ k. cc k)
          (write-Holds 8 (int64 item.option) _ _ (omega arith) (λ k. cc k)
            (write-Holds 4 (uint32 item.kind) _ _ (omega arith) (λ k. cc k)
              (new_writer-Holds nfy_add_item_type)))))
message-Holds (trade_alz amount) =
    write-Holds 1 (int (pos 0)) _ _ (omega arith) (λ k. cc k)
      (write-Holds 4 (int (pos 0)) _ _ (omega arith) (λ k. cc k)
        (write-Holds 1 (int (pos 0)) _ _ (omega arith) (λ k. cc k)
          (write-Holds 8 (int64 (signed 64 amount)) _ _ (omega arith) (λ k. cc k)
            (write-Holds 4 (uint32 trade_alz_item_kind) _ _ (omega arith) (λ k. cc k)
              (new_writer-Holds nfy_add_item_type)))))
message-Holds (removed_item item trade_slot) =
    write-Holds 4 (uint32 item.expire) _ _ (omega arith) (λ k. cc k)
      (write-Holds 1 (uint8 (trade_slot % 2 ^ 8)) _ _ (omega arith) (λ k. cc k)
        (write-Holds 8 (int64 item.option) _ _ (omega arith) (λ k. cc k)
          (write-Holds 4 (uint32 item.kind) _ _ (omega arith) (λ k. cc k)
            (new_writer-Holds nfy_remove_item_type))))
message-Holds (trade_event character_id result) =
    write-Holds 1 (uint8 result) _ _ (omega arith) (λ k. cc k)
      (write-Holds 4 (int32 character_id) _ _ (omega arith) (λ k. cc k)
        (new_writer-Holds nfy_events_type))
message-Holds (open_result result) =
    write-Holds 1 (uint8 result) _ _ (omega arith) (λ k. cc k) (new_writer-Holds open_event_type)

low_bytes-IsBytes : (n p : ℕ) → IsBytes (low_bytes n p)
unfolding low_bytes
low_bytes-IsBytes zero p = tt
low_bytes-IsBytes (suc n) p = (omega arith, low_bytes-IsBytes n (p / 2 ^ 8))

low_then : (n p : ℕ) (rest : List ℕ) → IsBytes rest → IsBytes (low_bytes n p ++ rest)
low_then n p rest h = All-append (λ b. b < 256) (low_bytes n p) rest (low_bytes-IsBytes n p) h

zeros-IsBytes : IsBytes (0 ∷ 0 ∷ 0 ∷ 0 ∷ 0 ∷ 0 ∷ [])
zeros-IsBytes = let h : 0 < 256 = omega arith in (h, (h, (h, (h, (h, (h, tt))))))

message_bytes-IsBytes : (m : Message) → IsBytes (message_bytes m)
unfolding message_bytes
message_bytes-IsBytes (packet_result packet_type result) = low_bytes-IsBytes 1 result
message_bytes-IsBytes (trade_item item trade_slot) = low_then 4 item.kind _ (
    low_then 8 (pattern_of 64 item.option) _
      (low_then 1 (trade_slot % 2 ^ 8) _ (low_then 4 item.expire _ (omega arith, tt))))
message_bytes-IsBytes (trade_alz amount) =
    low_then 4 13 _ (low_then 8 (pattern_of 64 (signed 64 amount)) _ zeros-IsBytes)
message_bytes-IsBytes (removed_item item trade_slot) = low_then 4 item.kind _ (
    low_then 8 (pattern_of 64 item.option) _
      (low_then 1 (trade_slot % 2 ^ 8) _ (low_bytes-IsBytes 4 item.expire)))
message_bytes-IsBytes (trade_event character_id result) =
    low_then 4 (pattern_of 32 character_id) _ (low_bytes-IsBytes 1 result)
message_bytes-IsBytes (open_result result) = low_bytes-IsBytes 1 result

-- Every message of a trade goes out without a panic or an error, and a client that has the key table reads
-- its type and what it tells, after the magic number and the length.
pub message_arrives :
    (m : Message) (e : Encryption)
    → IsKeyTable e.key
    → (w : Writer) × (sent : List ℕ) × (message_packet m ≡ some w)
      × (send e w ≡ some (some sent))
      × (open_reply e.key.key_table sent
          ≡ 0xe2
            ∷ 0xb7
            ∷ length sent % 2 ^ 8
            ∷ length sent / 2 ^ 8 % 2 ^ 8
            ∷ (low_bytes 2 (message_type m) ++ message_bytes m))
unfolding header
message_arrives m e t =
    let (w, made, v, held) = message-Holds m in
    let body = low_bytes 2 (message_type m) ++ message_bytes m in
    let (sent, out, long, opened) =
      send_opens e w 0xe2 0xb7 0 0 body t v held
        (omega (
          arith,
          length-append (low_bytes 2 (message_type m)) (message_bytes m),
          length-low_bytes 2 (message_type m),
        ))
        (omega arith) (omega arith)
        (low_then 2 (message_type m) (message_bytes m) (message_bytes-IsBytes m)) in
    (
      w,
      sent,
      made,
      out,
      subst
          (λ n.
            open_reply e.key.key_table sent ≡ 0xe2 ∷ 0xb7 ∷ n % 2 ^ 8 ∷ n / 2 ^ 8 % 2 ^ 8 ∷ body)
          (sym long) opened,
    )
