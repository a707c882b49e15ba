-- ===== src/Session/Sending.antt =====
-- What `Send` writes to the socket (share/network/session.go) a client reads back.
use freya.Session.{send}
use freya.Common.{ℕ, ◌/◌, ◌%◌, ◌^◌, ◌≤◌, ◌<◌, ◌≡◌, ap, some, List, ◌∷◌, length, arith, length-take}
use freya.Encryption.Bytes.{IsBytes}
use freya.Encryption.Tables.Laws.{IsKeyTable}
use freya.Encryption.Cipher.{Encryption}
use freya.Encryption.Cipher.Packets.{open_reply, open_reply-encrypt}
use freya.Network.Writer.{Writer}
use freya.Network.Writer.Contents.{contents, IsValid}
use freya.Network.Writer.Header.{finalize_lem}

-- A packet of six bytes or more that a writer holds goes out as as many bytes, from which a client that
-- has the key table reads it, with its length in the third and fourth byte.
pub send_opens :
    (e : Encryption) (w : Writer) (a b c d : ℕ) (body : List ℕ)
    → IsKeyTable e.key
    → IsValid w
    → contents w ≡ a ∷ b ∷ c ∷ d ∷ body
    → 2 ≤ length body
    → a < 256
    → b < 256
    → IsBytes body
    → (sent : List ℕ) × (send e w ≡ some (some sent))
      × (length sent ≡ w.index)
      × (open_reply e.key.key_table sent ≡ a ∷ b ∷ w.index % 2 ^ 8 ∷ w.index / 2 ^ 8 % 2 ^ 8 ∷ body)
unfolding send
send_opens e w a b c d body t v held long ha hb hbs =
    let (w', final) = finalize_lem w a b c d body v held in
    let packet : List ℕ = a ∷ b ∷ w.index % 2 ^ 8 ∷ w.index / 2 ^ 8 % 2 ^ 8 ∷ body in
    let index : length packet ≡ w.index =
      omega (arith, ap (λ (l : List ℕ). length l) held, length-take w.index w.buffer, v.within) in
    let (sent, encrypted, same, back) =
      open_reply-encrypt e packet t (omega (arith, long))
        (ha, (hb, (omega arith, (omega arith, hbs)))) in
    (sent, ground (arith, final, encrypted), omega (arith, same, index), back)
