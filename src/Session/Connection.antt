-- ===== src/Session/Connection.antt =====
-- A connection from its first packet on (share/network/session.go).
use Prim.Native.Nat.{bit_xor}
use freya.Session.{Session}
use freya.Common.{ℕ, List}
use freya.Encryption.Bytes.{get_u32}
use freya.Encryption.Tables.{XorKeyTable}
use freya.Encryption.Cipher.{Encryption, init, advance}
use freya.Encryption.Cipher.Packets.{plain_header}
use freya.Network.Reader.{Reader}

-- The cipher after a first packet `connect`, on both sides.
pub connected : XorKeyTable → ℕ → Encryption → List ℕ → Encryption
connected table random blank connect =
    advance (record (init table random blank) {
      recv_xor_key = bit_xor (get_u32 connect) (plain_header 6);
    })
