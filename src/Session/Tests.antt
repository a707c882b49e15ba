-- ===== src/Session/Tests.antt =====
-- A connection whose stream comes in three reads: the theorems at inputs that meet their hypotheses.
use freya.Session.{panicked, run, start, send}
use freya.Session.Delivery.{Message, never}
use freya.Session.Connection.{connected}
use freya.Session.Safety.{run_safe}
use freya.Session.Sending.{send_opens}
use freya.Common.{ℕ, ◌≡◌, ◌≢◌, refl, false, some, List, [], ◌∷◌, length, arith}
use freya.Network.Reader.{Reader}
use freya.Network.Writer.{Writer}
use freya.Encryption.Tables.{XorKeyTable, init_table}
use freya.Encryption.Tables.Laws.{init_table-IsKeyTable}
use freya.Encryption.Cipher.{Encryption, init}
use freya.Encryption.Cipher.State.{IsValid-KeysFit, init-IsValid}
use freya.Encryption.Cipher.Packets.{open_reply}

abbrev table : XorKeyTable
table = init_table (record { key_table = []; seed_2nd = 0 })

abbrev blank : Encryption
blank = record {
  recv_xor_key = 0;
  is_first_packet = false;
  xor_key_table_base_multiple = 0;
  key = table;
  recv_xor_key_idx = 0;
}

abbrev connect : List ℕ
connect = 1 ∷ 2 ∷ 3 ∷ 4 ∷ 0 ∷ 0 ∷ 0 ∷ 0 ∷ 101 ∷ 0 ∷ 9 ∷ 9 ∷ 9 ∷ 9 ∷ []

abbrev messages : List Message
messages = (77, 4 ∷ 1 ∷ 8 ∷ []) ∷ (78, 5 ∷ 1 ∷ []) ∷ []

abbrev cipher : Encryption
cipher = connected table 5 blank connect

run_safe_example : (run never ((connect, false) ∷ []) (start table 5 blank)).1.status ≢ panicked
unfolding start
run_safe_example =
    run_safe never ((connect, false) ∷ []) (start table 5 blank)
      (IsValid-KeysFit (init table 5 blank)
        (init-IsValid table 5 blank (init_table-IsKeyTable _) (omega arith) (omega arith)))
      (λ e. cc e)

send_opens_example :
    let w : Writer = record {
      buffer = 226 ∷ 183 ∷ 0 ∷ 0 ∷ 5 ∷ 1 ∷ 30 ∷ [];
      index = 7;
      packet_type = 261;
    } in
    (sent : List ℕ) × (send blank w ≡ some (some sent))
    × (length sent ≡ 7)
    × (open_reply table.key_table sent ≡ 226 ∷ 183 ∷ 7 ∷ 0 ∷ 5 ∷ 1 ∷ 30 ∷ [])
send_opens_example =
    send_opens blank
      (record { buffer = 226 ∷ 183 ∷ 0 ∷ 0 ∷ 5 ∷ 1 ∷ 30 ∷ []; index = 7; packet_type = 261 }) 226
      183 0 0 (5 ∷ 1 ∷ 30 ∷ []) (init_table-IsKeyTable _)
      (record { within = omega arith; sized = omega arith }) refl (omega arith) (omega arith)
      (omega arith) (omega arith)
