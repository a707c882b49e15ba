-- ===== src/Trade/Tests.antt =====
-- Two players that trade: the theorems at inputs that meet their hypotheses.
use freya.Common.Signed.{pos}
use freya.Common.Maps.{lookup, insert, erase}
use freya.Common.{
  subst, replicate, ℕ, ◌+◌, ◌/◌, ◌%◌, ◌^◌, length, ◌++◌, ◌≡◌, ◌≢◌, refl, true, some, List, [], ◌∷◌,
  inl, inr, arith, All, false,
}
use freya.Network.Reader.{read_byte, read_byte, Reader, read_places, sum_places, place}
use freya.Inventory.Item.{Item}
use freya.Trade.Book.{
  Player, World, no_trade, put_both, without_trade, trade_pair, trade_open, requester, target,
}
use freya.Trade.Handlers.{cancel_trade, Outcome}
use freya.Trade.Completion.{
  begin_exchange, list_open, begin_list, TradeCall, trade_failed, trade_answered, Exchange,
  request_list, finish_exchange, are_free,
}
use freya.Trade.Reading.{read_slots, read_list, handle_request_list}
use freya.Trade.Pairing.{IsIdle, same_value, IsPaired, IsLinked, put_both-IsPaired}
use freya.Trade.Presence.{join-IsPaired}
use freya.Trade.Packets.{Kind, trade_request_list, kind_of, dispatch, begin_packet}
use freya.Trade.Events.{here, next, leaves_world, answers, handles, Reach, Reach-IsPaired}
use freya.Trade.Settlement.{IsReady, IsExchanged, agreed, exchange_effect, exchange_refused}
use freya.Trade.Total.{session_packets_handled}
use freya.Session.{Session, start, run, send}
use freya.Encryption.Tables.{XorKeyTable, init_table}
use freya.Encryption.Tables.Laws.{init_table-IsKeyTable}
use freya.Encryption.Cipher.{Encryption}
use freya.Encryption.Cipher.Packets.{open_reply}
use freya.Network.Writer.{Writer, low_bytes}
use freya.Trade.Messages.{trade_item, message_packet}
use freya.Trade.Replies.{message_type, message_bytes, message_arrives}
use freya.Trade.Race.{third_player_stranded}

-- A master server that counts the exchanges and accepts them all.
abbrev accepts : TradeCall ℕ
accepts r n = (trade_answered true 100 200, n + 1)

abbrev sword : Item
sword = record { kind = 7; serials = 1; option = pos 3; slot = 4; expire = 0 }

abbrev player : ℕ → List (ℕ × Item) → Player
player id items = record {
  character_id = pos id;
  alz = 500;
  bag = record {
    inv = items;
    link = record { connected = true; character = pos id; server_id = 1 };
  };
  trade = no_trade;
}

abbrev ann : Player
ann = player 10 ((4, sword) ∷ [])

abbrev bob : Player
bob = player 20 []

-- The packet `TRADE_REQUEST` for the character 20 with the index 2.
abbrev ask : Reader
ask = record {
  buffer = 226 ∷ 183 ∷ 18 ∷ 0 ∷ 0 ∷ 0 ∷ 0 ∷ 0 ∷ 4 ∷ 1 ∷ 20 ∷ 0 ∷ 0 ∷ 0 ∷ 2 ∷ 0 ∷ 0 ∷ 0 ∷ [];
  index = 10;
  magic_key = 0xb7e2;
  size = 18;
  check_sum = 0;
  packet_type = 260;
}

abbrev town : World
town = insert 2 bob (insert 1 ann [])

nobody-IsPaired : IsPaired []
unfolding IsPaired lookup
nobody-IsPaired u p e = cc e

-- Ann offers her sword, Bob fifty of his money; both have submitted, and Bob has listed slot 5.
abbrev trading_ann : Player
trading_ann = record ann {
  trade = record no_trade {
    status = trade_open;
    role = requester;
    opponent_user_idx = 2;
    opponent_character_id = pos 20;
    items = record { item = sword; trade_slot = 0 } ∷ [];
    submitted = true;
  };
}

abbrev trading_bob : Player
trading_bob = record bob {
  trade = record no_trade {
    status = trade_open;
    role = target;
    opponent_user_idx = 1;
    opponent_character_id = pos 10;
    alz = 50;
    submitted = true;
    destination_slots = 5 ∷ [];
  };
}

abbrev market : World
market = put_both 1 trading_ann 2 trading_bob town

market-IsLinked : IsLinked 1 trading_ann 2 trading_bob
market-IsLinked = record {
  forth = refl;
  back = refl;
  level = refl;
  busy = refl;
  roles = refl;
  forth_id = refl;
  back_id = refl;
}

town-IsPaired : IsPaired town
unfolding lookup insert erase
town-IsPaired =
    join-IsPaired 2 bob (insert 1 ann []) (join-IsPaired 1 ann [] nobody-IsPaired refl refl) refl
      refl

market-IsPaired : IsPaired market
unfolding lookup insert erase
market-IsPaired =
    put_both-IsPaired 1 2 ann trading_ann bob trading_bob town town-IsPaired refl refl (omega arith)
      (inl (refl, refl)) (inr market-IsLinked)

-- The packet `TRADE_REQUEST_LIST` of Ann, who gets no items.
abbrev list_none : Reader
list_none = record {
  buffer = 226 ∷ 183 ∷ 11 ∷ 0 ∷ 0 ∷ 0 ∷ 0 ∷ 0 ∷ 13 ∷ 1 ∷ 0 ∷ [];
  index = 10;
  magic_key = 0xb7e2;
  size = 11;
  check_sum = 0;
  packet_type = 269;
}

abbrev asked : Exchange
asked = agreed 1 trading_ann 2 trading_bob []

-- Ann lists, so that the exchange begins; Bob leaves during the call, and the master server answers.
traded :
    Reach market []
      (finish_exchange asked
        (trade_answered true 100 200)
        (erase 2 (cancel_trade 2 (begin_list 1 [] market).0.0).0)).0
      []
unfolding insert lookup erase kind_of begin_packet handle_request_list read_list read_slots
    read_byte read_places sum_places place begin_list list_open begin_exchange trade_pair are_free
    cancel_trade
traded =
    next
      (next
        (next here
          (handles trade_request_list 1 list_none market [] (begin_list 1 [] market) refl refl))
        (leaves_world 2 (begin_list 1 [] market).0.0 (asked ∷ [])))
      (answers asked (trade_answered true 100 200)
        (erase 2 (cancel_trade 2 (begin_list 1 [] market).0.0).0) [] []
        ((λ p e. inl (subst IsIdle (same_value refl e) refl)), (λ p e. cc e)))

Reach-IsPaired_example :
    IsPaired
      (finish_exchange asked
        (trade_answered true 100 200)
        (erase 2 (cancel_trade 2 (begin_list 1 [] market).0.0).0)).0
Reach-IsPaired_example = Reach-IsPaired traded market-IsPaired tt

market-IsReady : IsReady trading_ann trading_bob []
unfolding are_free
market-IsReady = record {
  submitted = refl;
  peer_submitted = refl;
  enough = refl;
  peer_enough = refl;
  free = refl;
  distinct = tt;
  peer_distinct = (refl, tt);
}

they_are_a_pair : trade_pair 1 market ≡ some (trading_ann, 2, trading_bob)
unfolding trade_pair lookup insert erase
they_are_a_pair = refl

exchange_effect_example :
    IsExchanged 1 trading_ann 2 trading_bob [] 100 200 market
      (request_list accepts 1 1 [] market 0).0.0
exchange_effect_example =
    exchange_effect accepts 1 1 trading_ann 2 trading_bob [] market 0 100 200 market-IsPaired
      they_are_a_pair market-IsReady refl

-- A master server that fails.
abbrev fails : TradeCall ℕ
fails r n = (trade_failed, n)

exchange_refused_example :
    let w' = (request_list fails 1 1 [] market 0).0.0 in
    (lookup 1 w' ≡ some (without_trade trading_ann))
    × (lookup 2 w' ≡ some (without_trade trading_bob))
    × ((j : ℕ) → j ≢ 1 → j ≢ 2 → lookup j w' ≡ lookup j market)
exchange_refused_example =
    exchange_refused fails 1 1 trading_ann 2 trading_bob [] market 0 market-IsPaired they_are_a_pair
      market-IsReady (λ a b e. cc e)

-- An exchange of Ann with a player 3 ends while she trades with Bob.
abbrev older : Exchange
older = record (agreed 1 trading_ann 3 trading_bob []) { first_offers = [] }

third_player_stranded_example : ¬ IsPaired (finish_exchange older trade_failed market).0
unfolding lookup insert erase
third_player_stranded_example =
    third_player_stranded older trade_failed market trading_ann trading_bob 2 (omega arith) refl
      (omega arith) (omega arith) market-IsLinked

-- A connection over which the packet for Bob's character comes first.
abbrev table : XorKeyTable
table = record { key_table = replicate 512 0; seed_2nd = 0 }

abbrev connection : Session
connection = start table 5 (record {
  recv_xor_key = 0;
  is_first_packet = false;
  xor_key_table_base_multiple = 0;
  key = table;
  recv_xor_key_idx = 0;
})

session_packets_handled_example :
    All
      (λ r.
        (kind : Kind) (u : ℕ) (w : World) (s : ℕ)
        → (a : Outcome × ℕ) × (dispatch accepts 1 kind u r w s ≡ some a))
      (run
        (λ n. false)
        ((0 ∷ 0 ∷ 3 ∷ 4 ∷ 0 ∷ 0 ∷ 0 ∷ 0 ∷ 4 ∷ 1 ∷ 20 ∷ 0 ∷ 0 ∷ 0 ∷ [], false) ∷ [])
        connection).0
session_packets_handled_example =
    session_packets_handled accepts 1 (λ n. false)
      ((0 ∷ 0 ∷ 3 ∷ 4 ∷ 0 ∷ 0 ∷ 0 ∷ 0 ∷ 4 ∷ 1 ∷ 20 ∷ 0 ∷ 0 ∷ 0 ∷ [], false) ∷ []) connection

abbrev cipher : Encryption
cipher = record {
  recv_xor_key = 0;
  is_first_packet = false;
  xor_key_table_base_multiple = 0;
  key = init_table table;
  recv_xor_key_idx = 0;
}

message_arrives_example :
    (w : Writer) × (sent : List ℕ) × (message_packet (trade_item sword 1) ≡ some w)
    × (send cipher w ≡ some (some sent))
    × (open_reply cipher.key.key_table sent
        ≡ 0xe2
          ∷ 0xb7
          ∷ length sent % 2 ^ 8
          ∷ length sent / 2 ^ 8 % 2 ^ 8
          ∷ (low_bytes 2 (message_type (trade_item sword 1)) ++ message_bytes (trade_item sword 1)))
message_arrives_example = message_arrives (trade_item sword 1) cipher (init_table-IsKeyTable table)
