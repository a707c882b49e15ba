-- ===== src/Lib.antt =====
-- Freya is a game server in Go. Clients talk to it in encrypted packets; the servers share packets,
-- encryption and the models of a character. This library models that shared core, the reading of a
-- connection, the trade of two players, parties of players and duels.
--
-- Encryption models share/encryption. `Encryption/Tables` has the constants, the generator `KeyRand`
-- and the key table (`XorKeyTable.Init`, `XorKeyTable.XorKeyTable`, `Generate2ndXorKeyTable`);
-- `Encryption/Cipher` has the state of a connection with `Init`, `GetPacketSize`, `Encrypt` and
-- `Decrypt`. The loops over words are recursions on the rounds left. The start index, which Go draws
-- at random, is an argument. `Cipher/Packets` describes the other side, the client, which is no part
-- of the repository: `seal` makes the packets that `Decrypt` opens, `open_reply` opens what `Encrypt`
-- made. A slice is taken to have no capacity beyond its length. An index beyond the key table is a
-- panic (`keys_found`, `encrypt_finds`); `KeysFit` says how long the table has to be for the state of
-- the cipher.
--
-- Network models share/network/reader.go and writer.go. A reader is a buffer with an index, and a
-- method that panics returns `none`. The writer's argument of type interface{} is the type `Object`.
-- `checkLength` loops until there is room: its fuel is the number of bytes needed, which is enough
-- because a round adds 1024 bytes.
--
-- Inventory models share/models/inventory. The maps of items are association lists (Common/Maps). A
-- method that changes what is stored asks the master server first: `Call`, an argument, takes a
-- request and the server's own state to a reply and a new state, so that any behaviour of the server
-- is covered (`Inventory/Sync`). `Bag` has most methods of inventory.go, `Crafting` has `Enchant`,
-- `ForceCoreEnchant` and `Attach`, `Slots` has `Swap`, `Move` and `Serialize`, `Equipment` has
-- equipment.go and passes an inventory along. Methods hold a mutex, so that one call is one step;
-- `EquipAccessory`, which holds none between its calls, is taken to run alone.
--
-- Character models the values derived from a character in share/models/character: the packed
-- appearance (style.go), health, mana and spirit points (hp.go, mp.go, sp.go), and the basic attack
-- (attack.go).
--
-- Skills models the quick links of a character, share/models/skills/links.go, with the master server
-- as in Inventory.
--
-- Session models share/network/session.go: `Start`, with its loop over the reads of the socket
-- (`run`) and its loop over the packets in the buffer (`drain`), and `Send`. Reads are an argument:
-- the bytes of each and whether it failed too. `closes n` is what `IsClosed` answers once n packets
-- are handed on. The fuel of `drain` is the length of the buffer, which is enough because a packet
-- takes ten bytes or more. `Session/Delivery` describes the stream that a client sends. Sessions use
-- Encryption and Network.
--
-- Trade models cmd/gameserver/packet/trade.go with `TradeState` of cmd/gameserver/context/session.go.
-- The players with a character are a map from `UserIdx` (`Book`). A handler takes the world to a new
-- one and to what is sent to whom (`Handlers`, `Offers` for what is put in and taken out, and
-- `Completion` for `TradeRequestList` and `completeTrade`, in two parts: up to the call of the master
-- server, and from its answer on); `Reading` puts the reading of its packet before it, `Messages` has
-- the packets that go out, which `Replies` follows to the client. A handler holds the locks of both
-- players from its tests to its writes and is one step; what it looks at before it takes the locks is
-- taken not to change in between. `Packets` says which handler takes which packet. `Events` is the
-- step relation: packets, the answers of the master server, players that come and go, and what the
-- rest of the server does to a player. The locks are free during the call of the master server, so
-- that the beginning of an exchange and its end are two steps, between which others may come, and the
-- exchanges under way are part of the state; `Answers` is about the end. An answer is a step only
-- while neither player trades with a third one, and an index of an exchange under way is taken not to
-- be given to another player; `Race` is about what the first condition leaves out. `complete_trade`,
-- `request_list` and `dispatch` are the runs in which nothing happens to the players during the call,
-- with the master server as an argument with a state of its own; `Settlement` is about them.
--
-- Party models cmd/gameserver/packet/party.go with `PartyState`, `PartyInviteState` and
-- `PartySearchState` of cmd/gameserver/context/session.go. The sessions are a map from `UserIdx`,
-- each with its context, whose character may be missing (`Book`), which `context.Parse` then refuses
-- (`parsed`). `Membership` has `makePartyState`, `applyPartyState` and `clearPartyState`;
-- `Invitations`, `Members`, `Options` and `Search` have the handlers; `Messages` has what is sent as
-- values and `Packets` its bytes; `Names` has the names in packets; `Reading` puts the reading of the
-- packet before the handlers. Every session is taken to have a context, and a handler, which takes
-- the locks of the contexts one after the other, is taken to be one step. `Seats` is the view of the
-- sessions that consistent parties need, `Groups` says what they are, and the other modules show that
-- each handler keeps them. `Events` is the step relation: packets, clients that connect and
-- disconnect, players that go to the lobby, and what the rest of the server does to a context.
-- `partySequence` is part of the state; it wraps around, and a step takes it not to come to zero,
-- which marks a session without a party.
--
-- Pvp models cmd/gameserver/packet/pvp.go and pvp_combat.go, with `PVPState` and `BattleModeState` of
-- cmd/gameserver/context. `Book` has the contexts, as in Party, with `parse` for `GetSession` and
-- `context.Parse`, which refuses a session without a character; `Handlers` the handlers of pvp.go,
-- `Combat` the plain attack (`AttckToUser`, with `FindWeaponAttack` of
-- cmd/gameserver/clientdata/weapons.go and cmd/gameserver/packet/attack.go) and `Casting` the
-- targeted skill (`handleTargetedUserSkill`), whose cost and damage are in `Skills`
-- (cmd/gameserver/clientdata/skills.go and skillmeta.go, `consumeSkillMana` of
-- cmd/gameserver/packet/skill.go). `Reading` puts the reading of the packets before them, and
-- `Packets` has what they write. Some handlers look at a context before they hold the locks of both,
-- and a skill lets the locks go for the mana; a handler is taken to be one step. The tables of
-- weapons and skills, which the client's files fill, are an argument; their numbers are taken not to
-- be negative, which `int` would allow. `saveContextVitals` and the broadcasts are recorded as
-- effects. `Agreement` is the invariant, which `Keeping`, `Handled` and `Casts` show of each handler
-- and `Events` of the step relation. `Consent`, `Hits`, `Defeat` and `Stranded` follow a duel from
-- its request on, and `Mana` a skill.
--
-- Common has Go's comparisons, lists, bit operations and maps.
--
-- Not modelled: the sockets, goroutines and jobs of a session, the other handlers of packets
-- (cmd/*/packet), the RPC and SQL code of the master server, the loaders of client data, the
-- serializers of the equipment, logging and configuration.
pub mod Character
pub mod Common
pub mod Encryption
pub mod Inventory
pub mod Network
pub mod Party
pub mod Pvp
pub mod Session
pub mod Skills
pub mod Trade
