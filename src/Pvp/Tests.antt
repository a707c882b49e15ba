-- ===== src/Pvp/Tests.antt =====
-- Duels on concrete sessions (cmd/gameserver/packet/pvp.go and pvp_combat.go).
use freya.Common.Signed.{ℤ, pos}
use freya.Common.Maps.{lookup, insert, erase}
use freya.Common.{
  Bool, List, replicate, ◌<◌, ◌*◌, ◌+◌, ◌-◌, ℕ, ◌≡◌, ◌⊎◌, ◌≤◌, refl, true, false, some, [], ◌∷◌,
  All, arith,
}
use freya.Character.Style.{Style}
use freya.Character.Attack.{Fighter}
use freya.Encryption.Tables.{XorKeyTable}
use freya.Session.{Session, start, run}
use freya.Pvp.Book.{Player, last_error, BattleMode, Char, World, Outcome, no_pvp, stage_person}
use freya.Pvp.Handlers.{request, respond, replies}
use freya.Pvp.Combat.{Weapons, attack, physical_attack, is_combat_pair, find_weapon_attack}
use freya.Pvp.Skills.{ClientData, group_of, skill_level, skill_cost, mana_cost, mp_waste}
use freya.Pvp.Casting.{Cast, cast_on}
use freya.Pvp.Mana.{Lands, cost_of, damage_of, skill_effect}
use freya.Pvp.Reading.{pvp_request, kind_of, dispatch, handle_packet, handle_request}
use freya.Trade.Reading.{decode_user_object_index}
use freya.Network.Reader.{
  Reader, read_byte, read_int32, read_signed, read_places, sum_places, place,
}
use freya.Pvp.Agreement.{IsAgreed, duels}
use freya.Pvp.Events.{
  Reach, here, next, handles, connects, disconnects, Reach-IsAgreed, nobody-IsAgreed,
}
use freya.Pvp.Total.{session_pvp_handled}
use freya.Pvp.Hits.{HitsInDuel, Faces, Refused, strikes, attacks_add_up, attack_guarded}
use freya.Pvp.Consent.{IsReady, Restored, player, pvp_of, refusal_restores}
use freya.Pvp.Defeat.{IsDecided, Defeated, duel-IsDecided, defeat_without_consent}
use freya.Pvp.Stranded.{Stuck, disconnect_strands}

abbrev table : XorKeyTable
table = record { key_table = replicate 512 0; seed_2nd = 0 }

abbrev connection : Session
connection = start table 5 (record {
  recv_xor_key = 0;
  is_first_packet = false;
  xor_key_table_base_multiple = 0;
  key = table;
  recv_xor_key_idx = 0;
})

abbrev looks : Style
looks = record {
  battle_style = 1;
  mastery_level = 9;
  face = 2;
  hair_color = 7;
  hair_style = 6;
  aura = 1;
  gender = true;
  helmet = true;
}

abbrev fighter : Fighter
fighter = record { style = looks; str = 30; dex = 20; int = 10 }

abbrev peace : BattleMode
peace = record { mode = 0; mp_waste_percent = 0 }

abbrev char : ℕ → ℕ → Char
char id hp = record {
  id = pos id;
  current_hp = hp;
  max_hp = 100;
  current_mp = 50;
  current_sp = 0;
  fighter = fighter;
  right_hand = 8195;
  left_hand = 0;
  skills = record { id = 5; level = 3 } ∷ [];
}

abbrev swords : Weapons
swords =
    (
      3,
      record {
        base_attack = 20;
        base_magic_attack = 0;
        upgrade_bonus = 0 ∷ 5 ∷ [];
        magic_upgrade_bonus = [];
      },
    )
    ∷ []

abbrev tables : ClientData
tables = record {
  weapons = swords;
  metas = (5, record { group = 1; mp_waste_per_level = 20; mp_waste_base = 50 }) ∷ [];
  damages =
      (
        5,
        record {
          physical_attack_coef = 12;
          magic_attack_coef = 0;
          level_attack_coef = 3;
          base_attack = 40;
          kind = 1;
        },
      )
      ∷ [];
}

abbrev town : World
town =
    insert 2 (player (char 20 100) (some 1, peace) no_pvp)
      (insert 1 (player (char 10 60) (some 1, peace) no_pvp) [])

town_reached : Reach tables [] town
unfolding lookup insert erase
town_reached =
    next (next here (connects 1 (player (char 10 60) (some 1, peace) no_pvp) [] refl refl)) (
      connects 2 (player (char 20 100) (some 1, peace) no_pvp)
        (insert 1 (player (char 10 60) (some 1, peace) no_pvp) []) refl refl)

-- `CSC_PVPREQUEST` for the session 2 with the character 20.
abbrev request_packet : Reader
request_packet = record {
  buffer = 226 ∷ 183 ∷ 19 ∷ 0 ∷ 0 ∷ 0 ∷ 0 ∷ 0 ∷ 74 ∷ 1 ∷ 2 ∷ 0 ∷ 0 ∷ 0 ∷ 20 ∷ 0 ∷ 0 ∷ 0 ∷ 2 ∷ [];
  index = 10;
  magic_key = 0xb7e2;
  size = 19;
  check_sum = 0;
  packet_type = 330;
}

-- The first player asks the second one for a duel, and disconnects.
dueling_reached : Reach tables [] (erase 1 (request 1 2 (pos 20) 2 town).0)
unfolding kind_of dispatch handle_request read_byte read_int32 read_signed read_places sum_places
    place decode_user_object_index lookup insert erase
dueling_reached =
    next
      (next town_reached
        (handles pvp_request 1 request_packet town (request 1 2 (pos 20) 2 town) refl refl))
      (disconnects 1 (request 1 2 (pos 20) 2 town).0)

Reach-IsAgreed_example : IsAgreed (duels (erase 1 (request 1 2 (pos 20) 2 town).0))
Reach-IsAgreed_example = Reach-IsAgreed tables dueling_reached nobody-IsAgreed

abbrev ready : IsReady town 1 2 (char 10 60) (char 20 100) (some 1, peace) (some 1, peace)
unfolding lookup insert erase
ready = record {
  mine = no_pvp;
  theirs = no_pvp;
  here = refl;
  there = refl;
  free = refl;
  free' = refl;
  aimed = refl;
}

refusal_restores_example : Restored town (respond 2 1 (pos 10) 2 1 (request 1 2 (pos 20) 2 town).0)
unfolding insert lookup erase
refusal_restores_example =
    refusal_restores town 1 2 (char 10 60) (char 20 100) (some 1, peace) (some 1, peace) ready refl
      refl

duel-IsDecided_example :
    IsDecided tables.weapons 1 2
      (char 10 60)
      (char 20 100)
      1
      (respond 2 1 (pos 10) 2 0 (request 1 2 (pos 20) 2 town).0)
unfolding insert lookup erase
duel-IsDecided_example =
    duel-IsDecided tables.weapons town 1 2 1 peace peace (char 10 60) (char 20 100) 1 ready refl

defeat_without_consent_example :
    Defeated swords 1 2
      (char 10 60)
      (char 20 100)
      (respond 1 2 (pos 20) 2 0 (request 1 2 (pos 20) 2 town).0)
unfolding insert lookup erase
defeat_without_consent_example =
    defeat_without_consent swords town 1 2 1 peace peace (char 10 60) (char 20 100) ready

-- A duel that is under way.
abbrev arena : World
arena =
    (2, player (char 20 100) (some 1, peace) (pvp_of stage_person 1 (pos 10)))
    ∷ (1, player (char 10 60) (some 1, peace) (pvp_of stage_person 2 (pos 20)))
    ∷ []

attacks_add_up_example :
    Faces swords 1 2
      (pos 20)
      (physical_attack swords (char 10 60))
      (100 - 3 * physical_attack swords (char 10 60))
      (strikes swords 1 2 (pos 20) 3 arena)
unfolding lookup is_combat_pair
attacks_add_up_example =
    attacks_add_up swords 1 2 (pos 20) (physical_attack swords (char 10 60)) 100 3 arena (record {
      attacker = player (char 10 60) (some 1, peace) (pvp_of stage_person 2 (pos 20));
      target = player (char 20 100) (some 1, peace) (pvp_of stage_person 1 (pos 10));
      c = char 10 60;
      d = char 20 100;
      here = refl;
      there = refl;
      mine = refl;
      theirs = refl;
      aimed = refl;
      pair = refl;
      force = refl;
      health = refl;
    })

attack_guarded_example :
    Refused 1 arena (attack swords 1 2 (pos 20) arena)
    ⊎ HitsInDuel swords 1 2 (pos 20) arena (attack swords 1 2 (pos 20) arena).0
attack_guarded_example = attack_guarded swords 1 2 (pos 20) arena

disconnect_strands_example : Stuck (erase 2 arena) 1
unfolding lookup
disconnect_strands_example =
    disconnect_strands arena 1 2
      (player (char 10 60) (some 1, peace) (pvp_of stage_person 2 (pos 20))) refl refl refl
      (ground arith)

-- The first packet of a client is that of a player who ends a duel.
abbrev pending_reads : List (List ℕ × Bool)
pending_reads = (0 ∷ 0 ∷ 3 ∷ 4 ∷ 0 ∷ 0 ∷ 0 ∷ 0 ∷ 78 ∷ 1 ∷ 2 ∷ 3 ∷ 0 ∷ 0 ∷ [], false) ∷ []

session_pvp_handled_example :
    All
      (λ r. (o : Outcome) × (handle_packet tables 1 r arena ≡ some o))
      (run (λ n. false) pending_reads connection).0
session_pvp_handled_example =
    session_pvp_handled tables (λ n. false) pending_reads connection 1 arena

-- The attack of a weapon is that of its kind, and the bonus of its level.
upgraded_sword : find_weapon_attack swords (8192 + 3) ≡ some 25
unfolding find_weapon_attack lookup
upgraded_sword = refl

-- The first player uses a skill of level 3 that costs 11 on the second one.
abbrev bolt : Cast
bolt = record { skill_id = 5; pos_x = 3; pos_y = 4; hit_num = 1 }

abbrev fighting : ℕ → ℤ → ℕ → ℕ → Player
fighting v target_id id hp = player (char id hp) (some 1, peace) (pvp_of stage_person v target_id)

skill_effect_example :
    ((50 < cost_of tables bolt (fighting 2 (pos 20) 10 60) (char 10 60))
      × (cast_on tables bolt 1 2 arena
          ≡ replies 1 (last_error 175 (group_of (lookup 5 tables.metas)) 14) arena))
    ⊎ ((cost_of tables bolt (fighting 2 (pos 20) 10 60) (char 10 60) ≤ 50)
        × Lands arena
            (cast_on tables bolt 1 2 arena).0
            1
            2
            (cost_of tables bolt (fighting 2 (pos 20) 10 60) (char 10 60))
            (damage_of tables bolt (char 10 60))
            (fighting 2 (pos 20) 10 60)
            (fighting 1 (pos 10) 20 100)
            (char 10 60)
            (char 20 100))
unfolding lookup is_combat_pair
skill_effect_example =
    skill_effect tables bolt 1 2 (fighting 2 (pos 20) 10 60) (fighting 1 (pos 10) 20 100)
      (char 10 60) (char 20 100) arena
      (record {
        here = refl;
        there = refl;
        mine = refl;
        theirs = refl;
        pair = refl;
        alive = omega arith;
        other = ground arith;
      })

skill_cost_once : cost_of tables bolt (fighting 2 (pos 20) 10 60) (char 10 60) ≡ 11
unfolding lookup skill_level skill_cost mana_cost mp_waste
skill_cost_once = refl
