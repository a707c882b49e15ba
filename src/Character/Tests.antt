-- ===== src/Character/Tests.antt =====
-- A character at level 20: the theorems at inputs that meet their hypotheses.
use freya.Common.{◌≡◌, true, false, arith}
use freya.Character.Style.{Style, set_style, get_style}
use freya.Character.Style.Packing.{set_style-get_style}
use freya.Character.Vitals.{
  Character, recalculate_hp, recalculate_mp, recalculate_sp, add_spirit_points,
}
use freya.Character.Attack.{Fighter}
use freya.Character.Vitals.Bounds.{IsHealthy, recalculate-IsHealthy}

abbrev looks : Style
looks = record {
  battle_style = 3;
  mastery_level = 9;
  face = 2;
  hair_color = 7;
  hair_style = 6;
  aura = 1;
  gender = true;
  helmet = false;
}

set_style-get_style_example : set_style (get_style looks) ≡ looks
set_style-get_style_example = set_style-get_style looks record {
  battle_fits = omega arith;
  mastery_fits = omega arith;
  face_fits = omega arith;
  color_fits = omega arith;
  hair_fits = omega arith;
  aura_fits = omega arith;
}

abbrev wizard : Character
wizard = record {
  level = 20;
  style = looks;
  sword_rank = 2;
  magic_rank = 3;
  current_hp = 30;
  max_hp = 60;
  current_mp = 10;
  max_mp = 45;
  current_sp = 100;
  max_sp = 5000;
}

wizard-IsHealthy : IsHealthy wizard
wizard-IsHealthy = record {
  hp_le = omega arith;
  mp_le = omega arith;
  sp_le = omega arith;
  hp_small = omega arith;
  mp_small = omega arith;
  sp_small = omega arith;
}

recalculate-IsHealthy_example :
    IsHealthy (recalculate_hp wizard).1
    × IsHealthy (recalculate_mp wizard).1
    × IsHealthy (recalculate_sp wizard).1
    × IsHealthy (add_spirit_points 7000 wizard).1
recalculate-IsHealthy_example = recalculate-IsHealthy wizard 7000 wizard-IsHealthy

abbrev weak : Fighter
weak = record { style = looks; str = 300; dex = 200; int = 900 }

abbrev strong : Fighter
strong = record { style = looks; str = 350; dex = 200; int = 1000 }
