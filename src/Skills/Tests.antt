-- ===== src/Skills/Tests.antt =====
-- A run of the quick links of share/models/skills/links.go.
use freya.Common.Signed.{pos}
use freya.Common.Maps.{lookup, insert, erase}
use freya.Common.{ℕ, ◌+◌, ◌≡◌, refl, true, List, [], ◌∷◌}
use freya.Skills.Links.{
  Link, Links, LinkCall, responded, Operation, op_set, op_swap, op_remove, op_remove_skill,
  op_setup, get, init, perform_all,
}
use freya.Skills.Slotted.{get-perform_all}

-- A server that accepts every request and counts them.
abbrev agrees : LinkCall ℕ
agrees r n = (responded true, n + 1)

abbrev no_links : Links
no_links = record { list = []; connected = true; character = pos 0; server_id = 0 }

abbrev calls : List (Operation agrees)
calls =
    op_set 1 (record { skill = 7; slot = 0 })
    ∷ op_setup true (pos 10) 1
    ∷ op_set 2 (record { skill = 8; slot = 0 })
    ∷ op_swap 1 2
    ∷ op_set 3 (record { skill = 9; slot = 0 })
    ∷ op_remove_skill 9
    ∷ op_remove 1
    ∷ []

abbrev moved_link : Link
moved_link = record { skill = 7; slot = 2 }

get-perform_all_example : moved_link.slot ≡ 2
unfolding perform_all get init lookup insert erase
get-perform_all_example = get-perform_all agrees calls no_links 0 2 moved_link refl
