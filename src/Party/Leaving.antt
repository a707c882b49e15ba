-- ===== src/Party/Leaving.antt =====
-- `LeaveParty` of cmd/gameserver/packet/party.go keeps parties consistent.
use freya.Common.Maps.{lookup, insert}
use freya.Common.{
  Bool, is_some, Option, ℕ, ◌≤◌, ◌≡◌, refl, sym, ap, subst, ◌∙◌, inl, inr, true, some, List, [],
  ◌∷◌, length, contains, arith, ◌==◌, if◌then◌else◌, Option-cases, Bool-cases,
}
use freya.Party.Book.{
  PartyMember, PartyState, Player, World, has_party, no_party, without_party, without_member,
  member_of,
}
use freya.Party.Membership.{Players, apply_party, clear_party}
use freya.Party.Members.{led_by, leave_behind, leave_party, leave}
use freya.Party.Messages.{Outcome, Sent}
use freya.Party.Seats.{
  seated, seats, indices, moved, seats-insert, seats-clear_party, seats-apply_party,
  contains-without_member,
}
use freya.Party.Groups.{IsSound, IsGrouped}
use freya.Party.Expulsion.{Dropped, disband, carry_on}

-- The parties of an outcome are consistent.
pub record Keeps (o : Outcome) : Type 0 where
  pub kept : IsGrouped (seats o.0.players)

pub keeps : {w : World} {sent : List Sent} → IsGrouped (seats w.players) → Keeps (w, sent)
keeps h = record { kept = h }

-- A session that names a party is in a sound one.
pub in_party-IsSound :
    (u : ℕ) (p : Player) (ps : Players)
    → IsGrouped (seats ps)
    → lookup u ps ≡ some p
    → has_party p.party ≡ true
    → IsSound (seats ps) u p.party
unfolding IsGrouped seats
in_party-IsSound u p ps h e active = elim (h u p.party _ (ap seated e)) [
  | inl (idle, x) ↦ cc (idle, active)
  | inr g ↦ g
]

-- What remains when `i` is dropped from the party `s` of `u`.
pub record Leaves (ps ps1 : Players) (u i : ℕ) (s : PartyState) (rest : List PartyMember)
    : Type 0 where
  pub before : IsGrouped (seats ps)
  pub sound : IsSound (seats ps) u s
  pub member : contains (indices s.members) i ≡ true
  pub dropped : Dropped (seats ps) i (seats ps1)
  pub others : rest ≡ without_member i s.members

pub leave_none :
    (ps ps1 : Players) (u i : ℕ) (s : PartyState) → Leaves ps ps1 u i s [] → IsGrouped (seats ps1)
leave_none ps ps1 u i s l =
    disband (seats ps) (seats ps1) (seats ps1) u i s l.before l.sound l.member l.dropped (λ j.
      subst
        (λ ms.
          seats ps1 j
          ≡ (if contains (indices ms) j then moved no_party (seats ps1 j) else seats ps1 j))
        l.others refl)

pub leave_one :
    (ps ps1 : Players) (u i : ℕ) (s : PartyState) (m : PartyMember)
    → Leaves ps ps1 u i s (m ∷ [])
    → IsGrouped (seats (clear_party m.user_idx ps1))
leave_one ps ps1 u i s m l =
    disband (seats ps) (seats ps1) (seats (clear_party m.user_idx ps1)) u i s l.before l.sound
      l.member l.dropped
      (λ j.
        subst
          (λ ms.
            seats (clear_party m.user_idx ps1) j
            ≡ (if contains (indices ms) j then moved no_party (seats ps1 j) else seats ps1 j))
          l.others (ground (arith, seats-clear_party m.user_idx ps1 j)))

pub leave_many :
    (ps ps1 : Players) (u i : ℕ) (s s' : PartyState)
    → Leaves ps ps1 u i s s'.members
    → has_party s' ≡ true
    → contains (indices s'.members) s'.leader_user_idx ≡ true
    → 2 ≤ length s'.members
    → IsGrouped (seats (apply_party s' ps1).0)
leave_many ps ps1 u i s s' l active leader several =
    carry_on (seats ps) (seats ps1) (seats (apply_party s' ps1).0) u i s s' l.before l.sound
      l.member l.dropped l.others active leader several (seats-apply_party s' ps1)

-- The leader of those that remain is one of them.
led_by-leader :
    (party : PartyState) (u : ℕ) (m : PartyMember) (ms : List PartyMember)
    → m ∷ ms ≡ without_member u party.members
    → contains (indices party.members) party.leader_user_idx ≡ true
    → contains
        (indices (led_by party u m (m ∷ ms)).members)
        (led_by party u m (m ∷ ms)).leader_user_idx
      ≡ true
unfolding led_by
led_by-leader party u m ms rest leader = elim (Bool-cases (party.leader_user_idx == u)) [
  | inl same ↦ rw (same, led_by) (ground arith)
  | inr other ↦
      rw (other, led_by)
        (ap (λ l. contains (indices l) party.leader_user_idx) rest
          ∙ ground
              (arith, contains-without_member u party.members party.leader_user_idx, leader, other))
]

pub members-led_by :
    (party : PartyState) (u : ℕ) (m : PartyMember) (ms : List PartyMember)
    → (led_by party u m ms).members ≡ ms
unfolding led_by
members-led_by party u m ms = elim (Bool-cases (party.leader_user_idx == u)) [
  | inl same ↦ rw (same, led_by) refl
  | inr other ↦ rw (other, led_by) refl
]

has_party-led_by :
    (party : PartyState) (u : ℕ) (m : PartyMember) (ms : List PartyMember)
    → has_party (led_by party u m ms) ≡ has_party party
unfolding led_by
has_party-led_by party u m ms = elim (Bool-cases (party.leader_user_idx == u)) [
  | inl same ↦ rw (same, led_by) refl
  | inr other ↦ rw (other, led_by) refl
]

seat_value : {A : Type 0} {x y : A} {o : Option A} → o ≡ some x → o ≡ some y → x ≡ y
seat_value e e' = cc (e, e')

-- A session of a party has a character.
has_character :
    (u : ℕ) (p : Player) (ps : Players) {s : PartyState}
    → lookup u ps ≡ some p
    → seats ps u ≡ some (s, true)
    → is_some p.char ≡ true
unfolding seats
has_character u p ps e seat = ap (λ (t : PartyState × Bool). t.1) (seat_value (ap seated e) seat)

-- A session with a character, that is taken out of its party.
pub self-Dropped :
    (ps : Players) (u : ℕ) (p : Player)
    → lookup u ps ≡ some p
    → is_some p.char ≡ true
    → Dropped (seats ps) u (seats (insert u (without_party p) ps))
unfolding seats
self-Dropped ps u p e there_is j =
    seats-insert u (without_party p) ps j ∙ elim (Bool-cases (j == u)) [
      | inr other ↦ ground (arith, other)
      | inl same ↦
          let eq : u ≡ j = ground (arith, same) in
          let there : lookup j ps ≡ some p = subst (λ k. lookup k ps ≡ some p) eq e in
          ground (arith, same, there, there_is)
    ]

leave_behind-Keeps :
    (ps : Players) (u : ℕ) (me : PartyMember) (party : PartyState) (rest : List PartyMember)
    (w : World)
    → Leaves ps w.players u u party rest
    → Keeps (leave_behind u me party rest w)
unfolding leave_behind
leave_behind-Keeps ps u me party [] w l = keeps (leave_none ps w.players u u party l)
leave_behind-Keeps ps u me party (m ∷ []) w l = keeps (leave_one ps w.players u u party m l)
leave_behind-Keeps ps u me party (m ∷ n ∷ ms) w l = keeps (
    leave_many ps w.players u u party (led_by party u m (m ∷ n ∷ ms))
      (subst (Leaves ps w.players u u party) (sym (members-led_by party u m (m ∷ n ∷ ms))) l)
      (has_party-led_by party u m (m ∷ n ∷ ms) ∙ l.sound.active)
      (led_by-leader party u m (n ∷ ms) l.others l.sound.leader)
      (subst (λ o. 2 ≤ length o) (sym (members-led_by party u m (m ∷ n ∷ ms))) (omega arith)))

pub leave_party-Keeps :
    (u : ℕ) (w : World) → IsGrouped (seats w.players) → Keeps (leave_party u w).1
unfolding leave_party
leave_party-Keeps u w h = elim (Option-cases (lookup u w.players)) [
  | inl e ↦ rw (e, leave_party) (keeps h)
  | inr (me, e) ↦ elim (Option-cases (member_of w.channel_id u me)) [
    | inl e' ↦ rw (e, e', leave_party) (keeps h)
    | inr (member, e') ↦ elim (Bool-cases (has_party me.party)) [
      | inr idle ↦ rw (e, e', idle, leave_party) (keeps h)
      | inl active ↦
          let g = in_party-IsSound u me w.players h e active in
          rw (e, e', active, leave_party)
            (leave_behind-Keeps w.players u member me.party (without_member u me.party.members) _
              record {
                before = h;
                sound = g;
                member = g.mine;
                dropped =
                    self-Dropped w.players u me e
                      (has_character u me w.players e (g.shared u g.mine));
                others = refl;
              })
    ]
  ]
]

pub leave-Keeps : (u : ℕ) (w : World) → IsGrouped (seats w.players) → Keeps (leave u w)
unfolding leave
leave-Keeps u w h = keeps (leave_party-Keeps u w h).kept
