-- ===== src/Pvp/Agreement.antt =====
-- The invariant of duels (cmd/gameserver/packet/pvp.go): sessions that name each other are equally far.
use freya.Common.Maps.{lookup, insert, erase, lookup-insert, lookup-erase}
use freya.Common.{
  ℕ, ◌≡◌, ◌≢◌, refl, sym, ap, subst, ◌∙◌, ◌⊎◌, inl, inr, Bool, true, false, Option, none, some,
  is_some, arith, ◌==◌, if◌then◌else◌,
}
use freya.Pvp.Book.{PvpState, Player, World, is_idle, put_both}

-- What the invariant needs of a session: its duel, and whether it has a character.
abbrev pub Entry : Type 0
Entry = PvpState × Bool

abbrev pub entry_of : Player → Entry
entry_of p = (p.pvp, is_some p.char)

abbrev pub entered : Option Player → Option Entry
entered none = none
entered (some p) = some (entry_of p)

abbrev pub Duels : Type 0
Duels = ℕ → Option Entry

unfoldable pub duels : World → Duels
duels w j = entered (lookup j w)

-- A session `u` with a duel has a character, does not name itself, and an opponent that names it back is
-- equally far.
pub record IsEven (f : Duels) (u : ℕ) (s : PvpState) (b : Bool) : Type 0 where
  pub present : b ≡ true
  pub apart : s.opponent_user_idx ≢ u
  pub level :
      (t : PvpState) (c : Bool)
      → f s.opponent_user_idx ≡ some (t, c)
      → is_idle t.stage ≡ false
      → t.opponent_user_idx ≡ u
      → t.stage ≡ s.stage

unfoldable pub IsAgreed : Duels → Type 0
IsAgreed f =
    (u : ℕ) (s : PvpState) (b : Bool) → f u ≡ some (s, b) → is_idle s.stage ≡ false → IsEven f u s b

-- A session that is not there, or has no duel.
abbrev pub IsQuiet : Duels → ℕ → Type 0
IsQuiet f u = (s : PvpState) (b : Bool) → f u ≡ some (s, b) → is_idle s.stage ≡ true

-- A session with a duel, and the other side of it.
pub record IsLinked (f : Duels) (u v : ℕ) : Type 0 where
  pub mine : PvpState
  pub theirs : PvpState
  pub here : f u ≡ some (mine, true)
  pub there : f v ≡ some (theirs, true)
  pub forth : mine.opponent_user_idx ≡ v
  pub back : theirs.opponent_user_idx ≡ u
  pub other : v ≢ u
  pub same : theirs.stage ≡ mine.stage

-- What a step may do to a session.
abbrev pub Moves : Duels → Duels → ℕ → Type 0
Moves f f' j = (f' j ≡ f j) ⊎ (IsQuiet f' j ⊎ ((k : ℕ) × IsLinked f' j k))

pub same_entry :
    {o : Option Entry} {s t : PvpState} {b c : Bool} → o ≡ some (s, b) → o ≡ some (t, c) → s ≡ t
same_entry e e' = cc (e, e')

same_flag :
    {o : Option Entry} {s t : PvpState} {b c : Bool} → o ≡ some (s, b) → o ≡ some (t, c) → b ≡ c
same_flag e e' = cc (e, e')

linked-IsEven :
    (f : Duels) (u k : ℕ) (s : PvpState) (b : Bool)
    → IsLinked f u k
    → f u ≡ some (s, b)
    → IsEven f u s b
linked-IsEven f u k s b l e =
    let is_mine : l.mine ≡ s = same_entry l.here e in
    let forth : s.opponent_user_idx ≡ k =
      ap (λ (x : PvpState). x.opponent_user_idx) (sym is_mine) ∙ l.forth in
    record {
      present = sym (same_flag l.here e);
      apart = λ self. l.other (sym forth ∙ self);
      level = λ t c e' busy back.
          let is_theirs : l.theirs ≡ t =
            same_entry l.there (subst (λ j. f j ≡ some (t, c)) forth e') in
          ap (λ (x : PvpState). x.stage) (sym is_theirs)
          ∙ l.same
          ∙ ap (λ (x : PvpState). x.stage) is_mine;
    }

-- Steps that leave sessions as they are, quiet, or linked keep the invariant.
pub agree : (f f' : Duels) → IsAgreed f → ((j : ℕ) → Moves f f' j) → IsAgreed f'
unfolding IsAgreed
agree f f' h moves u s b e busy = elim (moves u) [
  | inr (inl quiet) ↦ cc (quiet s b e, busy)
  | inr (inr (k, l)) ↦ linked-IsEven f' u k s b l e
  | inl kept ↦
      let old = h u s b (sym kept ∙ e) busy in
      record {
        present = old.present;
        apart = old.apart;
        level = λ t c e' busy' back. elim (moves s.opponent_user_idx) [
          | inl kept' ↦ old.level t c (sym kept' ∙ e') busy' back
          | inr (inl quiet) ↦ cc (quiet t c e', busy')
          | inr (inr (k, l)) ↦
              let even = linked-IsEven f' s.opponent_user_idx k t c l e' in
              sym (even.level s b (subst (λ j. f' j ≡ some (s, b)) (sym back) e) busy refl)
        ];
      }
]

-- The two contexts that a handler writes.
pub duels-put_both :
    (u v : ℕ) (p q : Player) (w : World) (j : ℕ)
    → duels (put_both u p v q w) j
      ≡ (if j == v then some (entry_of q) else if j == u then some (entry_of p) else duels w j)
unfolding duels
duels-put_both u v p q w j =
    ground (arith, lookup-insert j v q (insert u p w), lookup-insert j u p w)

pub duels-insert :
    (u : ℕ) (p : Player) (w : World) (j : ℕ)
    → duels (insert u p w) j ≡ (if j == u then some (entry_of p) else duels w j)
unfolding duels
duels-insert u p w j = ground (arith, lookup-insert j u p w)

pub duels-erase :
    (u : ℕ) (w : World) (j : ℕ) → duels (erase u w) j ≡ (if j == u then none else duels w j)
unfolding duels
duels-erase u w j = ground (arith, lookup-erase j u w)
