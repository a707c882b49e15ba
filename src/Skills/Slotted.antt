-- ===== src/Skills/Slotted.antt =====
-- The quick links of share/models/skills/links.go lie in the slots that they name.
use freya.Common.Maps.{GoMap, lookup, insert, erase}
use freya.Common.{
  ℕ, ◌≡◌, refl, inl, inr, Bool, true, false, some, List, [], ◌∷◌, arith, ◌==◌, if◌then◌else◌, All,
  ◌∙◌, Option-cases, Bool-cases,
}
use freya.Skills.Links.{
  Link, Links, LinkCall, get, without_skill, remove_skill_local, setup, init, set, swap_found, swap,
  remove, Operation, op_set, op_swap, op_remove, op_remove_skill, op_setup, perform, perform_all,
}

-- Every entry names its key.
abbrev pub IsSlotted : GoMap Link → Type 0
IsSlotted m = All (λ (e : ℕ × Link). e.1.slot ≡ e.0) m

erase-IsSlotted : (slot : ℕ) (m : GoMap Link) → IsSlotted m → IsSlotted (erase slot m)
unfolding erase
erase-IsSlotted slot [] h = tt
erase-IsSlotted slot (e ∷ m) (p, h) = elim (Bool-cases (slot == e.0)) [
  | inl same ↦ rw (same, erase) (erase-IsSlotted slot m h)
  | inr other ↦ rw (other, erase) (p, erase-IsSlotted slot m h)
]

insert-IsSlotted :
    (slot : ℕ) (link : Link) (m : GoMap Link)
    → link.slot ≡ slot
    → IsSlotted m
    → IsSlotted (insert slot link m)
unfolding insert
insert-IsSlotted slot link m e h = (e, erase-IsSlotted slot m h)

without_skill-IsSlotted :
    (skill : ℕ) (m : GoMap Link) → IsSlotted m → IsSlotted (without_skill skill m)
unfolding without_skill
without_skill-IsSlotted skill [] h = tt
without_skill-IsSlotted skill (e ∷ m) (p, h) = elim (Bool-cases (e.1.skill == skill)) [
  | inl same ↦ rw (same, without_skill) (without_skill-IsSlotted skill m h)
  | inr other ↦ rw (other, without_skill) (p, without_skill-IsSlotted skill m h)
]

lookup-slotted :
    (j : ℕ) (m : GoMap Link) (link : Link) → IsSlotted m → lookup j m ≡ some link → link.slot ≡ j
unfolding lookup
lookup-slotted j [] link h found = cc found
lookup-slotted j (e ∷ m) link (p, h) found = elim (Bool-cases (j == e.0)) [
  | inl same ↦
      let found' : some e.1 ≡ some link = ground (arith, found, same) in
      same_slot found' ∙ p ∙ ground (arith, same)
  | inr other ↦ lookup-slotted j m link h (ground (arith, found, other))
]
  where
    same_slot : {a b : Link} → some a ≡ some b → b.slot ≡ a.slot
    same_slot e = cc e

-- The change that is made where there is no error.
chosen-IsSlotted :
    (b : Bool) (l l' : Links)
    → IsSlotted l.list
    → IsSlotted l'.list
    → IsSlotted (if b then l' else l).list
chosen-IsSlotted true l l' h k = k
chosen-IsSlotted false l l' h k = h

module _ {W : Type 0} (call : LinkCall W) where
  swap-IsSlotted :
      (old new : ℕ) (l : Links) (w : W)
      → IsSlotted l.list
      → IsSlotted (swap call old new l w).1.list
  unfolding swap swap_found
  swap-IsSlotted old new l w h = elim (Option-cases (get old l)) [
    | inl e ↦ rw (e, swap) h
    | inr (a, e) ↦ elim (Option-cases (get new l)) [
      | inl e' ↦ rw (e, e', swap) h
      | inr (b, e') ↦
          rw (e, e', swap)
            (chosen-IsSlotted _ l (record l { list = _ }) h
              (insert-IsSlotted old (record b { slot = old }) _ refl
                (insert-IsSlotted new (record a { slot = new }) _ refl
                  (erase-IsSlotted new _ (erase-IsSlotted old l.list h)))))
    ]
  ]

  remove-IsSlotted :
      (slot : ℕ) (l : Links) (w : W) → IsSlotted l.list → IsSlotted (remove call slot l w).1.list
  unfolding remove
  remove-IsSlotted slot l w h = elim (Option-cases (lookup slot l.list)) [
    | inl e ↦ rw (e, remove) h
    | inr (a, e) ↦
        rw (e, remove)
          (chosen-IsSlotted _ l (record l { list = _ }) h (erase-IsSlotted slot l.list h))
  ]

  perform-IsSlotted :
      (o : Operation call) (l : Links) (w : W)
      → IsSlotted l.list
      → IsSlotted (perform call o l w).0.list
  unfolding perform set remove_skill_local setup
  perform-IsSlotted (op_set slot link) l w h =
      chosen-IsSlotted _ l (record l { list = _ }) h
        (insert-IsSlotted slot (record link { slot = slot }) l.list refl h)
  perform-IsSlotted (op_swap old new) l w h = swap-IsSlotted old new l w h
  perform-IsSlotted (op_remove slot) l w h = remove-IsSlotted slot l w h
  perform-IsSlotted (op_remove_skill skill) l w h = without_skill-IsSlotted skill l.list h
  perform-IsSlotted (op_setup connected id server) l w h = h

  perform_all-IsSlotted :
      (os : List (Operation call)) (l : Links) (w : W)
      → IsSlotted l.list
      → IsSlotted (perform_all call os l w).0.list
  unfolding perform_all
  perform_all-IsSlotted [] l w h = h
  perform_all-IsSlotted (o ∷ os) l w h = perform_all-IsSlotted os _ _ (perform-IsSlotted o l w h)

  -- After `Init` and any calls of the other methods, whatever the server answers, a link that Get finds names the
  -- slot that it was asked for.
  pub get-perform_all :
      (os : List (Operation call)) (l : Links) (w : W) (j : ℕ) (link : Link)
      → get j (perform_all call os (init l) w).0 ≡ some link
      → link.slot ≡ j
  unfolding get init
  get-perform_all os l w j link found =
      lookup-slotted j _ link (perform_all-IsSlotted os (init l) w tt) found
