-- ===== src/Skills/Links.antt =====
-- The quick links of a character: share/models/skills/links.go. The master server behind
-- `rpcHandler.Call` is a parameter with a state of its own. A method, which takes the mutex for what it
-- reads and writes, is taken to be one step.
use freya.Common.Signed.{ℤ, pos, eq_ℤ}
use freya.Common.Maps.{GoMap, lookup, insert, erase}
use freya.Common.{
  ℕ, Bool, true, false, ◌&&◌, not, Option, none, some, List, [], ◌∷◌, ◌==◌, if◌then◌else◌,
}

pub record Link : Type 0 where
  pub skill : ℕ  -- uint16
  pub slot : ℕ  -- uint16

-- `Links`, without its mutex.
pub record Links : Type 0 where
  pub list : GoMap Link
  pub connected : Bool  -- rpcHandler != nil
  pub character : ℤ  -- int32
  pub server_id : ℕ  -- byte

-- `QuickLinkSet`, `QuickLinkSwap` and `QuickLinkRemove` of share/rpc/const.go.
pub data LinkCommand : Type 0 where
  quick_link_set quick_link_swap quick_link_remove : LinkCommand

pub record QuickLinkRequest : Type 0 where
  pub server : ℕ
  pub id : ℤ
  pub command : LinkCommand
  pub old_link : Option Link
  pub new_link : Option Link

-- `Call` returns an error, or fills `Result`.
pub data LinkReply : Type 0 where
  call_failed : LinkReply
  responded : Bool → LinkReply

pub data LinkError : Type 0 where
  handler_not_ready link_call_failed no_old_link no_new_link no_link : LinkError

abbrev pub LinkOutcome : Type 0
LinkOutcome = Bool × Option LinkError

abbrev pub LinkCall : Type 0 → Type 0
LinkCall W = QuickLinkRequest → W → LinkReply × W

-- `err == nil`
abbrev pub went_through : LinkOutcome → Bool
went_through (ok, none) = true
went_through (ok, some e) = false

abbrev pub outcome_of : LinkReply → LinkOutcome
outcome_of call_failed = (false, some link_call_failed)
outcome_of (responded result) = (result, none)

-- `Init` and `Setup`
unfoldable pub init : Links → Links
init l = record l { list = [] }

unfoldable pub setup : Bool → ℤ → ℕ → Links → Links
setup connected id server l = record l { connected = connected; character = id; server_id = server }

-- `Get`
unfoldable pub get : ℕ → Links → Option Link
get slot l = lookup slot l.list

-- The loop of `RemoveSkillLocal`.
unfoldable pub without_skill : ℕ → GoMap Link → GoMap Link
without_skill skill [] = []
without_skill skill (e ∷ m) =
    let rest = without_skill skill m in if e.1.skill == skill then rest else e ∷ rest

-- `RemoveSkillLocal`, on links that are there.
unfoldable pub remove_skill_local : ℕ → Links → Links
unfolding without_skill
remove_skill_local skill l = record l { list = without_skill skill l.list }

module _ {W : Type 0} (call : LinkCall W) where
  -- `sync`
  unfoldable pub sync : LinkCommand → Option Link → Option Link → Links → W → LinkOutcome × W
  sync command old new l w =
      let (reply, w') =
        call
          (record {
            server = l.server_id;
            id = l.character;
            command = command;
            old_link = old;
            new_link = new;
          })
          w in
      if eq_ℤ l.character (pos 0) && l.server_id == 0
      then ((true, none), w)
      else if not l.connected
      then ((false, some handler_not_ready), w)
      else (outcome_of reply, w')

  -- `Set`
  unfoldable pub set : ℕ → Link → Links → W → LinkOutcome × Links × W
  unfolding sync
  set slot link l w =
      let link' = record link { slot = slot } in
      let (outcome, w') = sync quick_link_set none (some link') l w in
      (
        outcome,
        (if went_through outcome then record l { list = insert slot link' l.list } else l),
        w',
      )

  -- `Swap`, on the two links found.
  unfoldable pub swap_found : ℕ → ℕ → Link → Link → Links → W → LinkOutcome × Links × W
  unfolding sync
  swap_found old new old_found new_found l w =
      let old_link = record old_found { slot = new } in
      let new_link = record new_found { slot = old } in
      let (outcome, w') = sync quick_link_swap (some old_link) (some new_link) l w in
      let list' = insert old new_link (insert new old_link (erase new (erase old l.list))) in
      (outcome, (if went_through outcome then record l { list = list' } else l), w')

  unfoldable pub swap : ℕ → ℕ → Links → W → LinkOutcome × Links × W
  unfolding get swap_found
  swap old new l w = elim (get old l) [
    | none ↦ ((false, some no_old_link), l, w)
    | some old_link ↦ elim (get new l) [
      | none ↦ ((false, some no_new_link), l, w)
      | some new_link ↦ swap_found old new old_link new_link l w
    ]
  ]

  -- `Remove`
  unfoldable pub remove : ℕ → Links → W → LinkOutcome × Links × W
  unfolding sync
  remove slot l w = elim (lookup slot l.list) [
    | none ↦ ((false, some no_link), l, w)
    | some link ↦
        let (outcome, w') = sync quick_link_remove (some link) none l w in
        (outcome, (if went_through outcome then record l { list = erase slot l.list } else l), w')
  ]

  -- The methods as one type of operations.
  pub data Operation : Type 0 where
    op_set : ℕ → Link → Operation
    op_swap : ℕ → ℕ → Operation
    op_remove : ℕ → Operation
    op_remove_skill : ℕ → Operation
    op_setup : Bool → ℤ → ℕ → Operation

  unfoldable pub perform : Operation → Links → W → Links × W
  unfolding set swap remove remove_skill_local setup
  perform (op_set slot link) l w = let (outcome, l', w') = set slot link l w in (l', w')
  perform (op_swap old new) l w = let (outcome, l', w') = swap old new l w in (l', w')
  perform (op_remove slot) l w = let (outcome, l', w') = remove slot l w in (l', w')
  perform (op_remove_skill skill) l w = (remove_skill_local skill l, w)
  perform (op_setup connected id server) l w = (setup connected id server l, w)

  unfoldable pub perform_all : List Operation → Links → W → Links × W
  unfolding perform
  perform_all [] l w = (l, w)
  perform_all (o ∷ os) l w = let (l', w') = perform o l w in perform_all os l' w'
