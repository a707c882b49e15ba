-- ===== src/Inventory/Sync.antt =====
-- share/models/inventory/rpc.go and the method `sync` of inventory.go and equipment.go: requests to
-- the master server. The server behind `rpcHandler.Call` is a parameter with a state of its own.
use freya.Common.Signed.{ℤ, pos, eq_ℤ}
use freya.Common.{ℕ, Bool, true, false, ◌&&◌, not, Option, none, some, List, ◌==◌, if◌then◌else◌}
use freya.Inventory.Item.{Item}

-- The names of the calls, share/rpc/const.go.
pub data Command : Type 0 where
  add_item stack_item remove_item swap_item move_item consume_item : Command
  equip_item un_equip_item swap_equipment_item move_equipment_item : Command

-- Each request begins with the server and the character.
pub data Request : Type 0 where
  item_request : ℕ → ℤ → Command → Item → Option Item → Request
  purchase_request : ℕ → ℤ → Item → ℕ → Request
  sell_request : ℕ → ℤ → List Item → ℕ → Request
  learn_request : ℕ → ℤ → ℕ → ℕ → ℕ × ℕ × ℕ → Request
  enchant_request : ℕ → ℤ → Item → ℕ → List Item → Request
  force_core_request : ℕ → ℤ → Item → Item → Option Item → Option Item → List Item → Request
  attach_request : ℕ → ℤ → Item → Item → ℕ → Item → Request

-- `Call` returns an error, or fills the response: `Result`, and `Alz` where there is one.
pub data Reply : Type 0 where
  failed : Reply
  answered : Bool → ℕ → Reply

pub data Error : Type 0 where
  not_ready rpc_failed slot_occupied item_changed listed_twice no_skill_book not_stackable : Error
  no_such_item already_exists no_target invalid_enchant target_is_core core_listed_twice : Error
  no_core invalid_force_target no_material material_duplicated material_changed same_slots : Error
  invalid_target no_source identity_changed rollback_failed : Error

-- What most methods return: `(bool, error)`.
abbrev pub Outcome : Type 0
Outcome = Bool × Option Error

abbrev pub is_nil : Option Error → Bool
is_nil none = true
is_nil (some e) = false

-- The fields by which `Inventory` and `Equipment` reach the server.
pub record Link : Type 0 where
  pub connected : Bool  -- rpcHandler != nil
  pub character : ℤ  -- int32
  pub server_id : ℕ  -- byte

-- The master server: a state and its answer to each request.
abbrev pub Call : Type 0 → Type 0
Call W = Request → W → Reply × W

abbrev pub outcome_of : Reply → Outcome
outcome_of failed = (false, some rpc_failed)
outcome_of (answered result alz) = (result, none)

module _ {W : Type 0} (call : Call W) where
  -- `sync`
  unfoldable pub sync : Link → Command → Item → Option Item → W → Outcome × W
  sync l cmd old new w =
      let (reply, w') = call (item_request l.server_id l.character cmd old new) w in
      if eq_ℤ l.character (pos 0) && l.server_id == 0
      then ((true, none), w)
      else if not l.connected
      then ((false, some not_ready), w)
      else (outcome_of reply, w')
