-- ===== src/Policy/Model.antt =====
-- The data of the policy: states, the validated policy, and the JSON that the file may hold.
use switch_ops.Prelude.{
  ℕ, Bool, false, ◌&&◌, ◌||◌, Option, none, some, [], leb, ◌==◌, length, all, if◌then◌else◌,
}
use switch_ops.Text.{Text, codes, text_eq}
use switch_ops.Text.Dict.{Dict}

pub data PolicyState : Type 0 where
  protected operable unmanaged : PolicyState

unfoldable pub state_text : PolicyState → Text
state_text protected = codes "PROTECTED"
state_text operable = codes "OPERABLE"
state_text unmanaged = codes "UNMANAGED"

-- `state in _STATES`, with the member found.
unfoldable pub parse_state : Text → Option PolicyState
parse_state t =
    if text_eq t (codes "PROTECTED")
    then some protected
    else if text_eq t (codes "OPERABLE")
    then some operable
    else if text_eq t (codes "UNMANAGED")
    then some unmanaged
    else none

-- The interfaces of one device.
abbrev pub Interfaces : Type 0
Interfaces = Dict PolicyState

pub record Policy : Type 0 where
  pub controlled_writes_enabled : Bool
  pub devices : Dict Interfaces

-- `_empty`
abbrev pub empty_policy : Policy
empty_policy = record { controlled_writes_enabled = false; devices = [] }

-- A JSON value; `number n` is one whose value is the natural number n, `other_number` any other.
mutual
  pub data Json : Type 0 where
    null other_number : Json
    boolean : Bool → Json
    number : ℕ → Json
    string : Text → Json
    array : Items → Json
    object : Fields → Json

  pub data Items : Type 0 where
    nil : Items
    item : Json → Items → Items

  pub data Fields : Type 0 where
    end : Fields
    field : Text → Json → Fields → Fields

-- What stands at the path of the policy: nothing, what cannot be read or parsed, or JSON.
pub data Stored : Type 0 where
  missing unreadable : Stored
  parsed : Json → Stored

-- 64 hexadecimal digits.
unfoldable pub is_device_key : Text → Bool
is_device_key s =
    length s == 64 && all (λ c. (leb b'0' c && leb c b'9') || (leb b'a' c && leb c b'f')) s
