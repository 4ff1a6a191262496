-- ===== src/Models.antt =====
-- backend/app/models.py: the parts of the API's models that several components read.
use switch_ops.Prelude.{Bool}
use switch_ops.Text.{Text}
use switch_ops.Policy.Model.{PolicyState}

-- `InterfaceStatus`, without the notes, which the modelled code never reads.
pub record InterfaceStatus : Type 0 where
  pub port : Text
  pub name : Text
  pub status : Text
  pub vlan : Text
  pub duplex : Text
  pub speed : Text
  pub type_name : Text
  pub protected : Bool
  pub policy_state : PolicyState
