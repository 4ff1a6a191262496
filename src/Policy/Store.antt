-- ===== src/Policy/Store.antt =====
-- `InterfacePolicyStore`: each method takes what the file holds; one that writes returns what the
-- file holds afterwards. A method that raises has written nothing. `digest` stands for the hex
-- digest of SHA-256 over the UTF-8 of a text.
pub mod Authority
use switch_ops.Prelude.{
  Bool, true, false, ◌&&◌, not, Option, none, some, List, [], ◌∷◌, if◌then◌else◌, Result, ok, err,
  command_not_allowed, protected_interface, write_actions_disabled, no_device, unknown_state,
  invalid_policy, unmanaged as not_managed, ◌>>=◌,
}
use switch_ops.Text.{Text, lower, strip}
use switch_ops.Text.Dict.{Dict, lookup, insert, remove}
use switch_ops.Registry.Names.{normalize_interface, assert_interface_writable}
use switch_ops.Models.{InterfaceStatus}
use switch_ops.Policy.Model.{
  PolicyState, protected, operable, unmanaged, parse_state, Interfaces, Policy, Stored,
}
use switch_ops.Policy.File.{load, written}

-- `not host` of an optional text.
abbrev pub given : Option Text → Option Text
given (some (c ∷ s)) = some (c ∷ s)
given _ = none

-- `{}` where the device is not there.
interfaces_of : Text → Dict Interfaces → Interfaces
unfolding lookup
interfaces_of key devices = elim (lookup key devices) [ none ↦ [] | some d ↦ d ]

stored_state : Text → Interfaces → PolicyState
unfolding lookup
stored_state canonical d = elim (lookup canonical d) [ none ↦ unmanaged | some s ↦ s ]

unfoldable pub find_state : Policy → Text → Text → PolicyState
unfolding interfaces_of stored_state
find_state p key canonical = stored_state canonical (interfaces_of key p.devices)

change_device : Policy → Text → (Interfaces → Interfaces) → Policy
unfolding interfaces_of insert
change_device p key change = record p {
  devices = insert key (change (interfaces_of key p.devices)) p.devices;
}

unfoldable pub controlled_writes_enabled : Stored → Bool
unfolding load
controlled_writes_enabled stored =
    let (p, refused) = load stored in not refused && p.controlled_writes_enabled

unfoldable pub set_controlled_writes : Bool → Stored → Result Stored
unfolding load written
set_controlled_writes enabled stored =
    let (p, refused) = load stored in
    if refused
    then err (command_not_allowed invalid_policy)
    else ok (written (record p { controlled_writes_enabled = enabled }))

-- The write of `set_state`: UNMANAGED is the absence of an entry.
put_state : Text → PolicyState → Interfaces → Interfaces
unfolding insert remove
put_state canonical protected d = insert canonical protected d
put_state canonical operable d = insert canonical operable d
put_state canonical unmanaged d = remove canonical d

check_grant : PolicyState → Text → Result (Unit {0})
unfolding assert_interface_writable
check_grant operable canonical = do _ ← assert_interface_writable canonical; ok tt
check_grant protected canonical = ok tt
check_grant unmanaged canonical = ok tt

known_state : Text → Result PolicyState
unfolding parse_state
known_state text = elim (parse_state text) [
  | none ↦ err (command_not_allowed unknown_state)
  | some s ↦ ok s
]

module _ (digest : Text → Text) where
  unfoldable pub device_key : Text → Text
  unfolding lower strip
  device_key host = digest (lower (strip host))

  unfoldable pub state_for : Option Text → Text → Stored → Result PolicyState
  unfolding normalize_interface load find_state device_key
  state_for host interface stored = elim (given host) [
    | none ↦ ok unmanaged
    | some h ↦ (do
      canonical ← normalize_interface interface
      let found = load stored
      ok (if found.1 then unmanaged else find_state found.0 (device_key h) canonical))
  ]

  write_state : Text → Text → PolicyState → Stored → Result Stored
  unfolding load written change_device put_state device_key
  write_state host canonical state stored =
      let (p, refused) = load stored in
      if refused
      then err (command_not_allowed invalid_policy)
      else ok (written (change_device p (device_key host) (put_state canonical state)))

  unfoldable pub set_state : Text → Text → Text → Stored → Result Stored
  unfolding normalize_interface known_state check_grant write_state
  set_state [] interface state stored = err (command_not_allowed no_device)
  set_state (c ∷ h) interface state stored = do
    canonical ← normalize_interface interface
    parsed ← known_state state
    _ ← check_grant parsed canonical
    write_state (c ∷ h) canonical parsed stored

  protect : Text → Text → Stored → Stored
  unfolding load written change_device put_state find_state device_key
  protect host canonical stored =
      let (p, refused) = load stored in
      if refused then stored else elim (find_state p (device_key host) canonical) [
        | protected ↦ stored
        | _ ↦ written (change_device p (device_key host) (put_state canonical protected))
      ]

  unfoldable pub ensure_protected : Option Text → Option Text → Stored → Result Stored
  unfolding normalize_interface protect
  ensure_protected host interface stored = elim (given host) [
    | none ↦ ok stored
    | some h ↦ elim (given interface) [
      | none ↦ ok stored
      | some name ↦ (do canonical ← normalize_interface name; ok (protect h canonical stored))
    ]
  ]

  annotate_one : Option Text → Stored → InterfaceStatus → Result InterfaceStatus
  unfolding state_for
  annotate_one host stored item = do
    state ← state_for host item.port stored
    ok (record item {
      policy_state = state;
      protected = elim state [ protected ↦ true | _ ↦ false ];
    })

  unfoldable pub annotate :
      Option Text → Stored → List InterfaceStatus → Result (List InterfaceStatus)
  unfolding annotate_one
  annotate host stored [] = ok []
  annotate host stored (item ∷ rest) = do
    first ← annotate_one host stored item
    others ← annotate host stored rest
    ok (first ∷ others)

  -- The decision of `assert_operable` on the state that is found.
  operable_only : PolicyState → Text → Result Text
  operable_only protected canonical = err protected_interface
  operable_only operable canonical = ok canonical
  operable_only unmanaged canonical = err (command_not_allowed not_managed)

  unfoldable pub assert_operable : Option Text → Text → Stored → Result Text
  unfolding assert_interface_writable load find_state operable_only device_key
  assert_operable host interface stored = do
    canonical ← assert_interface_writable interface
    elim (given host) [
      | none ↦ err (command_not_allowed no_device)
      | some h ↦
          let found = load stored in
          if found.1
          then err (command_not_allowed invalid_policy)
          else operable_only (find_state found.0 (device_key h) canonical) canonical
    ]

  -- The guard's entry; the lock that it holds keeps the file as it is for the transaction.
  unfoldable pub operation_guard : Option Text → Text → Stored → Result Text
  unfolding controlled_writes_enabled assert_operable
  operation_guard host interface stored =
      if controlled_writes_enabled stored
      then assert_operable host interface stored
      else err write_actions_disabled
