-- ===== src/Live/State.antt =====
-- `LiveState`: the interfaces, merged from the samples of the tiers. Watts are only copied: they are any
-- type with a zero.
pub mod Changes
pub mod Merge
use switch_ops.Prelude.{Bool, ◌&&◌, Option, none, some, List, [], ◌∷◌, ◌++◌, if◌then◌else◌}
use switch_ops.Text.{Text, codes, text_eq, lower, strip}
use switch_ops.Text.Dict.{Dict, lookup, insert}
use switch_ops.Models.{InterfaceStatus}
use switch_ops.Policy.Model.{PolicyState}
use switch_ops.Assurance.Snapshot.{oper_state}

pub record LiveInterface (W : Type 0) : Type 0 where
  pub port : Text
  pub description : Text
  pub status : Text
  pub admin_state : Text
  pub oper_state : Text
  pub speed : Text
  pub duplex : Text
  pub vlan : Text
  pub poe_state : Text
  pub poe_watts : W
  pub protected : Bool
  pub policy_state : PolicyState

pub record Freshness : Type 0 where
  pub fast : Option Text
  pub medium : Option Text
  pub slow : Option Text
  pub deep : Option Text

-- A port of a reading of power.
pub record PoeReading (W : Type 0) : Type 0 where
  pub interface : Text
  pub oper : Text
  pub power_watts : W

pub record LiveState (W : Type 0) : Type 0 where
  pub interfaces : Dict (LiveInterface W)
  pub poe_used_w : W
  pub poe_available_w : W
  pub freshness : Freshness

pub record InterfaceChange (W : Type 0) : Type 0 where
  pub port : Text
  pub before : LiveInterface W
  pub after : LiveInterface W

pub record PoeChange (W : Type 0) : Type 0 where
  pub port : Text
  pub before : Text
  pub after : Text
  pub watts : W

pub data Tier : Type 0 where
  fast_tier medium_tier slow_tier deep_tier : Tier

unfoldable pub admin_state : Text → Text
unfolding lower strip
admin_state status =
    if text_eq (lower (strip status)) (codes "disabled") then codes "down" else codes "up"

module _ {W : Type 0} where
  -- `comparable` of two interfaces is the same.
  unfoldable pub same_comparable : LiveInterface W → LiveInterface W → Bool
  same_comparable a b =
      text_eq a.status b.status
      && text_eq a.admin_state b.admin_state
      && text_eq a.oper_state b.oper_state
      && text_eq a.speed b.speed
      && text_eq a.duplex b.duplex
      && text_eq a.vlan b.vlan
      && text_eq a.description b.description

  -- A row of a fast sample.
  unfoldable pub incoming : W → InterfaceStatus → LiveInterface W
  unfolding admin_state oper_state
  incoming zero_watts item = record {
    port = item.port;
    description = item.name;
    status = item.status;
    admin_state = admin_state item.status;
    oper_state = oper_state item.status;
    speed = item.speed;
    duplex = item.duplex;
    vlan = item.vlan;
    poe_state = [];
    poe_watts = zero_watts;
    protected = item.protected;
    policy_state = item.policy_state;
  }

  -- The power of what is known stays.
  unfoldable pub merged : W → InterfaceStatus → Option (LiveInterface W) → LiveInterface W
  unfolding incoming
  merged zero_watts item none = incoming zero_watts item
  merged zero_watts item (some existing) = record (incoming zero_watts item) {
    poe_state = existing.poe_state;
    poe_watts = existing.poe_watts;
  }

  changed : W → InterfaceStatus → Option (LiveInterface W) → List (InterfaceChange W)
  unfolding same_comparable merged
  changed zero_watts item none = []
  changed zero_watts item (some existing) =
      let after = merged zero_watts item (some existing) in
      if same_comparable existing after
      then []
      else record { port = item.port; before = existing; after = after } ∷ []

  -- The loop of `apply_interfaces`.
  merge :
      W
      → List InterfaceStatus
      → List (InterfaceChange W)
      → Dict (LiveInterface W)
      → List (InterfaceChange W) × Dict (LiveInterface W)
  unfolding lookup insert merged changed
  merge zero_watts [] changes known = (changes, known)
  merge zero_watts (item ∷ rest) changes known =
      let existing = lookup item.port known in
      merge zero_watts rest (changes ++ changed zero_watts item existing)
        (insert item.port (merged zero_watts item existing) known)

  unfoldable pub apply_interfaces :
      W → Text → List InterfaceStatus → LiveState W → List (InterfaceChange W) × LiveState W
  unfolding merge
  apply_interfaces zero_watts at parsed s =
      let (changes, known) = merge zero_watts parsed [] s.interfaces in
      (
        changes,
        record s { interfaces = known; freshness = record (s.freshness) { fast = some at } },
      )

  powered : PoeReading W → LiveInterface W → LiveInterface W
  powered p i = record i { poe_state = p.oper; poe_watts = p.power_watts }

  -- A port that is not known is passed over.
  poe_changed : PoeReading W → Option (LiveInterface W) → List (PoeChange W)
  poe_changed p none = []
  poe_changed p (some i) =
      if text_eq i.poe_state p.oper
      then []
      else record {
        port = p.interface;
        before = i.poe_state;
        after = p.oper;
        watts = p.power_watts;
      }
        ∷ []

  put_power :
      PoeReading W → Option (LiveInterface W) → Dict (LiveInterface W) → Dict (LiveInterface W)
  unfolding insert powered
  put_power p none known = known
  put_power p (some i) known = insert p.interface (powered p i) known

  -- The loop of `apply_poe`.
  merge_poe :
      List (PoeReading W)
      → List (PoeChange W)
      → Dict (LiveInterface W)
      → List (PoeChange W) × Dict (LiveInterface W)
  unfolding lookup put_power poe_changed
  merge_poe [] changes known = (changes, known)
  merge_poe (p ∷ rest) changes known =
      let existing = lookup p.interface known in
      merge_poe rest (changes ++ poe_changed p existing) (put_power p existing known)

  unfoldable pub apply_poe :
      W → W → Text → List (PoeReading W) → LiveState W → List (PoeChange W) × LiveState W
  unfolding merge_poe
  apply_poe used available at ports s =
      let (changes, known) = merge_poe ports [] s.interfaces in
      (
        changes,
        record s {
          interfaces = known;
          poe_used_w = used;
          poe_available_w = available;
          freshness = record (s.freshness) { medium = some at };
        },
      )

  unfoldable pub mark_fresh : Tier → Text → LiveState W → LiveState W
  mark_fresh fast_tier at s = record s { freshness = record (s.freshness) { fast = some at } }
  mark_fresh medium_tier at s = record s { freshness = record (s.freshness) { medium = some at } }
  mark_fresh slow_tier at s = record s { freshness = record (s.freshness) { slow = some at } }
  mark_fresh deep_tier at s = record s { freshness = record (s.freshness) { deep = some at } }
