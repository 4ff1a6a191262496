-- ===== src/Examples/Lives.antt =====
-- A client that is slow to read, samples of two ports, and a collector that is asked for too much.
use switch_ops.Prelude.{ℕ, ◌+◌, ◌≡◌, refl, arith, true, false, some, none, List, [], ◌∷◌, ok, ltb}
use switch_ops.Text.{Text, codes, is_space}
use switch_ops.Text.Dict.{lookup}
use switch_ops.Models.{InterfaceStatus}
use switch_ops.Policy.Model.{unmanaged}
use switch_ops.Session.Connection
use switch_ops.Live.Hub.{offer_all, subscribe, unsubscribe, publish}
use switch_ops.Live.Hub.Latest.{latest, offer_all-latest}
use switch_ops.Live.State.{LiveInterface, LiveState, PoeReading, apply_interfaces, apply_poe}
use switch_ops.Live.State.Merge.{apply_poe-apply_interfaces}
use switch_ops.Live.Collector
use switch_ops.Live.Collector.{
  TierConfig, Works, Event, round_event, configure_event, pause_event, resume_event, take_event,
  collect_event,
}

abbrev messages : List ℕ
messages = 1 ∷ 2 ∷ 3 ∷ []

offer_all-latest_example :
    offer_all messages (record { maxsize = 2; items = [] })
    ≡ record { maxsize = 2; items = latest 2 messages }
offer_all-latest_example = offer_all-latest 2 messages (omega arith)

two_latest : latest 2 messages ≡ 2 ∷ 3 ∷ []
two_latest = refl

published :
    publish (ltb 0) (unsubscribe 8 (subscribe 1 9 (subscribe 1 8 (subscribe 0 7 [])))) ≡ 9 ∷ []
unfolding publish subscribe unsubscribe
published = refl

abbrev port_row : Text → Text → InterfaceStatus
port_row port status = record {
  port = port;
  name = [];
  status = status;
  vlan = codes "1";
  duplex = codes "a-full";
  speed = codes "a-100";
  type_name = [];
  protected = false;
  policy_state = unmanaged;
}

abbrev nothing_known : LiveState ℕ
nothing_known = record {
  interfaces = [];
  poe_used_w = 0;
  poe_available_w = 0;
  freshness = record { fast = none; medium = none; slow = none; deep = none };
}

abbrev first_state : LiveState ℕ
first_state =
    (apply_interfaces 0 (codes "t0") (port_row (codes "Fa0/1") (codes "connected") ∷ [])
      nothing_known).1

abbrev later_rows : List InterfaceStatus
later_rows =
    port_row (codes "Fa0/1") (codes "disabled") ∷ port_row (codes "Fa0/2") (codes "notconnect") ∷ []

abbrev readings : List (PoeReading ℕ)
readings = record { interface = codes "Fa0/1"; oper = codes "on"; power_watts = 6 } ∷ []

abbrev known_port : LiveInterface ℕ
known_port = record {
  port = codes "Fa0/1";
  description = [];
  status = codes "connected";
  admin_state = codes "up";
  oper_state = codes "up";
  speed = codes "a-100";
  duplex = codes "a-full";
  vlan = codes "1";
  poe_state = [];
  poe_watts = 0;
  protected = false;
  policy_state = unmanaged;
}

port_is_known : lookup (codes "Fa0/1") first_state.interfaces ≡ some known_port
unfolding lookup apply_interfaces is_space
port_is_known = refl

apply_poe-apply_interfaces_example :
    lookup
      (codes "Fa0/1")
      (apply_poe 6 30
        (codes "t2")
        readings
        (apply_interfaces 0 (codes "t1") later_rows first_state).1).1.interfaces
    ≡ lookup
        (codes "Fa0/1")
        (apply_interfaces 0
          (codes "t1")
          later_rows
          (apply_poe 6 30 (codes "t2") readings first_state).1).1.interfaces
apply_poe-apply_interfaces_example =
    apply_poe-apply_interfaces 0 6 30 (codes "t1") (codes "t2") (codes "Fa0/1") later_rows readings
      first_state known_port port_is_known

abbrev hurried : TierConfig
hurried = record { fast = 1; medium = 1; slow = 1; history = 1 }

abbrev counting : Works ℕ ℕ
counting = record {
  fast = λ w. (ok w, w + 1);
  medium = λ slot w. (ok w, w + 1);
  slow = λ w. (ok w, w + 1);
}

abbrev day : List Event
day =
    round_event 0 false
    ∷ configure_event hurried
    ∷ round_event 250 false
    ∷ take_event
    ∷ pause_event
    ∷ round_event 3000 false
    ∷ resume_event
    ∷ collect_event
    ∷ round_event 5000 true
    ∷ []
