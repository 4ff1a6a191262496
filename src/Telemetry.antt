-- ===== src/Telemetry.antt =====
-- backend/app/telemetry_store.py: the row that is stored for an interface, and the events that the next
-- observation gives. The rows of the database are passed in; titles, details and times are left out.
pub mod Counters
pub mod Quiet
use switch_ops.Prelude.{
  ℕ, ◌+◌, ◌-◌, Bool, true, false, ◌&&◌, ◌||◌, not, Option, none, some, List, [], ◌∷◌, ◌++◌, any,
  leb, ltb, ◌==◌, if◌then◌else◌, length, drop,
}
use switch_ops.Text.{Text, codes, text_eq, lower, strip, contains, starts_with}
use switch_ops.Text.Sets.{has, text_lt, distinct, minus_set}
use switch_ops.Models.{InterfaceStatus}
use switch_ops.Health.Signals.{
  Severity, healthy, notice, attention, critical, CounterState, first, unchanged, increased, reset,
  wrapped,
}
use switch_ops.Assurance.Snapshot.{admin_state}

abbrev pub counter_max : ℕ
counter_max = 4294967295

-- int(counter_max * 0.9) and int(counter_max * 0.1)
abbrev pub near_end : ℕ
near_end = 3865470565

abbrev pub near_start : ℕ
near_start = 429496729

-- With the default `counter_max`.
unfoldable pub calculate_counter_delta : Option ℕ → ℕ → Option ℕ × CounterState
calculate_counter_delta none current = (none, first)
calculate_counter_delta (some previous) current =
    if current == previous
    then (some 0, unchanged)
    else if ltb previous current
    then (some (current - previous), increased)
    else if leb near_end previous && leb current near_start
    then (some (counter_max - previous + 1 + current), wrapped)
    else (none, reset)

-- `_normalize_speed` and `_normalize_duplex`
normalize : Text → Text
unfolding lower strip
normalize value =
    let text = lower (strip value) in if starts_with (codes "a-") text then drop 2 text else text

-- `_poe_active`
poe_active : Text → Bool
unfolding lower strip has
poe_active value = not (
    has (lower (strip value))
      ([] ∷ codes "off" ∷ codes "n/a" ∷ codes "not-supported" ∷ codes "unknown" ∷ []))

-- The columns of `interface_observations` that are read again.
pub record Row : Type 0 where
  pub status : Text
  pub admin_state : Text
  pub speed : Text
  pub duplex : Text
  pub vlan : Text
  pub poe_state : Text
  pub total_errors : ℕ
  pub learned_devices : List Text

pub record InterfaceDelta : Type 0 where
  pub port : Text
  pub previous_total_errors : Option ℕ
  pub current_total_errors : ℕ
  pub error_delta : Option ℕ
  pub counter_state : CounterState
  pub status_before : Option Text
  pub status_after : Text
  pub admin_before : Option Text
  pub admin_after : Text
  pub speed_before : Option Text
  pub speed_after : Text
  pub duplex_before : Option Text
  pub duplex_after : Text
  pub vlan_before : Option Text
  pub vlan_after : Text
  pub poe_before : Option Text
  pub poe_after : Text

column : {A : Type 0} → (Row → A) → Option Row → Option A
column f none = none
column f (some row) = some (f row)

-- `_derive_delta`
unfoldable pub derive_delta : InterfaceStatus → Option Row → ℕ → Text → InterfaceDelta
unfolding calculate_counter_delta column admin_state
derive_delta current previous error_total poe_state =
    let previous_errors = column (λ r. r.total_errors) previous in
    let (error_delta, counter_state) = calculate_counter_delta previous_errors error_total in
    record {
      port = current.port;
      previous_total_errors = previous_errors;
      current_total_errors = error_total;
      error_delta = error_delta;
      counter_state = counter_state;
      status_before = column (λ r. r.status) previous;
      status_after = current.status;
      admin_before = column (λ r. r.admin_state) previous;
      admin_after = admin_state current.status;
      speed_before = column (λ r. r.speed) previous;
      speed_after = current.speed;
      duplex_before = column (λ r. r.duplex) previous;
      duplex_after = current.duplex;
      vlan_before = column (λ r. r.vlan) previous;
      vlan_after = current.vlan;
      poe_before = column (λ r. r.poe_state) previous;
      poe_after = poe_state;
    }

pub data EventType : Type 0 where
  administrative_state_changed interface_link_up interface_link_down speed_changed : EventType
  duplex_changed vlan_changed interface_errors_increased interface_counter_reset : EventType
  poe_state_changed learned_addresses_changed : EventType

pub data Metadata : Type 0 where
  nothing : Metadata
  before_after : Option Text → Text → Metadata
  link_at : Text → Text → Metadata
  grown : ℕ → CounterState → Metadata
  learned : ℕ → ℕ → ℕ → Metadata

pub record NetworkEvent : Type 0 where
  pub interface : Text
  pub event_type : EventType
  pub severity : Severity
  pub metadata : Metadata

-- a == b, where a may be None
is_just : Option Text → Text → Bool
is_just none b = false
is_just (some a) b = text_eq a b

-- A test of a value that is not None and not the empty text.
if_given : Option Text → (Text → Bool) → Bool
if_given none test = false
if_given (some []) test = false
if_given (some (c ∷ s)) test = test (c ∷ s)

-- A test of a value that is not None.
if_some : Option Text → (Text → Bool) → Bool
if_some none test = false
if_some (some a) test = test a

when : Bool → List NetworkEvent → List NetworkEvent
when false events = []
when true events = events

is_uplink : Text → Bool
unfolding lower contains
is_uplink name =
    any (λ word. contains word (lower name))
      (codes "uplink" ∷ codes "router" ∷ codes "gateway" ∷ [])

module _ (port : Text) where
  one : EventType → Severity → Metadata → List NetworkEvent
  one event_type severity metadata =
      record { interface = port; event_type = event_type; severity = severity; metadata = metadata }
      ∷ []

  link_events : InterfaceStatus → InterfaceDelta → List NetworkEvent
  unfolding one is_just is_uplink
  link_events current d =
      if not (is_just d.admin_before d.admin_after)
      then one administrative_state_changed notice (before_after d.admin_before d.admin_after)
      else if is_just d.status_before d.status_after
      then []
      else if text_eq d.status_after (codes "connected")
      then one interface_link_up healthy (link_at current.speed current.duplex)
      else if is_just d.status_before (codes "connected")
      then one interface_link_down (if is_uplink current.name then critical else notice)
          (before_after d.status_before d.status_after)
      else []

  speed_events : InterfaceDelta → List NetworkEvent
  unfolding one when is_just if_given normalize
  speed_events d =
      when
        (is_just d.status_before (codes "connected")
          && text_eq d.status_after (codes "connected")
          && if_given d.speed_before (λ b. not (text_eq (normalize b) (normalize d.speed_after))))
        (one speed_changed notice (before_after d.speed_before d.speed_after))

  duplex_events : InterfaceDelta → List NetworkEvent
  unfolding one when is_just if_given normalize lower contains
  duplex_events d =
      when
        (is_just d.status_before (codes "connected")
          && text_eq d.status_after (codes "connected")
          && if_given d.duplex_before (λ b. not (text_eq (normalize b) (normalize d.duplex_after))))
        (one duplex_changed
          (if contains (codes "half") (lower d.duplex_after) then attention else notice)
          (before_after d.duplex_before d.duplex_after))

  vlan_events : InterfaceDelta → List NetworkEvent
  unfolding one when if_some
  vlan_events d =
      when (if_some d.vlan_before (λ b. not (text_eq b d.vlan_after)))
        (one vlan_changed notice (before_after d.vlan_before d.vlan_after))

  grown_events : Option ℕ → CounterState → List NetworkEvent
  unfolding one when
  grown_events none state = []
  grown_events (some amount) state = when (ltb 0 amount) (
      one interface_errors_increased
        (if leb 100 amount then critical else if leb 10 amount then attention else notice)
        (grown amount state))

  error_events : Option ℕ → CounterState → List NetworkEvent
  unfolding one grown_events
  error_events amount first = []
  error_events amount unchanged = []
  error_events amount increased = grown_events amount increased
  error_events amount wrapped = grown_events amount wrapped
  error_events amount reset = one interface_counter_reset notice nothing

  poe_events : InterfaceDelta → List NetworkEvent
  unfolding one when if_some poe_active
  poe_events d =
      let active = poe_active d.poe_after in
      when (if_some d.poe_before (λ b. if poe_active b then not active else active)) (
        one poe_state_changed (if active then healthy else notice)
          (before_after d.poe_before d.poe_after))

  learned_events : List Text → List Text → List NetworkEvent
  unfolding one when distinct minus_set
  learned_events previous current =
      let appeared = length (minus_set (distinct current) previous) in
      let departed = length (minus_set (distinct previous) current) in
      when (ltb 0 appeared || ltb 0 departed) (
        one learned_addresses_changed (if ltb 0 appeared && departed == 0 then healthy else notice)
          (learned appeared departed (length (distinct current))))

-- `_derive_events`
unfoldable pub derive_events :
    InterfaceStatus → Row → InterfaceDelta → List Text → List NetworkEvent
unfolding link_events speed_events duplex_events vlan_events error_events poe_events learned_events
derive_events current previous d learned_devices =
    link_events current.port current d
    ++ speed_events current.port d
    ++ duplex_events current.port d
    ++ vlan_events current.port d
    ++ error_events current.port d.error_delta d.counter_state
    ++ poe_events current.port d
    ++ learned_events current.port previous.learned_devices learned_devices

-- sorted(xs)
put_text : Text → List Text → List Text
unfolding text_lt
put_text t [] = t ∷ []
put_text t (x ∷ xs) = let further = put_text t xs in if text_lt t x then t ∷ x ∷ xs else x ∷ further

sort_texts : List Text → List Text
unfolding put_text
sort_texts [] = []
sort_texts (x ∷ xs) = put_text x (sort_texts xs)

-- What `record_snapshot` stores of an interface.
unfoldable pub row_of : InterfaceStatus → Text → ℕ → List Text → Row
unfolding admin_state sort_texts
row_of current poe_state total_errors learned_devices = record {
  status = current.status;
  admin_state = admin_state current.status;
  speed = current.speed;
  duplex = current.duplex;
  vlan = current.vlan;
  poe_state = poe_state;
  total_errors = total_errors;
  learned_devices = sort_texts learned_devices;
}
