-- ===== src/Telemetry/Quiet.antt =====
-- An observation that repeats the one before.
use switch_ops.Prelude.{
  ℕ, ◌≡◌, refl, sym, ap, ◌∙◌, arith, Bool, true, false, ◌&&◌, ◌||◌, not, some, List, [], ◌∷◌,
  if◌then◌else◌,
}
use switch_ops.Text.{Text, codes, text_eq, text_eq_refl, lower, contains}
use switch_ops.Text.Sets.{has, distinct, without, minus_set}
use switch_ops.Models.{InterfaceStatus}
use switch_ops.Assurance.Snapshot.{admin_state}
use switch_ops.Health.Signals.{notice, attention, unchanged}
use switch_ops.Telemetry.{
  Row, speed_changed, duplex_changed, before_after, NetworkEvent, InterfaceDelta,
  calculate_counter_delta, normalize, poe_active, derive_delta, column, derive_events, link_events,
  speed_events, duplex_events, vlan_events, error_events, poe_events, learned_events, one, when,
  is_just, if_given, if_some, put_text, sort_texts, row_of,
}

has-put_text : (t u : Text) (xs : List Text) → has t (put_text u xs) ≡ has t (u ∷ xs)
unfolding put_text has
has-put_text t u [] = refl
has-put_text t u (x ∷ xs) = ground (arith, has-put_text t u xs)

has-sort_texts : (t : Text) (xs : List Text) → has t (sort_texts xs) ≡ has t xs
unfolding sort_texts has
has-sort_texts t [] = refl
has-sort_texts t (x ∷ xs) =
    has-put_text t x (sort_texts xs) ∙ ap (λ b. text_eq x t || b) (has-sort_texts t xs)

-- A list whose texts another has leaves nothing over.
abbrev Within : List Text → List Text → Type 0
Within xs ys = (t : Text) → has t xs ≡ true → has t ys ≡ true

has-without : (t u : Text) (xs : List Text) → has t (without u xs) ≡ true → has t xs ≡ true
unfolding without has
has-without t u [] h = h
has-without t u (x ∷ xs) h = ground (arith, h, has-without t u xs)

has-distinct : (t : Text) (xs : List Text) → has t (distinct xs) ≡ true → has t xs ≡ true
unfolding distinct has
has-distinct t [] h = h
has-distinct t (x ∷ xs) h = ground (arith, h, has-without t x (distinct xs), has-distinct t xs)

minus_set-none : (xs ys : List Text) → Within xs ys → minus_set xs ys ≡ []
unfolding minus_set has
minus_set-none [] ys h = refl
minus_set-none (x ∷ xs) ys h =
    rw (h x (rw (text_eq_refl x) refl)) (minus_set-none xs ys (λ t k. h t (ground (arith, k))))

learned_events-none : (port : Text) (xs : List Text) → learned_events port (sort_texts xs) xs ≡ []
unfolding learned_events when
learned_events-none port xs =
    rw
      (
        minus_set-none (distinct xs) (sort_texts xs)
            (λ t h. has-sort_texts t xs ∙ has-distinct t xs h),
        minus_set-none (distinct (sort_texts xs)) xs
            (λ t h. sym (has-sort_texts t xs) ∙ has-distinct t (sort_texts xs) h),
      )
      refl

when-off : (a b c : Bool) (events : List NetworkEvent) → c ≡ false → when (a && b && c) events ≡ []
unfolding when
when-off true true true events h = absurd (cc (h))
when-off true true false events h = refl
when-off true false c events h = refl
when-off false b c events h = refl

if_given-same :
    (s : Text) → if_given (some s) (λ b. not (text_eq (normalize b) (normalize s))) ≡ false
unfolding if_given
if_given-same [] = refl
if_given-same (c ∷ s) = rw (text_eq_refl (normalize (c ∷ s))) refl

poe_same : (b : Bool) → (if b then not b else b) ≡ false
poe_same true = refl
poe_same false = refl

module _ (port : Text) (current : InterfaceStatus) (d : InterfaceDelta) where
  link_events-none :
      is_just d.admin_before d.admin_after ≡ true
      → is_just d.status_before d.status_after ≡ true
      → link_events port current d ≡ []
  unfolding link_events
  link_events-none h k = rw (h, k) refl

  speed_events-none : d.speed_before ≡ some d.speed_after → speed_events port d ≡ []
  unfolding speed_events
  speed_events-none h =
      when-off (is_just d.status_before (codes "connected"))
        (text_eq d.status_after (codes "connected"))
        (if_given d.speed_before (λ b. not (text_eq (normalize b) (normalize d.speed_after))))
        (one port speed_changed notice (before_after d.speed_before d.speed_after))
        (rw h (if_given-same d.speed_after))

  duplex_events-none : d.duplex_before ≡ some d.duplex_after → duplex_events port d ≡ []
  unfolding duplex_events
  duplex_events-none h =
      when-off (is_just d.status_before (codes "connected"))
        (text_eq d.status_after (codes "connected"))
        (if_given d.duplex_before (λ b. not (text_eq (normalize b) (normalize d.duplex_after))))
        (one port duplex_changed
          (if contains (codes "half") (lower d.duplex_after) then attention else notice)
          (before_after d.duplex_before d.duplex_after))
        (rw h (if_given-same d.duplex_after))

  vlan_events-none : d.vlan_before ≡ some d.vlan_after → vlan_events port d ≡ []
  unfolding vlan_events if_some when
  vlan_events-none h = rw (h, text_eq_refl d.vlan_after) refl

  poe_events-none : d.poe_before ≡ some d.poe_after → poe_events port d ≡ []
  unfolding poe_events if_some when
  poe_events-none h = rw (h, poe_same (poe_active d.poe_after)) refl

derive_events-none :
    (current : InterfaceStatus) (previous : Row) (d : InterfaceDelta) (addresses : List Text)
    → link_events current.port current d ≡ []
    → speed_events current.port d ≡ []
    → duplex_events current.port d ≡ []
    → vlan_events current.port d ≡ []
    → error_events current.port d.error_delta d.counter_state ≡ []
    → poe_events current.port d ≡ []
    → learned_events current.port previous.learned_devices addresses ≡ []
    → derive_events current previous d addresses ≡ []
unfolding derive_events
derive_events-none current previous d addresses a b c e f g h = rw (a, b, c, e, f, g, h) refl

counter_same : (n : ℕ) → calculate_counter_delta (some n) n ≡ (some 0, unchanged)
unfolding calculate_counter_delta
counter_same n = ground arith

error_events-none :
    (port : Text) (n : ℕ)
    → error_events port
        (calculate_counter_delta (some n) n).0
        (calculate_counter_delta (some n) n).1
      ≡ []
unfolding error_events
error_events-none port n = rw (counter_same n) refl

-- When an interface is observed again just as it was when it was last recorded, with the same power,
-- error counter and learned addresses, there is no event.
pub derive_events-repeated :
    (current : InterfaceStatus) (poe_state : Text) (errors : ℕ) (addresses : List Text)
    → let row = row_of current poe_state errors addresses in
      derive_events current row (derive_delta current (some row) errors poe_state) addresses ≡ []
unfolding row_of derive_delta column is_just
derive_events-repeated current poe_state errors addresses =
    let row = row_of current poe_state errors addresses in
    let d = derive_delta current (some row) errors poe_state in
    derive_events-none current row d addresses
      (link_events-none current.port current d (text_eq_refl (admin_state current.status))
        (text_eq_refl current.status))
      (speed_events-none current.port current d refl)
      (duplex_events-none current.port current d refl)
      (vlan_events-none current.port current d refl) (error_events-none current.port errors)
      (poe_events-none current.port current d refl) (learned_events-none current.port addresses)
