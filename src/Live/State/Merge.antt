-- ===== src/Live/State/Merge.antt =====
-- What a sample of each tier does to one interface.
use switch_ops.Prelude.{
  ◌≡◌, refl, sym, ap, ◌∙◌, Bool, true, false, Option, none, some, List, [], ◌∷◌, ◌++◌,
  if◌then◌else◌,
}
use switch_ops.Text.{Text, text_eq, text_eq_iff}
use switch_ops.Text.Dict.{Dict, lookup, insert, lookup-insert}
use switch_ops.Models.{InterfaceStatus}
use switch_ops.Live.State.{
  LiveInterface, PoeReading, LiveState, InterfaceChange, PoeChange, incoming, merged, merge,
  changed, apply_interfaces, powered, poe_changed, put_power, merge_poe, apply_poe,
}

-- The last row of a sample for a port.
abbrev pub last_row : Text → List InterfaceStatus → Option InterfaceStatus
last_row port [] = none
last_row port (item ∷ rest) = elim (last_row port rest) [
  | none ↦ if text_eq item.port port then some item else none
  | some later ↦ some later
]

module _ {W : Type 0} where
  abbrev pub last_reading : Text → List (PoeReading W) → Option (PoeReading W)
  last_reading port [] = none
  last_reading port (p ∷ rest) = elim (last_reading port rest) [
    | none ↦ if text_eq p.interface port then some p else none
    | some later ↦ some later
  ]

  -- An interface after a sample that has, or has not, a row for it.
  abbrev pub seen : W → Option InterfaceStatus → Option (LiveInterface W) → Option (LiveInterface W)
  seen zero_watts none known = known
  seen zero_watts (some item) known = some (merged zero_watts item known)

  abbrev pub fed : Option (PoeReading W) → Option (LiveInterface W) → Option (LiveInterface W)
  fed none known = known
  fed (some p) none = none
  fed (some p) (some i) = some (record i { poe_state = p.oper; poe_watts = p.power_watts })

  merged-merged :
      (z : W) (first second : InterfaceStatus) (known : Option (LiveInterface W))
      → merged z second (some (merged z first known)) ≡ merged z second known
  unfolding merged incoming
  merged-merged z first second none = refl
  merged-merged z first second (some i) = refl

  seen-seen :
      (z : W) (later : Option InterfaceStatus) (item : InterfaceStatus)
      (known : Option (LiveInterface W))
      → seen z later (some (merged z item known))
        ≡ seen z (elim later [ none ↦ some item | some l ↦ some l ]) known
  seen-seen z none item known = refl
  seen-seen z (some l) item known = ap some (merged-merged z item l known)

  lookup-merge :
      (z : W) (port : Text) (parsed : List InterfaceStatus) (changes : List (InterfaceChange W))
      (known : Dict (LiveInterface W))
      → lookup port (merge z parsed changes known).1
        ≡ seen z (last_row port parsed) (lookup port known)
  unfolding merge
  lookup-merge z port [] changes known = refl
  lookup-merge z port (item ∷ rest) changes known =
      let existing = lookup item.port known in
      lookup-merge z port rest (changes ++ changed z item existing)
        (insert item.port (merged z item existing) known)
      ∙ ap (λ o. seen z (last_row port rest) o)
          (lookup-insert item.port port (merged z item existing) known)
      ∙ by_port (text_eq item.port port) refl
    where
      by_port :
          (b : Bool)
          → text_eq item.port port ≡ b
          → seen z
              (last_row port rest)
              (if b then some (merged z item (lookup item.port known)) else lookup port known)
            ≡ seen z
                (elim (last_row port rest) [
                  | none ↦ if b then some item else none
                  | some later ↦ some later
                ])
                (lookup port known)
      by_port true e =
          ap (λ k. seen z (last_row port rest) (some (merged z item (lookup k known))))
            ((text_eq_iff item.port port).0 e)
          ∙ seen-seen z (last_row port rest) item (lookup port known)
      by_port false e = by_later (last_row port rest)
        where
          by_later :
              (later : Option InterfaceStatus)
              → seen z later (lookup port known)
                ≡ seen z (elim later [ none ↦ none | some l ↦ some l ]) (lookup port known)
          by_later none = refl
          by_later (some l) = refl

  lookup-put_power :
      (port : Text) (p : PoeReading W) (known : Dict (LiveInterface W))
      → lookup port (put_power p (lookup p.interface known) known)
        ≡ (if text_eq p.interface port then fed (some p) (lookup port known) else lookup port known)
  lookup-put_power port p known = by_found (lookup p.interface known) refl
    where
      by_found :
          (found : Option (LiveInterface W))
          → lookup p.interface known ≡ found
          → lookup port (put_power p found known) ≡ (
              if text_eq p.interface port
              then fed (some p) (lookup port known)
              else lookup port known)
      by_found none e = unfold put_power in by_test (text_eq p.interface port) refl
        where
          by_test :
              (b : Bool)
              → text_eq p.interface port ≡ b
              → lookup port known
                ≡ (if b then fed (some p) (lookup port known) else lookup port known)
          by_test true h =
              let absent : lookup port known ≡ none =
                ap (λ k. lookup k known) (sym ((text_eq_iff p.interface port).0 h)) ∙ e in
              absent ∙ sym (ap (λ o. fed (some p) o) absent)
          by_test false h = refl
      by_found (some i) e =
          unfold put_power powered in
          lookup-insert p.interface port (powered p i) known
          ∙ by_test (text_eq p.interface port) refl
        where
          by_test :
              (b : Bool)
              → text_eq p.interface port ≡ b
              → (if b then some (powered p i) else lookup port known)
                ≡ (if b then fed (some p) (lookup port known) else lookup port known)
          by_test true h =
              let here : lookup port known ≡ some i =
                ap (λ k. lookup k known) (sym ((text_eq_iff p.interface port).0 h)) ∙ e in
              unfold powered in sym (ap (λ o. fed (some p) o) here)
          by_test false h = refl

  fed-later :
      (later : Option (PoeReading W)) (p : PoeReading W) (known : Option (LiveInterface W))
      → fed later (fed (some p) known) ≡ fed (elim later [ none ↦ some p | some l ↦ some l ]) known
  fed-later none p known = refl
  fed-later (some l) p none = refl
  fed-later (some l) p (some i) = refl

  lookup-merge_poe :
      (port : Text) (ports : List (PoeReading W)) (changes : List (PoeChange W))
      (known : Dict (LiveInterface W))
      → lookup port (merge_poe ports changes known).1
        ≡ fed (last_reading port ports) (lookup port known)
  unfolding merge_poe
  lookup-merge_poe port [] changes known = refl
  lookup-merge_poe port (p ∷ rest) changes known =
      let existing = lookup p.interface known in
      lookup-merge_poe port rest (changes ++ poe_changed p existing) (put_power p existing known)
      ∙ ap (λ o. fed (last_reading port rest) o) (lookup-put_power port p known)
      ∙ by_port (text_eq p.interface port)
    where
      by_port :
          (b : Bool)
          → fed
              (last_reading port rest)
              (if b then fed (some p) (lookup port known) else lookup port known)
            ≡ fed
                (elim (last_reading port rest) [
                  | none ↦ if b then some p else none
                  | some later ↦ some later
                ])
                (lookup port known)
      by_port true = fed-later (last_reading port rest) p (lookup port known)
      by_port false = by_later (last_reading port rest)
        where
          by_later :
              (later : Option (PoeReading W))
              → fed later (lookup port known)
                ≡ fed (elim later [ none ↦ none | some l ↦ some l ]) (lookup port known)
          by_later none = refl
          by_later (some l) = refl

  -- A known interface is the same after a fast sample and a reading of power, in either order: neither
  -- tier loses what the other has brought.
  pub apply_poe-apply_interfaces :
      (z used available : W) (at later port : Text) (parsed : List InterfaceStatus)
      (ports : List (PoeReading W)) (s : LiveState W) (i : LiveInterface W)
      → lookup port s.interfaces ≡ some i
      → lookup port
          (apply_poe used available later ports (apply_interfaces z at parsed s).1).1.interfaces
        ≡ lookup port
            (apply_interfaces z at parsed (apply_poe used available later ports s).1).1.interfaces
  unfolding apply_poe apply_interfaces
  apply_poe-apply_interfaces z used available at later port parsed ports s i known =
      lookup-merge_poe port ports [] (merge z parsed [] s.interfaces).1
      ∙ ap (λ o. fed (last_reading port ports) o) (lookup-merge z port parsed [] s.interfaces)
      ∙ ap (λ o. fed (last_reading port ports) (seen z (last_row port parsed) o)) known
      ∙ either (last_row port parsed) (last_reading port ports)
      ∙ ap (λ o. seen z (last_row port parsed) (fed (last_reading port ports) o)) (sym known)
      ∙ ap (λ o. seen z (last_row port parsed) o)
          (sym (lookup-merge_poe port ports [] s.interfaces))
      ∙ sym (lookup-merge z port parsed [] (merge_poe ports [] s.interfaces).1)
    where
      either :
          (row : Option InterfaceStatus) (reading : Option (PoeReading W))
          → fed reading (seen z row (some i)) ≡ seen z row (fed reading (some i))
      either none none = refl
      either none (some p) = refl
      either (some item) none = refl
      either (some item) (some p) = unfold merged in refl
