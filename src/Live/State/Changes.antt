-- ===== src/Live/State/Changes.antt =====
-- The changes that `apply_interfaces` reports.
use switch_ops.Prelude.{
  ◌≡◌, refl, sym, ◌∙◌, subst, Bool, true, false, Option, none, some, List, [], ◌∷◌, ◌++◌, arith,
  if◌then◌else◌, All, All-append,
}
use switch_ops.Text.{Text, text_eq, text_eq_iff, text_eq_refl}
use switch_ops.Text.Dict.{Dict, lookup, insert, lookup-insert}
use switch_ops.Models.{InterfaceStatus}
use switch_ops.Live.State.{
  LiveInterface, LiveState, InterfaceChange, merged, merge, changed, apply_interfaces,
  same_comparable,
}

module _ {W : Type 0} where
  same_refl : (a : LiveInterface W) → same_comparable a a ≡ true
  unfolding same_comparable
  same_refl a =
      rw
        (
          text_eq_refl a.status,
          text_eq_refl a.admin_state,
          text_eq_refl a.oper_state,
          text_eq_refl a.speed,
          text_eq_refl a.duplex,
          text_eq_refl a.vlan,
          text_eq_refl a.description,
        )
        refl

  same_trans :
      (a b c : LiveInterface W)
      → same_comparable a b ≡ true
      → same_comparable b c ≡ true
      → same_comparable a c ≡ true
  unfolding same_comparable
  same_trans a b c h k = ground (
    arith,
    h,
    k,
    text_eq-trans a.status b.status c.status,
    text_eq-trans a.admin_state b.admin_state c.admin_state,
    text_eq-trans a.oper_state b.oper_state c.oper_state,
    text_eq-trans a.speed b.speed c.speed,
    text_eq-trans a.duplex b.duplex c.duplex,
    text_eq-trans a.vlan b.vlan c.vlan,
    text_eq-trans a.description b.description c.description,
  )
    where
      text_eq-trans : (s t u : Text) → text_eq s t ≡ true → text_eq t u ≡ true → text_eq s u ≡ true
      text_eq-trans s t u h k = (text_eq_iff s u).1 ((text_eq_iff s t).0 h ∙ (text_eq_iff t u).0 k)

  -- A report of a change is of one.
  abbrev pub IsReal : InterfaceChange W → Type 0
  IsReal c = same_comparable c.before c.after ≡ false

  changed-IsReal :
      (z : W) (item : InterfaceStatus) (known : Option (LiveInterface W))
      → All IsReal (changed z item known)
  unfolding changed
  changed-IsReal z item none = tt
  changed-IsReal z item (some i) = by_test (same_comparable i (merged z item (some i))) refl
    where
      by_test :
          (b : Bool)
          → same_comparable i (merged z item (some i)) ≡ b
          → All IsReal (
              if b
              then []
              else record { port = item.port; before = i; after = merged z item (some i) } ∷ [])
      by_test true h = tt
      by_test false h = (h, tt)

  merge-IsReal :
      (z : W) (parsed : List InterfaceStatus) (changes : List (InterfaceChange W))
      (known : Dict (LiveInterface W))
      → All IsReal changes
      → All IsReal (merge z parsed changes known).0
  unfolding merge
  merge-IsReal z [] changes known h = h
  merge-IsReal z (item ∷ rest) changes known h =
      let existing = lookup item.port known in
      merge-IsReal z rest (changes ++ changed z item existing)
        (insert item.port (merged z item existing) known)
        (All-append IsReal changes (changed z item existing) h (changed-IsReal z item existing))

  -- What is known of a port stays, as far as it is compared.
  abbrev Stays : Option (LiveInterface W) → Option (LiveInterface W) → Type 0
  Stays none after = Unit
  Stays (some i) none = (true ≡ false)
  Stays (some i) (some j) = same_comparable i j ≡ true

  Stays-refl : (o : Option (LiveInterface W)) → Stays o o
  Stays-refl none = tt
  Stays-refl (some i) = same_refl i

  Stays-trans : (a b c : Option (LiveInterface W)) → Stays a b → Stays b c → Stays a c
  Stays-trans none b c h k = tt
  Stays-trans (some i) none c h k = absurd (cc)
  Stays-trans (some i) (some j) none h k = k
  Stays-trans (some i) (some j) (some l) h k = same_trans i j l h k

  merge-grows :
      (z : W) (parsed : List InterfaceStatus) (changes : List (InterfaceChange W))
      (known : Dict (LiveInterface W))
      → (merge z parsed changes known).0 ≡ []
      → changes ≡ []
  unfolding merge
  merge-grows z [] changes known h = h
  merge-grows z (item ∷ rest) [] known h = refl
  merge-grows z (item ∷ rest) (c ∷ cs) known h =
      let existing = lookup item.port known in
      absurd (
        cc (
          merge-grows z rest (c ∷ cs ++ changed z item existing)
            (insert item.port (merged z item existing) known) h))

  changed-Stays :
      (z : W) (item : InterfaceStatus) (known : Option (LiveInterface W))
      → changed z item known ≡ []
      → Stays known (some (merged z item known))
  unfolding changed
  changed-Stays z item none h = tt
  changed-Stays z item (some i) h = by_test (same_comparable i (merged z item (some i))) refl h
    where
      by_test :
          (b : Bool)
          → same_comparable i (merged z item (some i)) ≡ b
          → if◌then◌else◌ {A = List (InterfaceChange W)} b []
              (record { port = item.port; before = i; after = merged z item (some i) } ∷ [])
            ≡ []
          → same_comparable i (merged z item (some i)) ≡ true
      by_test true e h = e
      by_test false e h = absurd (cc)

  merge-Stays :
      (z : W) (port : Text) (parsed : List InterfaceStatus) (known : Dict (LiveInterface W))
      → (merge z parsed [] known).0 ≡ []
      → Stays (lookup port known) (lookup port (merge z parsed [] known).1)
  unfolding merge
  merge-Stays z port [] known h = Stays-refl (lookup port known)
  merge-Stays z port (item ∷ rest) known h =
      let existing = lookup item.port known in
      let next = insert item.port (merged z item existing) known in
      let silent : changed z item existing ≡ [] =
        merge-grows z rest (changed z item existing) next h in
      let rest_silent : (merge z rest [] next).0 ≡ [] =
        subst (λ l. (merge z rest l next).0 ≡ []) silent h in
      subst (λ l. Stays (lookup port known) (lookup port (merge z rest l next).1)) (sym silent)
        (Stays-trans (lookup port known) (lookup port next) (lookup port (merge z rest [] next).1)
          (subst (λ o. Stays (lookup port known) o)
            (sym (lookup-insert item.port port (merged z item existing) known))
            (one (text_eq item.port port) refl silent))
          (merge-Stays z port rest next rest_silent))
    where
      one :
          (b : Bool)
          → text_eq item.port port ≡ b
          → changed z item (lookup item.port known) ≡ []
          → Stays
              (lookup port known)
              (if b then some (merged z item (lookup item.port known)) else lookup port known)
      one true e silent =
          subst (λ k. Stays (lookup k known) (some (merged z item (lookup item.port known))))
            ((text_eq_iff item.port port).0 e)
            (changed-Stays z item (lookup item.port known) silent)
      one false e silent = Stays-refl (lookup port known)

  -- Every change that a fast sample reports is one in the fields that are compared; and if it reports
  -- none, then each known interface is still known and the same in these fields.
  pub apply_interfaces-IsReal :
      (z : W) (at : Text) (parsed : List InterfaceStatus) (s : LiveState W)
      → let (changes, after) = apply_interfaces z at parsed s in
        All IsReal changes
        × (changes ≡ []
            → (port : Text) (i : LiveInterface W) → lookup port s.interfaces ≡ some i
            → (j : LiveInterface W) × (lookup port after.interfaces ≡ some j)
              × (same_comparable i j ≡ true))
  unfolding apply_interfaces
  apply_interfaces-IsReal z at parsed s = (
    merge-IsReal z parsed [] s.interfaces tt,
    (λ silent port i known. from i (lookup port (merge z parsed [] s.interfaces).1) (
        subst (λ o. Stays o (lookup port (merge z parsed [] s.interfaces).1)) known
          (merge-Stays z port parsed s.interfaces silent))),
  )
    where
      from :
          (i : LiveInterface W) (o : Option (LiveInterface W))
          → Stays (some i) o
          → (j : LiveInterface W) × (o ≡ some j) × (same_comparable i j ≡ true)
      from i none h = absurd (cc)
      from i (some j) h = (j, refl, h)
