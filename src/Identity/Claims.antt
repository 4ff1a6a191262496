-- ===== src/Identity/Claims.antt =====
-- The strong identifiers of two records, and the state that `resolve_identity_pair` gives them.
use switch_ops.Prelude.{
  ◌≡◌, ◌≢◌, ◌↔◌, ◌⊎◌, inl, inr, refl, sym, ap, ◌∙◌, subst, arith, Bool, true, false, ◌&&◌, List, [],
  ◌∷◌, ltb, if◌then◌else◌, Bool-cases,
}
use switch_ops.Text.{Text, text_eq, text_eq_iff, text_eq_refl}
use switch_ops.Text.Sets.{has}
use switch_ops.Identity.{
  Kind, serial, chassis_mac, ProviderEntity, confirmed, rejected, Finding, incomparable, shared,
  disjoint, judge, finding, common, values_of, provenance, Tally, empty_tally, mac_kinds,
  serial_kinds, add_strong, add_other, others, other_kinds, tally, is_plausible, is_supporting,
  state_of, conclude, resolve_identity_pair, link,
}

-- A record has a value of one of the kinds, among those that take part.
abbrev pub Reports : List Kind → ProviderEntity → Text → Type 0
Reports kinds e value = has value (values_of kinds e) ≡ true

-- The two share a value of the kinds.
abbrev pub Agree : List Kind → ProviderEntity → ProviderEntity → Type 0
Agree kinds left right = (value : Text) × Reports kinds left value × Reports kinds right value

-- Both have values of the kinds, and share none.
abbrev pub Disagree : List Kind → ProviderEntity → ProviderEntity → Type 0
Disagree kinds left right =
    ((value : Text) × Reports kinds left value)
    × ((value : Text) × Reports kinds right value)
    × ¬ Agree kinds left right

pub has-first : (x : Text) (xs : List Text) → has x (x ∷ xs) ≡ true
unfolding has
has-first x xs = rw (text_eq_refl x) refl

common-has : (v : Text) (xs ys : List Text) → has v (common xs ys) ≡ (has v xs && has v ys)
unfolding common has
common-has v [] ys = refl
common-has v (x ∷ xs) ys = ground (arith, common-has v xs ys, text_eq_iff x v)

-- What a finding says of the two lists of values.
abbrev Judged : List Text → List Text → Finding → Type 0
Judged xs ys incomparable = (xs ≡ []) ⊎ (ys ≡ [])
Judged xs ys shared = (v : Text) × (has v xs ≡ true) × (has v ys ≡ true)
Judged xs ys disjoint =
    ((v : Text) × (has v xs ≡ true))
    × ((v : Text) × (has v ys ≡ true))
    × ¬ ((v : Text) × (has v xs ≡ true) × (has v ys ≡ true))

judge-Judged : (xs ys : List Text) → Judged xs ys (judge xs ys (common xs ys))
unfolding judge has
judge-Judged [] ys = inl refl
judge-Judged (x ∷ xs) [] = inr refl
judge-Judged (x ∷ xs) (y ∷ ys) = by_common (common (x ∷ xs) (y ∷ ys)) refl
  where
    by_common :
        (both : List Text)
        → common (x ∷ xs) (y ∷ ys) ≡ both
        → Judged (x ∷ xs) (y ∷ ys) (judge (x ∷ xs) (y ∷ ys) both)
    by_common [] e = (
      (x, has-first x xs),
      (y, has-first y ys),
      (λ (v, a, b).
          let h = common-has v (x ∷ xs) (y ∷ ys) in
          let none_has : false ≡ (has v (x ∷ xs) && has v (y ∷ ys)) =
            subst (λ l. has v l ≡ (has v (x ∷ xs) && has v (y ∷ ys))) e h in
          let both_have : has v (x ∷ xs) && has v (y ∷ ys) ≡ true = rw (a, b) refl in
          absurd (cc (none_has, both_have))),
    )
    by_common (v ∷ both) e =
        let h : has v (common (x ∷ xs) (y ∷ ys)) ≡ true = rw e (has-first v both) in
        let k : has v (x ∷ xs) && has v (y ∷ ys) ≡ true =
          sym (common-has v (x ∷ xs) (y ∷ ys)) ∙ h in
        (v, ground (arith, k), ground (arith, k))

-- What a finding says of the two records.
abbrev Says : List Kind → ProviderEntity → ProviderEntity → Finding → Type 0
Says kinds left right incomparable = ¬ Agree kinds left right × ¬ Disagree kinds left right
Says kinds left right shared = Agree kinds left right × ¬ Disagree kinds left right
Says kinds left right disjoint = ¬ Agree kinds left right × Disagree kinds left right

finding-Says :
    (kinds : List Kind) (left right : ProviderEntity)
    → Says kinds left right (finding kinds left right)
unfolding finding has
finding-Says kinds left right = says (judge xs ys (common xs ys)) (judge-Judged xs ys)
  where
    xs : List Text
    xs = values_of kinds left

    ys : List Text
    ys = values_of kinds right

    nothing : (v : Text) (zs : List Text) → zs ≡ [] → has v zs ≡ true → ⊥
    nothing v zs e h = let k : has v [] ≡ true = subst (λ l. has v l ≡ true) e h in absurd (cc (k))

    says : (f : Finding) → Judged xs ys f → Says kinds left right f
    says incomparable (inl e) =
        ((λ (v, a, b). nothing v xs e a), (λ (a, b, c). nothing a.0 xs e a.1))
    says incomparable (inr e) =
        ((λ (v, a, b). nothing v ys e b), (λ (a, b, c). nothing b.0 ys e b.1))
    says shared h = (h, (λ (a, b, c). c h))
    says disjoint (a, b, c) = (c, (a, b, c))

-- The other kinds change neither of the two.
add_other-keeps :
    (kind : Kind) (refs : List Text) (f : Finding) (t : Tally)
    → ((add_other kind refs f t).strong_agreements ≡ t.strong_agreements)
      × ((add_other kind refs f t).disagreements ≡ t.disagreements)
unfolding add_other
add_other-keeps kind refs incomparable t = (refl, refl)
add_other-keeps kind refs disjoint t = (refl, refl)
add_other-keeps kind refs shared t = elim (Bool-cases (is_supporting kind)) [
  | inl e ↦ rw e (refl, refl)
  | inr e ↦ rw e (refl, refl)
]

others-keeps :
    (kinds : List Kind) (left right : ProviderEntity) (t : Tally)
    → ((others kinds left right t).strong_agreements ≡ t.strong_agreements)
      × ((others kinds left right t).disagreements ≡ t.disagreements)
unfolding others
others-keeps [] left right t = (refl, refl)
others-keeps (kind ∷ kinds) left right t =
    let here = kind ∷ [] in
    let next = add_other kind (provenance here left right) (finding here left right) t in
    let (a, b) = add_other-keeps kind (provenance here left right) (finding here left right) t in
    let (c, d) = others-keeps kinds left right next in (c ∙ a, d ∙ b)

-- The first loop, with what it found.
core : List Text → List Text → Finding → Finding → Tally
unfolding add_strong
core serial_refs mac_refs f g =
    add_strong chassis_mac mac_refs g (add_strong serial serial_refs f empty_tally)

abbrev Clear : Tally → Type 0
Clear t = (ltb 0 t.strong_agreements ≡ true) × (t.disagreements ≡ [])

abbrev One : Type 0 → Type 0 → Finding → Type 0
One A D incomparable = ¬ A × ¬ D
One A D shared = A × ¬ D
One A D disjoint = ¬ A × D

module _ {A B D E : Type 0} where
  core_iff :
      (p q : List Text) (f g : Finding)
      → One A D f
      → One B E g
      → (Clear (core p q f g) ↔ ((A ⊎ B) × ¬ D × ¬ E))
  unfolding core add_strong
  core_iff p q incomparable incomparable (na, nd) (nb, ne) = (
    (λ (h, k). absurd (cc (h))),
    (λ (h, k, l). elim h [ inl a ↦ absurd (na a) | inr b ↦ absurd (nb b) ]),
  )
  core_iff p q incomparable shared (na, nd) (b, ne) = ((λ c. (inr b, nd, ne)), (λ c. (refl, refl)))
  core_iff p q shared incomparable (a, nd) (nb, ne) = ((λ c. (inl a, nd, ne)), (λ c. (refl, refl)))
  core_iff p q shared shared (a, nd) (b, ne) = ((λ c. (inl a, nd, ne)), (λ c. (refl, refl)))
  core_iff p q disjoint g (na, d) r = ((λ c. absurd (never g c)), (λ (h, k, l). absurd (k d)))
    where
      never : (g : Finding) → Clear (core p q disjoint g) → ⊥
      never incomparable (h, k) = absurd (cc (k))
      never shared (h, k) = absurd (cc (k))
      never disjoint (h, k) = absurd (cc (k))
  core_iff p q f disjoint r (nb, e) = ((λ c. absurd (never f c)), (λ (h, k, l). absurd (l e)))
    where
      never : (f : Finding) → Clear (core p q f disjoint) → ⊥
      never incomparable (h, k) = absurd (cc (k))
      never shared (h, k) = absurd (cc (k))
      never disjoint (h, k) = absurd (cc (k))

conclude_iff :
    (left right : ProviderEntity) (t : Tally)
    → (((conclude left right t (is_plausible t) t.disagreements).0.state ≡ confirmed) ↔ Clear t)
unfolding conclude state_of is_plausible
conclude_iff left right t = by_list (is_plausible t) refl t.disagreements
  where
    by_list :
        (b : Bool)
        → is_plausible t ≡ b
        → (ds : List (Kind × List Text))
        → (((conclude left right t b ds).0.state ≡ confirmed)
            ↔ ((ltb 0 t.strong_agreements ≡ true) × (ds ≡ [])))
    by_list b e [] =
        ((λ h. (by_count (Bool-cases (ltb 0 t.strong_agreements)) h, refl)), (λ (h, k). rw h refl))
      where
        by_count :
            (ltb 0 t.strong_agreements ≡ true) ⊎ (ltb 0 t.strong_agreements ≡ false)
            → state_of t ≡ confirmed
            → ltb 0 t.strong_agreements ≡ true
        by_count c h = ground (arith, c, h)
    by_list true e (d ∷ ds) = ((λ h. absurd (cc (h))), (λ (h, k). absurd (cc (k))))
    by_list false e (d ∷ ds) = ((λ h. absurd (ground (arith, e, h))), (λ (h, k). absurd (cc (k))))

tally-Clear_iff :
    (left right : ProviderEntity)
    → (Clear (tally left right) ↔ (
        (Agree serial_kinds left right ⊎ Agree mac_kinds left right)
        × ¬ Disagree serial_kinds left right
        × ¬ Disagree mac_kinds left right))
unfolding tally core
tally-Clear_iff left right =
    let p = provenance serial_kinds left right in
    let q = provenance mac_kinds left right in
    let f = finding serial_kinds left right in
    let g = finding mac_kinds left right in
    let (a, b) = others-keeps other_kinds left right (core p q f g) in
    let (to, from) =
      core_iff p q f g (as_one serial_kinds f (finding-Says serial_kinds left right))
        (as_one mac_kinds g (finding-Says mac_kinds left right)) in
    (
      (λ (h, k). to (ap (ltb 0) (sym a) ∙ h, sym b ∙ k)),
      (λ claim. let (h, k) = from claim in (ap (ltb 0) a ∙ h, b ∙ k)),
    )
  where
    as_one :
        (kinds : List Kind) (f : Finding)
        → Says kinds left right f
        → One (Agree kinds left right) (Disagree kinds left right) f
    as_one kinds incomparable h = h
    as_one kinds shared h = h
    as_one kinds disjoint h = h

-- Two records are taken for one device exactly when they are of different providers, share a serial
-- number or a global hardware address, and do not both have serial numbers, or both such addresses,
-- of which they share none.
pub resolve_identity_pair-confirmed_iff :
    (left right : ProviderEntity)
    → (((resolve_identity_pair left right).0.state ≡ confirmed) ↔ (
        (left.provider ≢ right.provider)
        × (Agree serial_kinds left right ⊎ Agree mac_kinds left right)
        × ¬ Disagree serial_kinds left right
        × ¬ Disagree mac_kinds left right))
unfolding resolve_identity_pair link
resolve_identity_pair-confirmed_iff left right =
    by_provider (text_eq left.provider right.provider) refl
  where
    other : text_eq left.provider right.provider ≡ false → left.provider ≢ right.provider
    other e same =
        let equal : text_eq left.provider right.provider ≡ true =
          (text_eq_iff left.provider right.provider).1 same in
        absurd (cc (e, equal))

    by_provider :
        (b : Bool)
        → text_eq left.provider right.provider ≡ b
        → (((if b
                then (link left right rejected [], [])
                else conclude left right
                    (tally left right)
                    (is_plausible (tally left right))
                    (tally left right).disagreements).0.state
              ≡ confirmed)
            ↔ ((left.provider ≢ right.provider)
                × (Agree serial_kinds left right ⊎ Agree mac_kinds left right)
                × ¬ Disagree serial_kinds left right
                × ¬ Disagree mac_kinds left right))
    by_provider true e = (
      (λ h. absurd (cc (h))),
      (λ (n, one, s, m). absurd (n ((text_eq_iff left.provider right.provider).0 e))),
    )
    by_provider false e =
        let (to_clear, from_clear) = conclude_iff left right (tally left right) in
        let (to_claim, from_claim) = tally-Clear_iff left right in
        (
          (λ h. let (one, s, m) = to_claim (to_clear h) in (other e, one, s, m)),
          (λ (n, one, s, m). from_clear (from_claim (one, s, m))),
        )
