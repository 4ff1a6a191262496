-- ===== src/Identity/Cross/Unique.antt =====
-- The links that `resolve_cross_provider_identities` confirms.
use switch_ops.Prelude.{
  ◌+◌, ◌≡◌, ◌≢◌, ◌⊎◌, inl, inr, refl, sym, ap, ◌∙◌, subst, arith, Bool, true, false, List, [], ◌∷◌,
  if◌then◌else◌, Bool-cases, any, All, All-append, All-mono,
}
use switch_ops.Text.{Text, text_eq}
use switch_ops.Text.Sets.{has}
use switch_ops.Identity.{
  Kind, ProviderEntity, IdentityLink, IdentityConflict, LinkState, confirmed, candidate, rejected,
  conflicted, Tally, conclude, common, values_of, serial_kinds, mac_kinds, resolve_identity_pair,
  link, is_plausible, tally,
}
use switch_ops.Identity.Claims.{Reports, Disagree, resolve_identity_pair-confirmed_iff, has-first}
use switch_ops.Identity.Cross.{
  before, put_in_order, sort_from, in_order, strong_count, is_unique_in, unique_agreement, demoted,
  checked, kept, pair, inner, outer, resolve_cross_provider_identities,
}

-- A record is one of these.
abbrev pub In : ProviderEntity → List ProviderEntity → Type 0
In e [] = true ≡ false
In e (x ∷ xs) = (e ≡ x) ⊎ In e xs

-- The two records that a link is between, and a value of one family that both report, and no other
-- record of their providers.
pub record IsUnique (entities : List ProviderEntity) (l : IdentityLink) : Type 0 where
  pub left : ProviderEntity
  pub right : ProviderEntity
  pub left_in : In left entities
  pub right_in : In right entities
  pub resolved : (resolve_identity_pair left right).0 ≡ l
  pub left_id : l.left_entity_id ≡ left.id
  pub right_id : l.right_entity_id ≡ right.id
  pub providers : left.provider ≢ right.provider
  pub kinds : List Kind
  pub family : (kinds ≡ serial_kinds) ⊎ (kinds ≡ mac_kinds)
  pub value : Text
  pub left_reports : Reports kinds left value
  pub right_reports : Reports kinds right value
  pub left_once : strong_count left.provider kinds value entities ≡ 1
  pub right_once : strong_count right.provider kinds value entities ≡ 1
  pub serials : ¬ Disagree serial_kinds left right
  pub addresses : ¬ Disagree mac_kinds left right

abbrev pub IsEarned : List ProviderEntity → IdentityLink → Type 0
IsEarned entities l = l.state ≡ confirmed → IsUnique entities l

any-common :
    (test : Text → Bool) (xs ys : List Text)
    → any test (common xs ys) ≡ true
    → (v : Text) × (test v ≡ true) × (has v xs ≡ true) × (has v ys ≡ true)
unfolding common has
any-common test [] ys h = absurd (cc (h))
any-common test (x ∷ xs) ys h = elim (Bool-cases (has x ys)) [
  | inr e ↦ let (v, a, b, c) = any-common test xs ys (rw e at h) in (v, a, ground (arith, b), c)
  | inl e ↦ elim (Bool-cases (test x)) [
    | inl k ↦ (x, k, has-first x xs, e)
    | inr k ↦
        let (v, a, b, c) = any-common test xs ys (rw (e, k) at h) in (v, a, ground (arith, b), c)
  ]
]

link_ids :
    (left right : ProviderEntity) (l : IdentityLink)
    → (resolve_identity_pair left right).0 ≡ l
    → (l.left_entity_id ≡ left.id) × (l.right_entity_id ≡ right.id)
unfolding resolve_identity_pair conclude link
link_ids left right l h =
    subst (λ k. (k.left_entity_id ≡ left.id) × (k.right_entity_id ≡ right.id)) h
      (by_provider (text_eq left.provider right.provider))
  where
    t : Tally
    t = tally left right

    by_list :
        (b : Bool) (ds : List (Kind × List Text))
        → ((conclude left right t b ds).0.left_entity_id ≡ left.id)
          × ((conclude left right t b ds).0.right_entity_id ≡ right.id)
    by_list b [] = (refl, refl)
    by_list true (d ∷ ds) = (refl, refl)
    by_list false (d ∷ ds) = (refl, refl)

    by_provider :
        (b : Bool)
        → let k =
            (if b
              then (link left right rejected [], [])
              else conclude left right t (is_plausible t) t.disagreements).0 in
          (k.left_entity_id ≡ left.id) × (k.right_entity_id ≡ right.id)
    by_provider true = (refl, refl)
    by_provider false = by_list (is_plausible t) t.disagreements

module _ (all : List ProviderEntity) where
  unique_agreement-IsUnique :
      (left right : ProviderEntity) (l : IdentityLink)
      → In left all
      → In right all
      → (resolve_identity_pair left right).0 ≡ l
      → l.state ≡ confirmed
      → unique_agreement all left right ≡ true
      → IsUnique all l
  unfolding unique_agreement is_unique_in
  unique_agreement-IsUnique left right l in_left in_right e h u =
      let one = is_unique_in all left.provider right.provider in
      elim (Bool-cases (
        any (one serial_kinds)
          (common (values_of serial_kinds left) (values_of serial_kinds right)))) [
            | inl k ↦ found serial_kinds (inl refl) k
            | inr k ↦ found mac_kinds (inr refl) (rw k at u)
          ]
    where
      found :
          (kinds : List Kind)
          → (kinds ≡ serial_kinds) ⊎ (kinds ≡ mac_kinds)
          → any
              (is_unique_in all left.provider right.provider kinds)
              (common (values_of kinds left) (values_of kinds right))
            ≡ true
          → IsUnique all l
      found kinds family k =
          let (v, once, a, b) =
            any-common (is_unique_in all left.provider right.provider kinds) (values_of kinds left)
              (values_of kinds right) k in
          let (other, agree, serials, addresses) =
            (resolve_identity_pair-confirmed_iff left right).0 (ap (λ k. k.state) e ∙ h) in
          let (left_id, right_id) = link_ids left right l e in
          record {
            left = left;
            right = right;
            left_in = in_left;
            right_in = in_right;
            resolved = e;
            left_id = left_id;
            right_id = right_id;
            providers = other;
            kinds = kinds;
            family = family;
            value = v;
            left_reports = a;
            right_reports = b;
            left_once = ground (arith, once);
            right_once = ground (arith, once);
            serials = serials;
            addresses = addresses;
          }

  checked-IsEarned :
      (left right : ProviderEntity) (l : IdentityLink)
      → In left all
      → In right all
      → (resolve_identity_pair left right).0 ≡ l
      → (s : LinkState) → l.state ≡ s
      → IsEarned all (checked all left right l s)
  unfolding checked demoted
  checked-IsEarned left right l in_left in_right e confirmed h =
      by_test (unique_agreement all left right) refl
    where
      by_test :
          (b : Bool)
          → unique_agreement all left right ≡ b
          → IsEarned all (if b then l else demoted left right l)
      by_test true u = λ c. unique_agreement-IsUnique left right l in_left in_right e h u
      by_test false u = λ c. absurd (cc (c))
  checked-IsEarned left right l in_left in_right e candidate h = λ c. absurd (cc (h, c))
  checked-IsEarned left right l in_left in_right e rejected h = λ c. absurd (cc (h, c))
  checked-IsEarned left right l in_left in_right e conflicted h = λ c. absurd (cc (h, c))

  pair-IsEarned :
      (left right : ProviderEntity)
      → In left all
      → In right all
      → All (IsEarned all) (pair all left right).0
  unfolding pair kept
  pair-IsEarned left right in_left in_right = by_provider (text_eq left.provider right.provider)
    where
      l : IdentityLink
      l = (resolve_identity_pair left right).0

      after : IdentityLink
      after = checked all left right l l.state

      of_kept : (s : LinkState) → All (IsEarned all) (kept after s)
      of_kept rejected = tt
      of_kept confirmed = (checked-IsEarned left right l in_left in_right refl l.state refl, tt)
      of_kept candidate = (checked-IsEarned left right l in_left in_right refl l.state refl, tt)
      of_kept conflicted = (checked-IsEarned left right l in_left in_right refl l.state refl, tt)

      by_provider :
          (b : Bool)
          → All
              (IsEarned all)
              (if◌then◌else◌ {A = List IdentityLink × List IdentityConflict} b
                ([], [])
                (kept after after.state, (resolve_identity_pair left right).1)).0
      by_provider true = tt
      by_provider false = of_kept after.state

  inner-IsEarned :
      (left : ProviderEntity) (rest : List ProviderEntity)
      → In left all
      → ((e : ProviderEntity) → In e rest → In e all)
      → All (IsEarned all) (inner all left rest).0
  unfolding inner
  inner-IsEarned left [] in_left within = tt
  inner-IsEarned left (right ∷ rest) in_left within =
      All-append (IsEarned all) (pair all left right).0 (inner all left rest).0
        (pair-IsEarned left right in_left (within right (inl refl)))
        (inner-IsEarned left rest in_left (λ e h. within e (inr h)))

  outer-IsEarned :
      (es : List ProviderEntity)
      → ((e : ProviderEntity) → In e es → In e all)
      → All (IsEarned all) (outer all es).0
  unfolding outer
  outer-IsEarned [] within = tt
  outer-IsEarned (e ∷ es) within =
      All-append (IsEarned all) (inner all e es).0 (outer all es).0
        (inner-IsEarned e es (within e (inl refl)) (λ a h. within a (inr h)))
        (outer-IsEarned es (λ a h. within a (inr h)))

-- Sorting brings no record in.
In-put_in_order :
    (a e : ProviderEntity) (es : List ProviderEntity) → In a (put_in_order e es) → (a ≡ e) ⊎ In a es
unfolding put_in_order
In-put_in_order a e [] h = h
In-put_in_order a e (x ∷ xs) h = by_test (In-put_in_order a e xs) (before e x) h
  where
    by_test :
        (In a (put_in_order e xs) → (a ≡ e) ⊎ In a xs)
        → (b : Bool) → In a (if b then e ∷ x ∷ xs else x ∷ put_in_order e xs)
        → (a ≡ e) ⊎ In a (x ∷ xs)
    by_test later true h = h
    by_test later false (inl q) = inr (inl q)
    by_test later false (inr k) = elim (later k) [ inl q ↦ inl q | inr q ↦ inr (inr q) ]

In-sort_from :
    (a : ProviderEntity) (done es : List ProviderEntity)
    → In a (sort_from done es)
    → In a done ⊎ In a es
unfolding sort_from
In-sort_from a done [] h = inl h
In-sort_from a done (e ∷ es) h = elim (In-sort_from a (put_in_order e done) es h) [
  | inr k ↦ inr (inr k)
  | inl k ↦ elim (In-put_in_order a e done k) [ inl q ↦ inr (inl q) | inr q ↦ inl q ]
]

In-in_order : (a : ProviderEntity) (es : List ProviderEntity) → In a (in_order es) → In a es
unfolding in_order
In-in_order a es h = elim (In-sort_from a [] es h) [ inl q ↦ absurd (cc (q)) | inr q ↦ q ]

module _ (provider : Text) (kinds : List Kind) (value : Text) where
  count-put_in_order :
      (e : ProviderEntity) (es : List ProviderEntity)
      → strong_count provider kinds value (put_in_order e es)
        ≡ strong_count provider kinds value (e ∷ es)
  unfolding put_in_order strong_count
  count-put_in_order e [] = refl
  count-put_in_order e (x ∷ xs) = ground (arith, count-put_in_order e xs)

  count-sort_from :
      (done es : List ProviderEntity)
      → strong_count provider kinds value (sort_from done es)
        ≡ strong_count provider kinds value done + strong_count provider kinds value es
  unfolding sort_from strong_count
  count-sort_from done [] = omega arith
  count-sort_from done (e ∷ es) =
      ground (arith, count-sort_from (put_in_order e done) es, count-put_in_order e done)

  count-in_order :
      (es : List ProviderEntity)
      → strong_count provider kinds value (in_order es) ≡ strong_count provider kinds value es
  unfolding in_order strong_count
  count-in_order es = let h = count-sort_from [] es in omega (arith, h)

in_order-IsUnique :
    (entities : List ProviderEntity) (l : IdentityLink)
    → IsUnique (in_order entities) l
    → IsUnique entities l
in_order-IsUnique entities l u = record {
  left = u.left;
  right = u.right;
  left_in = In-in_order u.left entities u.left_in;
  right_in = In-in_order u.right entities u.right_in;
  resolved = u.resolved;
  left_id = u.left_id;
  right_id = u.right_id;
  providers = u.providers;
  kinds = u.kinds;
  family = u.family;
  value = u.value;
  left_reports = u.left_reports;
  right_reports = u.right_reports;
  left_once = sym (count-in_order u.left.provider u.kinds u.value entities) ∙ u.left_once;
  right_once = sym (count-in_order u.right.provider u.kinds u.value entities) ∙ u.right_once;
  serials = u.serials;
  addresses = u.addresses;
}

-- However many records there are, in whatever order: each link that is confirmed is the one of two of
-- these records, of different providers, that report one serial number or one global hardware address, which
-- no other record of either provider reports, and that disagree neither on serial numbers nor on
-- such addresses.
pub resolve_cross_provider_identities-IsUnique :
    (entities : List ProviderEntity)
    → All (IsEarned entities) (resolve_cross_provider_identities entities).0
unfolding resolve_cross_provider_identities in_order
resolve_cross_provider_identities-IsUnique entities =
    let all = in_order entities in
    All-mono (IsEarned all) (IsEarned entities)
      (λ l earned c. in_order-IsUnique entities l (earned c)) (outer all all).0
      (outer-IsEarned all all (λ e h. h))
