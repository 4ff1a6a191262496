-- ===== src/Identity/Cross.antt =====
-- `resolve_cross_provider_identities`: all pairs of records of different providers.
pub mod Unique
use switch_ops.Prelude.{ℕ, ◌+◌, Bool, ◌&&◌, ◌||◌, List, [], ◌∷◌, ◌++◌, ◌==◌, if◌then◌else◌, any}
use switch_ops.Text.{Text, text_eq}
use switch_ops.Text.Sets.{has, text_lt}
use switch_ops.Identity.{
  Kind, serial, chassis_mac, ProviderEntity, IdentityLink, IdentityConflict, LinkState, confirmed,
  candidate, rejected, conflicted, support, strong, serial_kinds, mac_kinds, values_of, common,
  resolve_identity_pair,
}

before : ProviderEntity → ProviderEntity → Bool
unfolding text_lt
before a b = text_lt a.provider b.provider || (text_eq a.provider b.provider && text_lt a.id b.id)

-- Behind the equal ones: `sorted` is stable.
put_in_order : ProviderEntity → List ProviderEntity → List ProviderEntity
unfolding before
put_in_order e [] = e ∷ []
put_in_order e (x ∷ xs) =
    let further = put_in_order e xs in if before e x then e ∷ x ∷ xs else x ∷ further

sort_from : List ProviderEntity → List ProviderEntity → List ProviderEntity
unfolding put_in_order
sort_from done [] = done
sort_from done (e ∷ es) = sort_from (put_in_order e done) es

unfoldable pub in_order : List ProviderEntity → List ProviderEntity
unfolding sort_from
in_order = sort_from []

-- `strong_counts`: how many records of a provider report a value of a family.
unfoldable pub strong_count : Text → List Kind → Text → List ProviderEntity → ℕ
unfolding has values_of
strong_count provider kinds value [] = 0
strong_count provider kinds value (e ∷ es) =
    let rest = strong_count provider kinds value es in
    if text_eq e.provider provider && has value (values_of kinds e) then rest + 1 else rest

unfoldable pub is_unique_in : List ProviderEntity → Text → Text → List Kind → Text → Bool
unfolding strong_count
is_unique_in all left right kinds value =
    strong_count left kinds value all == 1 && strong_count right kinds value all == 1

unfoldable pub unique_agreement : List ProviderEntity → ProviderEntity → ProviderEntity → Bool
unfolding is_unique_in common values_of
unique_agreement all left right =
    any (is_unique_in all left.provider right.provider serial_kinds)
      (common (values_of serial_kinds left) (values_of serial_kinds right))
    || any (is_unique_in all left.provider right.provider mac_kinds)
        (common (values_of mac_kinds left) (values_of mac_kinds right))

shared_field : ProviderEntity → ProviderEntity → Kind
unfolding common values_of
shared_field left right = elim (common (values_of mac_kinds left) (values_of mac_kinds right)) [
  | [] ↦ serial
  | v ∷ vs ↦ chassis_mac
]

demoted : ProviderEntity → ProviderEntity → IdentityLink → IdentityLink
unfolding shared_field
demoted left right l = record l {
  state = candidate;
  reasons =
      l.reasons
      ++ record {
        kind = support;
        field = shared_field left right;
        strength = strong;
        provenance_refs = [];
      }
        ∷ [];
}

-- What is done with the link of a pair, by its state.
checked :
    List ProviderEntity → ProviderEntity → ProviderEntity → IdentityLink → LinkState → IdentityLink
unfolding unique_agreement demoted
checked all left right l confirmed =
    if unique_agreement all left right then l else demoted left right l
checked all left right l candidate = l
checked all left right l rejected = l
checked all left right l conflicted = l

kept : IdentityLink → LinkState → List IdentityLink
kept l rejected = []
kept l confirmed = l ∷ []
kept l candidate = l ∷ []
kept l conflicted = l ∷ []

-- A pair of the two loops.
pair :
    List ProviderEntity
    → ProviderEntity
    → ProviderEntity
    → List IdentityLink × List IdentityConflict
unfolding resolve_identity_pair checked kept
pair all left right =
    let (l, conflicts) = resolve_identity_pair left right in
    let after = checked all left right l l.state in
    if text_eq left.provider right.provider then ([], []) else (kept after after.state, conflicts)

inner :
    List ProviderEntity
    → ProviderEntity
    → List ProviderEntity
    → List IdentityLink × List IdentityConflict
unfolding pair
inner all left [] = ([], [])
inner all left (right ∷ rest) =
    let (links, conflicts) = pair all left right in
    let (more, further) = inner all left rest in (links ++ more, conflicts ++ further)

outer : List ProviderEntity → List ProviderEntity → List IdentityLink × List IdentityConflict
unfolding inner
outer all [] = ([], [])
outer all (left ∷ rest) =
    let (links, conflicts) = inner all left rest in
    let (more, further) = outer all rest in (links ++ more, conflicts ++ further)

unfoldable pub resolve_cross_provider_identities :
    List ProviderEntity → List IdentityLink × List IdentityConflict
unfolding outer in_order
resolve_cross_provider_identities entities =
    let ordered = in_order entities in outer ordered ordered
