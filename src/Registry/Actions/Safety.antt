-- ===== src/Registry/Actions/Safety.antt =====
-- The characters of the descriptions and of the lines that the registry builds.
use switch_ops.Prelude.{
  ℕ, ◌≤◌, ◌<◌, ◌≡◌, refl, sym, subst, Bool, true, Option, none, some, List, [], ◌∷◌, map, arith,
  if◌then◌else◌, length, any, All, All-append, All-mono, All-of_all, all_of_All, Bool-cases, inl,
  inr, Option-cases, ok, err, command_not_allowed, not_physical, >>=-eq-ok, ◌>>=◌,
  missing_interface, missing_value,
}
use switch_ops.Text.{
  Text, codes, is_decimal, is_space, str, lstrip, rstrip, strip, strip_idem, contains, replace,
  join, All-str, All-replace,
}
use switch_ops.Text.Dict.{lookup, All-lookup}
use switch_ops.Registry.Names.{
  normalize_interface, is_physical_interface, assert_interface_writable,
}
use switch_ops.Registry.Names.Canonical.{
  Medium, fast, gigabit, ten_gigabit, twenty_five_gigabit, forty_gigabit, hundred_gigabit,
  long_name, IsCanonical, vlan, two, three, normalize_interface-IsCanonical,
}
use switch_ops.Registry.Actions.{
  description_ok, check_description, sanitize_description, safe_write_actions, WriteAction,
  iface_mark, value_mark, resolve_interface, resolve_value, substitute, resolve_line, resolve_lines,
  build_from, build_write_action,
}

abbrev pub IsPrintable : ℕ → Type 0
IsPrintable c = (32 ≤ c) × (c < 127)

decimal-IsPrintable : (c : ℕ) → is_decimal c ≡ true → IsPrintable c
unfolding is_decimal
decimal-IsPrintable c h = ground arith

strs-IsPrintable : (ns : List ℕ) → All IsPrintable (join b'/' (map str ns))
unfolding join
strs-IsPrintable [] = tt
strs-IsPrintable (n ∷ []) = All-mono _ _ decimal-IsPrintable (str n) (All-str n)
strs-IsPrintable (n ∷ k ∷ ns) =
    All-append IsPrintable (str n) _ (All-mono _ _ decimal-IsPrintable (str n) (All-str n))
      (omega arith, strs-IsPrintable (k ∷ ns))

long_name-IsPrintable : (m : Medium) → All IsPrintable (long_name m)
long_name-IsPrintable fast = omega arith
long_name-IsPrintable gigabit = omega arith
long_name-IsPrintable ten_gigabit = omega arith
long_name-IsPrintable twenty_five_gigabit = omega arith
long_name-IsPrintable forty_gigabit = omega arith
long_name-IsPrintable hundred_gigabit = omega arith

canonical-IsPrintable : (c : Text) → IsCanonical c → All IsPrintable c
canonical-IsPrintable c (vlan n e) = subst (All IsPrintable) (sym e) (
    All-append IsPrintable (codes "Vlan") (str n) (omega arith)
      (All-mono _ _ decimal-IsPrintable (str n) (All-str n)))
canonical-IsPrintable c (two m a b e) = subst (All IsPrintable) (sym e) (
    All-append IsPrintable (long_name m) _ (long_name-IsPrintable m)
      (strs-IsPrintable (a ∷ b ∷ [])))
canonical-IsPrintable c (three m a b d e) = subst (All IsPrintable) (sym e) (
    All-append IsPrintable (long_name m) _ (long_name-IsPrintable m)
      (strs-IsPrintable (a ∷ b ∷ d ∷ [])))

-- An accepted target is printable.
pub writable-IsPrintable :
    (name c : Text) → assert_interface_writable name ≡ ok c → All IsPrintable c
unfolding assert_interface_writable
writable-IsPrintable name c h =
    let (d, e, f) = >>=-eq-ok (normalize_interface name) _ h in
    let (physical, g, k) = >>=-eq-ok (is_physical_interface d) _ f in
    canonical-IsPrintable c (normalize_interface-IsCanonical name (same d physical e k))
  where
    same :
        (d : Text) (physical : Bool)
        → normalize_interface name ≡ ok d
        → (if physical then ok d else err (command_not_allowed not_physical)) ≡ ok c
        → normalize_interface name ≡ ok c
    same d physical e k = ground arith

-- What an accepted description consists of, how long it is, and that it is stripped.
pub record IsDescription (s : Text) : Type 0 where
  pub allowed : All (λ c. description_ok c ≡ true) s
  pub short : length s ≤ 64
  pub stripped : strip s ≡ s

check_description-IsDescription :
    (v s : Text) → check_description (strip v) ≡ ok s → IsDescription s
unfolding check_description
check_description-IsDescription v s h = record {
  allowed = All-of_all description_ok s (ground arith);
  short = ground arith;
  stripped = ground (arith, strip_idem v);
}

-- An accepted description has only allowed characters, at most 64 of them, and no space at an end.
pub sanitize_description-IsDescription :
    (v s : Text) → sanitize_description v ≡ ok s → IsDescription s
unfolding sanitize_description
sanitize_description-IsDescription [] s h = absurd (cc)
sanitize_description-IsDescription (c ∷ v) s h = check_description-IsDescription (c ∷ v) s h

sanitize_description_fixed :
    (c : ℕ) (s : Text) → IsDescription (c ∷ s) → sanitize_description (c ∷ s) ≡ ok (c ∷ s)
unfolding sanitize_description check_description
sanitize_description_fixed c s h =
    rw (h.stripped, all_of_All description_ok (c ∷ s) h.allowed) (ground (arith, h.short))

-- A description whose result is not empty: the result is accepted again, unchanged.
pub sanitize_description_idem :
    (v : Text) (c : ℕ) (s : Text)
    → sanitize_description v ≡ ok (c ∷ s)
    → sanitize_description (c ∷ s) ≡ ok (c ∷ s)
sanitize_description_idem v c s h =
    sanitize_description_fixed c s (sanitize_description-IsDescription v (c ∷ s) h)

strip_blank : (s : Text) → All (λ c. is_space c ≡ true) s → strip s ≡ []
unfolding strip lstrip rstrip
strip_blank [] h = refl
strip_blank (c ∷ s) h = rw h.0 (strip_blank s h.1)

-- A description of spaces alone is not refused as empty: what is accepted is the empty text.
pub sanitize_description_blank :
    (c : ℕ) (s : Text) → All (λ x. is_space x ≡ true) (c ∷ s) → sanitize_description (c ∷ s) ≡ ok []
unfolding sanitize_description check_description
sanitize_description_blank c s h = rw (strip_blank (c ∷ s) h)

description-IsPrintable : (c : ℕ) → description_ok c ≡ true → IsPrintable c
unfolding description_ok
description-IsPrintable c h = ground arith

abbrev Printable : Option Text → Type 0
Printable none = Unit
Printable (some s) = All IsPrintable s

substitute-IsPrintable :
    (mark : Text) (filling : Option Text) (out r : Text)
    → Printable filling
    → All IsPrintable out
    → substitute mark filling out ≡ ok r
    → All IsPrintable r
unfolding substitute
substitute-IsPrintable mark none out r f o h = subst (All IsPrintable) (ground arith) o
substitute-IsPrintable mark (some s) out r f o h = elim (Bool-cases (contains mark out)) [
  | inl e ↦
      let q : replace mark s out ≡ r = cc (rw e at h) in
      subst (All IsPrintable) q (All-replace IsPrintable mark s out f o)
  | inr e ↦ let q : out ≡ r = cc (rw e at h) in subst (All IsPrintable) q o
]

resolve_lines-IsPrintable :
    (iface value : Option Text) (l out : List Text)
    → Printable iface
    → Printable value
    → All (All IsPrintable) l
    → resolve_lines iface value l ≡ ok out
    → All (All IsPrintable) out
unfolding resolve_lines resolve_line
resolve_lines-IsPrintable iface value [] out i v p h =
    let q : [] ≡ out = cc h in subst (All (All IsPrintable)) q tt
resolve_lines-IsPrintable iface value (cmd ∷ rest) out i v p h =
    let (o, e, f) = >>=-eq-ok (resolve_line iface value cmd) _ h in
    let (os, g, k) = >>=-eq-ok (resolve_lines iface value rest) _ f in
    let (m, a, b) = >>=-eq-ok (substitute iface_mark iface cmd) _ e in
    let q : o ∷ os ≡ out = cc k in
    subst (All (All IsPrintable)) q (
      substitute-IsPrintable value_mark value m o v
          (substitute-IsPrintable iface_mark iface cmd m i p.0 a) b,
      resolve_lines-IsPrintable iface value rest os i v p.1 g,
    )

resolve_interface-Printable :
    (l : List Text) (name iface : Option Text)
    → resolve_interface l name ≡ ok iface
    → Printable iface
unfolding resolve_interface
resolve_interface-Printable l name iface h = elim (Bool-cases (any (contains iface_mark) l)) [
  | inl e ↦ wanted name (rw e at h)
  | inr e ↦ let q : none ≡ iface = cc (rw e at h) in subst Printable q tt
]
  where
    wanted :
        (name : Option Text)
        → elim name [
          | none ↦ err (command_not_allowed missing_interface)
          | some n ↦ (do canonical ← assert_interface_writable n; ok (some canonical))
        ]
          ≡ ok iface
        → Printable iface
    wanted none k = absurd (cc)
    wanted (some n) k =
        let (c, e, f) = >>=-eq-ok (assert_interface_writable n) _ k in
        let q : some c ≡ iface = cc f in subst Printable q (writable-IsPrintable n c e)

resolve_value-Printable :
    (l : List Text) (raw value : Option Text) → resolve_value l raw ≡ ok value → Printable value
unfolding resolve_value
resolve_value-Printable l raw value h = elim (Bool-cases (any (contains value_mark) l)) [
  | inl e ↦ wanted raw (rw e at h)
  | inr e ↦ let q : none ≡ value = cc (rw e at h) in subst Printable q tt
]
  where
    wanted :
        (raw : Option Text)
        → elim raw [
          | none ↦ err (command_not_allowed missing_value)
          | some r ↦ (do safe ← sanitize_description r; ok (some safe))
        ]
          ≡ ok value
        → Printable value
    wanted none k = absurd (cc)
    wanted (some r) k =
        let (s, e, f) = >>=-eq-ok (sanitize_description r) _ k in
        let q : some s ≡ value = cc f in
        subst Printable q (
          All-mono _ _ description-IsPrintable s (sanitize_description-IsDescription r s e).allowed)

templates-IsPrintable : All (λ e. All (All IsPrintable) e.1) safe_write_actions
unfolding safe_write_actions
templates-IsPrintable = omega arith

build_from-IsPrintable :
    (action : Text) (template : List Text) (interface value : Option Text) (w : WriteAction)
    → All (All IsPrintable) template
    → build_from action template interface value ≡ ok w
    → All (All IsPrintable) w.commands
unfolding build_from
build_from-IsPrintable action template interface value w t h =
    let (c, a, f) = >>=-eq-ok (resolve_interface template interface) _ h in
    let (s, b, g) = >>=-eq-ok (resolve_value template value) _ f in
    let (r, d, k) = >>=-eq-ok (resolve_lines c s template) _ g in
    let q : r ≡ w.commands = ground arith in
    subst (All (All IsPrintable)) q (
      resolve_lines-IsPrintable c s template r (resolve_interface-Printable template interface c a)
        (resolve_value-Printable template value s b) t d)

-- Every line of every action that is built, whatever the caller sent, is printable ASCII: no
-- newline can smuggle a second command in.
pub build_write_action-IsPrintable :
    (action : Text) (interface value : Option Text) (w : WriteAction)
    → build_write_action action interface value ≡ ok w
    → All (All IsPrintable) w.commands
unfolding build_write_action
build_write_action-IsPrintable action interface value w h =
    elim (Option-cases (lookup action safe_write_actions)) [
      | inl e ↦ absurd (cc (rw e at h))
      | inr (template, e) ↦
          build_from-IsPrintable action template interface value w
            (All-lookup (All (All IsPrintable)) action safe_write_actions templates-IsPrintable e)
            (rw e at h)
    ]
