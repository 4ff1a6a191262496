-- ===== src/Parsers/Interfaces.antt =====
-- parsers/interfaces.py: `show interfaces status`.
use switch_ops.Prelude.{
  ℕ, zero, suc, ◌+◌, ◌≡◌, refl, ap, Bool, true, false, ◌&&◌, ◌||◌, Option, none, some, List, [],
  ◌∷◌, arith, leb, if◌then◌else◌, length, take, drop, any, All, Bool-cases, &&-true, inl, inr,
  Result, ok, err,
}
use switch_ops.Text.{Text, codes, text_eq, is_space, lower, strip, starts_with, contains, join}
use switch_ops.Text.Lines.{splitlines, words, find, slice}
use switch_ops.Models.{InterfaceStatus}
use switch_ops.Policy.Model.{unmanaged}
use switch_ops.Registry.Names.{normalize_interface, is_physical_interface}

status_values : List Text
status_values =
    codes "connected"
    ∷ codes "notconnect"
    ∷ codes "disabled"
    ∷ codes "err-disabled"
    ∷ codes "inactive"
    ∷ codes "monitoring"
    ∷ codes "suspended"
    ∷ codes "faulty"
    ∷ codes "sfpabsent"
    ∷ []

is_header : Text → Bool
unfolding strip is_space contains
is_header line =
    starts_with (codes "Port") (strip line)
    && contains (codes "Name") line
    && contains (codes "Status") line

-- The header line and the lines behind it.
after_header : List Text → Option (Text × List Text)
unfolding is_header
after_header [] = none
after_header (line ∷ rest) =
    let later = after_header rest in if is_header line then some (line, rest) else later

-- `slice_col` for a column and the one that follows it.
slice_between : Text → Text → Text → Text → Text
unfolding find slice strip
slice_between header key next line = elim (find key header) [
  | none ↦ []
  | some start ↦ strip (slice start (find next header) line)
]

slice_last : Text → Text → Text → Text
unfolding find strip
slice_last header key line = elim (find key header) [
  | none ↦ []
  | some start ↦ strip (drop start line)
]

-- The first index, from `i`, of a word that is a status.
find_status : ℕ → List Text → Option ℕ
unfolding lower status_values
find_status i [] = none
find_status i (word ∷ rest) =
    let later = find_status (i + 1) rest in
    if any (text_eq (lower word)) status_values then some i else later

get_word : ℕ → List Text → Text
get_word i [] = []
get_word zero (word ∷ rest) = word
get_word (suc i) (word ∷ rest) = get_word i rest

row : Text → Text → Text → Text → Text → Text → Text → InterfaceStatus
row port name status vlan duplex speed type_name = record {
  port = port;
  name = name;
  status = status;
  vlan = vlan;
  duplex = duplex;
  speed = speed;
  type_name = type_name;
  protected = false;
  policy_state = unmanaged;
}

-- The words before the status are the port and its name.
row_by_words : ℕ → List Text → InterfaceStatus
unfolding join get_word row
row_by_words i parts =
    row (get_word 0 parts) (join b' ' (drop 1 (take i parts))) (get_word i parts)
      (get_word (i + 1) parts) (get_word (i + 2) parts) (get_word (i + 3) parts)
      (join b' ' (drop (i + 4) parts))

row_by_columns : Text → Text → InterfaceStatus
unfolding slice_between slice_last row
row_by_columns header line =
    row (slice_between header (codes "Port") (codes "Name") line)
      (slice_between header (codes "Name") (codes "Status") line)
      (slice_between header (codes "Status") (codes "Vlan") line)
      (slice_between header (codes "Vlan") (codes "Duplex") line)
      (slice_between header (codes "Duplex") (codes "Speed") line)
      (slice_between header (codes "Speed") (codes "Type") line)
      (slice_last header (codes "Type") line)

read_row : Text → Text → InterfaceStatus
unfolding words find_status row_by_words row_by_columns
read_row header line = elim (find_status 1 (drop 1 (words line))) [
  | none ↦ row_by_columns header line
  | some i ↦
      if leb (i + 5) (length (words line))
      then row_by_words i (words line)
      else row_by_columns header line
]

is_ascii_letter : ℕ → Bool
is_ascii_letter c = (leb b'A' c && leb c b'Z') || (leb b'a' c && leb c b'z')

starts_with_letter : Text → Bool
unfolding is_ascii_letter
starts_with_letter [] = false
starts_with_letter (c ∷ s) = is_ascii_letter c

keep_answer : Result Bool → Bool
keep_answer (ok physical) = physical
keep_answer (err _) = false

keep_name : Result Text → Bool
unfolding keep_answer is_physical_interface
keep_name (ok canonical) = keep_answer (is_physical_interface canonical)
keep_name (err _) = false

-- A port is kept when its name normalizes to a physical interface.
keep_port : Text → Bool
unfolding normalize_interface keep_name
keep_port port = keep_name (normalize_interface port)

read_rows : Text → List Text → List InterfaceStatus
unfolding strip starts_with_letter read_row keep_port
read_rows header [] = []
read_rows header (line ∷ rest) =
    let others = read_rows header rest in
    let item = read_row header line in
    if starts_with_letter line && keep_port item.port then item ∷ others else others

unfoldable pub parse_interface_status : Text → List InterfaceStatus
unfolding splitlines after_header read_rows
parse_interface_status text = elim (after_header (splitlines text)) [
  | none ↦ []
  | some (header, rest) ↦ read_rows header rest
]

abbrev sample : Text
sample =
    codes
      "Port      Name               Status       Vlan       Duplex  Speed Type\nGi0/1     uplink to core     connected    trunk      a-full a-1000 10/100/1000BaseTX\nPo1  x connected 1 a b c\nGi0/2                        notconnect   1            auto   auto 10/100/1000BaseTX\n"

ports : List InterfaceStatus → List (Text × Text × Text)
ports [] = []
ports (i ∷ l) = (i.port, i.name, i.status) ∷ ports l

parse_sample :
    ports (parse_interface_status sample)
    ≡ (codes "Gi0/1", codes "uplink to core", codes "connected")
      ∷ (codes "Gi0/2", [], codes "notconnect")
      ∷ []
unfolding parse_interface_status is_space ports
parse_sample = refl

-- What the parser says of a port: it exists under a physical name, and nothing is granted.
pub record IsReported (i : InterfaceStatus) : Type 0 where
  pub canonical : Text
  pub normal : normalize_interface i.port ≡ ok canonical
  pub physical : is_physical_interface canonical ≡ ok true
  pub state : i.policy_state ≡ unmanaged
  pub open_port : i.protected ≡ false

keep_port-physical :
    (port : Text)
    → keep_port port ≡ true
    → (c : Text) × (normalize_interface port ≡ ok c) × (is_physical_interface c ≡ ok true)
unfolding keep_port keep_name keep_answer
keep_port-physical port h = by_name (normalize_interface port) refl h
  where
    by_answer : (r : Result Bool) → keep_answer r ≡ true → r ≡ ok true
    by_answer (ok physical) k = ap ok k
    by_answer (err e) k = cc

    by_name :
        (r : Result Text)
        → normalize_interface port ≡ r
        → keep_name r ≡ true
        → (c : Text) × (normalize_interface port ≡ ok c) × (is_physical_interface c ≡ ok true)
    by_name (ok c) e k = (c, e, by_answer (is_physical_interface c) k)
    by_name (err x) e k = absurd (cc)

read_row-unmanaged :
    (header line : Text)
    → ((read_row header line).policy_state ≡ unmanaged) × ((read_row header line).protected ≡ false)
unfolding read_row row_by_words row_by_columns row
read_row-unmanaged header line = ground arith

read_rows-IsReported : (header : Text) (lines : List Text) → All IsReported (read_rows header lines)
unfolding read_rows
read_rows-IsReported header [] = tt
read_rows-IsReported header (line ∷ rest) =
    elim (Bool-cases (starts_with_letter line && keep_port (read_row header line).port)) [
      | inl e ↦
          let (c, n, p) = keep_port-physical (read_row header line).port (&&-true _ _ e).1 in
          let (u, o) = read_row-unmanaged header line in
          rw e (
            record { canonical = c; normal = n; physical = p; state = u; open_port = o },
            read_rows-IsReported header rest,
          )
      | inr e ↦ rw e (read_rows-IsReported header rest)
    ]

-- Whatever the switch prints, every reported port has the name of a physical interface, and none is
-- reported as protected or as granted.
pub parse_interface_status-IsReported : (text : Text) → All IsReported (parse_interface_status text)
unfolding parse_interface_status
parse_interface_status-IsReported text = from_header (after_header (splitlines text))
  where
    from_header :
        (o : Option (Text × List Text))
        → All IsReported (elim o [ none ↦ [] | some (header, rest) ↦ read_rows header rest ])
    from_header none = tt
    from_header (some (header, rest)) = read_rows-IsReported header rest
