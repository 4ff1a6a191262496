-- ===== src/Parsers/MacTable.antt =====
-- parsers/mac_table.py: the rows of `show mac address-table`.
use switch_ops.Prelude.{
  ℕ, ◌≡◌, refl, Bool, ◌&&◌, ◌||◌, Option, none, some, List, [], ◌∷◌, leb, not, length, take, drop,
  all, ◌==◌, if◌then◌else◌,
}
use switch_ops.Text.{Text, codes, is_decimal, is_space, lstrip, strip, starts_with}
use switch_ops.Text.Lines.{splitlines}

infixl 5 ◌>>=◌
abbrev ◌>>=◌ : {A B : Type 0} → Option A → (A → Option B) → Option B
none >>= rest = none
some found >>= rest = rest found

pub record MacTableEntry : Type 0 where
  pub vlan : Text
  pub mac : Text
  pub type_name : Text
  pub port : Text

is_hex_or_dot : ℕ → Bool
unfolding is_decimal
is_hex_or_dot c =
    is_decimal c || (leb b'a' c && leb c b'f') || (leb b'A' c && leb c b'F') || c == b'.'

-- The characters at the front that pass a test, and the rest.
span : (ℕ → Bool) → Text → Text × Text
span test [] = ([], [])
span test (c ∷ s) =
    let (front, rest) = span test s in if test c then (c ∷ front, rest) else ([], c ∷ s)

found_or_none : Text × Text → Option (Text × Text)
found_or_none ([], rest) = none
found_or_none (c ∷ s, rest) = some (c ∷ s, rest)

-- `\d+|All`, and what is left
vlan_at : Text → Option (Text × Text)
unfolding span is_decimal found_or_none
vlan_at s =
    if starts_with (codes "All") s
    then some (codes "All", drop 3 s)
    else found_or_none (span is_decimal s)

-- `\s+`, and what is left
spaces_at : Text → Option Text
unfolding lstrip is_space
spaces_at [] = none
spaces_at (c ∷ s) = if is_space c then some (lstrip s) else none

-- `[0-9a-fA-F.]{14}`, and what is left
mac_at : Text → Option (Text × Text)
unfolding is_hex_or_dot
mac_at s =
    if length (take 14 s) == 14 && all is_hex_or_dot (take 14 s)
    then some (take 14 s, drop 14 s)
    else none

-- `\S+`, and what is left
word_at : Text → Option (Text × Text)
unfolding span is_space found_or_none
word_at s = found_or_none (span (λ c. not (is_space c)) s)

-- `\S.*`: the line holds no line break.
last_at : Text → Option Text
last_at [] = none
last_at (c ∷ s) = some (c ∷ s)

-- The regular expression, matched from the start of a line.
read_row : Text → Option MacTableEntry
unfolding lstrip vlan_at spaces_at mac_at word_at last_at strip
read_row line = do
  (vlan, s1) ← vlan_at (lstrip line)
  s2 ← spaces_at s1
  (mac, s3) ← mac_at s2
  s4 ← spaces_at s3
  (type_name, s5) ← word_at s4
  s6 ← spaces_at s5
  port ← last_at s6
  some (record { vlan = vlan; mac = mac; type_name = type_name; port = strip port })

add_entry : Option MacTableEntry → List MacTableEntry → List MacTableEntry
add_entry none others = others
add_entry (some entry) others = entry ∷ others

read_entries : List Text → List MacTableEntry
unfolding read_row add_entry
read_entries [] = []
read_entries (line ∷ rest) = add_entry (read_row line) (read_entries rest)

unfoldable pub parse_mac_table : Text → List MacTableEntry
unfolding splitlines read_entries
parse_mac_table text = read_entries (splitlines text)

two_rows :
    parse_mac_table (
      codes
        "Vlan Mac Type Ports\n All    0100.0ccc.cccc    STATIC      CPU\n   1    0200.0000.0001    DYNAMIC     Gi0/1 \n   1    0200.0000.00013    DYNAMIC     Gi0/1\n")
    ≡ record {
      vlan = codes "All";
      mac = codes "0100.0ccc.cccc";
      type_name = codes "STATIC";
      port = codes "CPU";
    }
      ∷ record {
        vlan = codes "1";
        mac = codes "0200.0000.0001";
        type_name = codes "DYNAMIC";
        port = codes "Gi0/1";
      }
      ∷ []
unfolding parse_mac_table is_space
two_rows = refl
