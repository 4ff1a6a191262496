-- ===== src/Operations/Config.antt =====
-- `_interface_config`: the fields of one interface block of a running configuration.
use switch_ops.Prelude.{
  ◌≡◌, refl, Bool, true, false, ◌&&◌, ◌||◌, Option, none, some, List, [], ◌∷◌, ◌==◌, if◌then◌else◌,
  length, drop,
}
use switch_ops.Text.{Text, codes, text_eq, is_space, lower, lstrip, strip, starts_with}
use switch_ops.Text.Lines.{splitlines, words}

pub record InterfaceConfig : Type 0 where
  pub description : Text
  pub shutdown : Bool
  pub poe_admin : Text

-- A match of the text, without regard to case, and what is left behind it.
after_word : Text → Text → Option Text
unfolding lower
after_word word s = if starts_with (lower word) (lower s) then some (drop (length word) s) else none

starts_with_space : Text → Bool
unfolding is_space
starts_with_space [] = false
starts_with_space (c ∷ s) = is_space c

-- `\s*$\n`: what is left behind the last line feed of the white space at the front.
after_blank_lines : Text → Option Text
unfolding is_space
after_blank_lines [] = none
after_blank_lines (c ∷ s) =
    let later = after_blank_lines s in
    let here = if c == 10 then some s else none in
    if is_space c then elim later [ none ↦ here | some t ↦ some t ] else none

-- `interface\s+NAME\s*$\n`, and the text behind it.
match_block : Text → Text → Option Text
unfolding after_word starts_with_space lstrip after_blank_lines
match_block canonical s = elim (after_word (codes "interface") s) [
  | none ↦ none
  | some t ↦
      if starts_with_space t
      then elim (after_word canonical (lstrip t)) [ none ↦ none | some u ↦ after_blank_lines u ]
      else none
]

-- The search for the block; `start` says that a line starts here.
find_block : Text → Bool → Text → Option Text
unfolding match_block
find_block canonical start [] = none
find_block canonical start (c ∷ s) =
    let later = find_block canonical (c == 10) s in
    elim (if start then match_block canonical (c ∷ s) else none) [ none ↦ later | some t ↦ some t ]

-- `\s*$` at the front of a text.
rest_is_blank : Text → Bool
unfolding is_space
rest_is_blank [] = true
rest_is_blank (c ∷ s) = c == 10 || (is_space c && rest_is_blank s)

starts_interface : Text → Bool
unfolding after_word starts_with_space
starts_interface s = elim (after_word (codes "interface") s) [
  | none ↦ false
  | some t ↦ starts_with_space t
]

-- `^!\s*$|^interface\s+` at the start of a line.
ends_block : Text → Bool
unfolding starts_interface rest_is_blank
ends_block [] = true
ends_block (c ∷ s) = (c == b'!' && rest_is_blank s) || starts_interface (c ∷ s)

take_block : Bool → Text → Text
unfolding ends_block
take_block start [] = []
take_block start (c ∷ s) =
    let later = take_block (c == 10) s in if start && ends_block (c ∷ s) then [] else c ∷ later

first_word : List Text → Text
first_word [] = []
first_word (w ∷ ws) = w

read_line : InterfaceConfig → Text → InterfaceConfig
unfolding lower words first_word
read_line config line =
    if starts_with (codes "description ") (lower line)
    then record config { description = drop 12 line }
    else if text_eq (lower line) (codes "shutdown")
    then record config { shutdown = true }
    else if text_eq (lower line) (codes "no shutdown")
    then record config { shutdown = false }
    else if starts_with (codes "power inline ") (lower line)
    then record config { poe_admin = first_word (words (drop 13 (lower line))) }
    else config

read_lines : InterfaceConfig → List Text → InterfaceConfig
unfolding read_line strip
read_lines config [] = config
read_lines config (raw ∷ rest) = read_lines (read_line config (strip raw)) rest

abbrev pub default_config : InterfaceConfig
default_config = record { description = []; shutdown = false; poe_admin = codes "auto" }

unfoldable pub interface_config : Text → Text → Option InterfaceConfig
unfolding find_block take_block splitlines read_lines
interface_config config canonical = elim (find_block canonical true config) [
  | none ↦ none
  | some body ↦ some (read_lines default_config (splitlines (take_block true body)))
]

abbrev sample : Text
sample =
    codes
      "hostname sw\n!\ninterface GigabitEthernet0/1\n description  Core link \n shutdown\n power inline never\n!\ninterface GigabitEthernet0/2\n no shutdown\n!\nend\n"

config_sample :
    interface_config sample (codes "GigabitEthernet0/1")
    ≡ some (record { description = codes " Core link"; shutdown = true; poe_admin = codes "never" })
unfolding interface_config is_space
config_sample = refl

config_missing : interface_config sample (codes "GigabitEthernet0/12") ≡ none
unfolding interface_config is_space
config_missing = refl
