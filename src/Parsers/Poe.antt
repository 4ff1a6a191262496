-- ===== src/Parsers/Poe.antt =====
-- parsers/poe.py: the rows of `show power inline`, without their decimal numbers.
use switch_ops.Prelude.{◌≡◌, refl, Bool, false, ◌&&◌, List, [], ◌∷◌, if◌then◌else◌}
use switch_ops.Text.{Text, codes, is_decimal, is_space, lstrip, starts_with}
use switch_ops.Text.Lines.{splitlines, words}

pub record PoePort : Type 0 where
  pub interface : Text
  pub admin : Text
  pub oper : Text

starts_gi : Text → Bool
unfolding is_decimal
starts_gi (g ∷ i ∷ d ∷ rest) = starts_with (codes "Gi") (g ∷ i ∷ d ∷ rest) && is_decimal d
starts_gi _ = false

-- The regular expression `^\s*Gi\d`.
unfoldable pub is_poe_row : Text → Bool
unfolding lstrip starts_gi is_space
is_poe_row line = starts_gi (lstrip line)

-- A row has seven words at least.
add_row : List Text → List PoePort → List PoePort
add_row (port ∷ admin ∷ oper ∷ power ∷ device ∷ class_name ∷ most ∷ rest) others =
    record { interface = port; admin = admin; oper = oper } ∷ others
add_row _ others = others

read_poe_rows : List Text → List PoePort
unfolding is_poe_row add_row words
read_poe_rows [] = []
read_poe_rows (line ∷ rest) =
    let others = read_poe_rows rest in
    if is_poe_row line then add_row (words line) others else others

-- The ports of the parsed response.
unfoldable pub parse_poe : Text → List PoePort
unfolding splitlines read_poe_rows
parse_poe text = read_poe_rows (splitlines text)

parse_row :
    parse_poe (codes "Gi0/1 auto off 0.0 n/a n/a 30.0\nGi0/2 never\n")
    ≡ record { interface = codes "Gi0/1"; admin = codes "auto"; oper = codes "off" } ∷ []
unfolding parse_poe
parse_row = refl
