-- ===== src/Parsers/Errors.antt =====
-- parsers/errors.py: the two blocks of `show interfaces counters errors`, merged by port.
use switch_ops.Prelude.{
  ℕ, zero, suc, ◌==◌, ◌≡◌, refl, Bool, true, false, ◌&&◌, not, Option, none, some, List, [], ◌∷◌,
  map, all, if◌then◌else◌, ℤ, pos, ◌+ℤ◌, minus,
}
use switch_ops.Text.{Text, codes, is_decimal, is_space, strip, contains, int}
use switch_ops.Text.Dict.{Dict, lookup, insert}
use switch_ops.Text.Lines.{splitlines, words}
use switch_ops.Parsers.Poe.{is_poe_row}

-- `InterfaceErrorCounters`
pub record InterfaceErrorCounters : Type 0 where
  pub port : Text
  pub align_err : ℤ
  pub fcs_err : ℤ
  pub xmit_err : ℤ
  pub rcv_err : ℤ
  pub under_size : ℤ
  pub single_col : ℤ
  pub multi_col : ℤ
  pub late_col : ℤ
  pub excess_col : ℤ
  pub total : ℤ

no_errors : Text → InterfaceErrorCounters
no_errors port = record {
  port = port;
  align_err = pos 0;
  fcs_err = pos 0;
  xmit_err = pos 0;
  rcv_err = pos 0;
  under_size = pos 0;
  single_col = pos 0;
  multi_col = pos 0;
  late_col = pos 0;
  excess_col = pos 0;
  total = pos 0;
}

-- Digits, with single underscores between them; `after` says that a digit stands before.
digits_only : Bool → Text → Option Text
unfolding is_decimal
digits_only after [] = if after then some [] else none
digits_only after (c ∷ s) =
    let number = digits_only true s in
    let grouped = digits_only false s in
    if is_decimal c
    then elim number [ none ↦ none | some ds ↦ some (c ∷ ds) ]
    else if after && c == b'_'
    then grouped
    else none

-- int(s) of a word, or 0
safe_int : Text → ℤ
unfolding digits_only
safe_int [] = pos 0
safe_int (c ∷ s) =
    if c == b'-'
    then elim (digits_only false s) [ none ↦ pos 0 | some ds ↦ minus (int ds) ]
    else if c == b'+'
    then elim (digits_only false s) [ none ↦ pos 0 | some ds ↦ pos (int ds) ]
    else elim (digits_only false (c ∷ s)) [ none ↦ pos 0 | some ds ↦ pos (int ds) ]

pub data Mode : Type 0 where
  no_mode first second : Mode

-- `parts[n] if len(parts) > n else "0"`, as a number
part : ℕ → List Text → ℤ
unfolding safe_int
part n [] = pos 0
part zero (w ∷ ws) = safe_int w
part (suc n) (w ∷ ws) = part n ws

merge : Mode → List Text → InterfaceErrorCounters → InterfaceErrorCounters
unfolding part
merge no_mode parts row = row
merge first parts row = record row {
  align_err = part 1 parts;
  fcs_err = part 2 parts;
  xmit_err = part 3 parts;
  rcv_err = part 4 parts;
  under_size = part 5 parts;
}
merge second parts row = record row {
  single_col = part 1 parts;
  multi_col = part 2 parts;
  late_col = part 3 parts;
  excess_col = part 4 parts;
}

with_total : InterfaceErrorCounters → InterfaceErrorCounters
with_total row = record row {
  total =
      row.align_err +ℤ row.fcs_err +ℤ row.xmit_err +ℤ row.rcv_err +ℤ row.under_size
      +ℤ row.single_col +ℤ row.multi_col +ℤ row.late_col +ℤ row.excess_col;
}

-- `rows.get(port) or InterfaceErrorCounters(port=port)`
row_of : Text → Option InterfaceErrorCounters → InterfaceErrorCounters
unfolding no_errors
row_of port none = no_errors port
row_of port (some row) = row

put_row : Mode → List Text → Dict InterfaceErrorCounters → Dict InterfaceErrorCounters
unfolding lookup insert merge with_total row_of
put_row mode [] rows = rows
put_row mode (port ∷ parts) rows =
    insert port (with_total (merge mode (port ∷ parts) (row_of port (lookup port rows)))) rows

first_headers : List Text
first_headers = codes "Align-Err" ∷ codes "FCS-Err" ∷ codes "Xmit-Err" ∷ codes "Rcv-Err" ∷ []

second_headers : List Text
second_headers = codes "Single-Col" ∷ codes "Multi-Col" ∷ codes "Late-Col" ∷ codes "Excess-Col" ∷ []

is_blank : Text → Bool
is_blank [] = true
is_blank (c ∷ s) = false

read_line : Text → Mode × Dict InterfaceErrorCounters → Mode × Dict InterfaceErrorCounters
unfolding first_headers second_headers contains strip is_space is_blank is_poe_row words put_row
read_line line (mode, rows) =
    if is_blank (strip line)
    then (mode, rows)
    else if all (λ t. contains t line) first_headers
    then (first, rows)
    else if all (λ t. contains t line) second_headers
    then (second, rows)
    else if not (is_poe_row line)
    then (mode, rows)
    else (mode, put_row mode (words line) rows)

read_errors : List Text → Mode × Dict InterfaceErrorCounters → Mode × Dict InterfaceErrorCounters
unfolding read_line
read_errors [] found = found
read_errors (line ∷ rest) found = read_errors rest (read_line line found)

unfoldable pub parse_interface_errors : Text → List InterfaceErrorCounters
unfolding splitlines read_errors
parse_interface_errors text = map (λ e. e.1) (read_errors (splitlines text) (no_mode, [])).1

both_blocks :
    map
      (λ r. r.total)
      (parse_interface_errors (
        codes
          "Port Align-Err FCS-Err Xmit-Err Rcv-Err UnderSize\nGi0/1 1 2 0 +4 n/a\n\nPort Single-Col Multi-Col Late-Col Excess-Col\nGi0/1 10 0 0 0\nPo1 9 9 9 9\n"))
    ≡ pos 17 ∷ []
unfolding parse_interface_errors int
both_blocks = refl
