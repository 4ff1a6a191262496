-- ===== src/Health/Signals.antt =====
-- What health is evaluated from, and the readings of single values.
use switch_ops.Prelude.{
  ℕ, ◌≡◌, refl, Bool, false, ◌||◌, not, Option, none, some, [], ◌∷◌, if◌then◌else◌, any, drop,
}
use switch_ops.Text.{Text, codes, text_eq, lower, strip, starts_with, is_decimal, is_space, int}

pub data Severity : Type 0 where
  healthy notice attention critical : Severity

unfoldable pub rank : Severity → ℕ
rank healthy = 0
rank notice = 1
rank attention = 2
rank critical = 3

pub record Thresholds : Type 0 where
  pub cpu_notice : ℕ
  pub cpu_attention : ℕ
  pub cpu_critical : ℕ
  pub memory_notice : ℕ
  pub memory_attention : ℕ
  pub memory_critical : ℕ
  pub error_notice : ℕ
  pub error_attention : ℕ
  pub error_critical : ℕ

abbrev pub default_thresholds : Thresholds
default_thresholds = record {
  cpu_notice = 65;
  cpu_attention = 80;
  cpu_critical = 95;
  memory_notice = 85;
  memory_attention = 90;
  memory_critical = 97;
  error_notice = 1;
  error_attention = 10;
  error_critical = 100;
}

pub record Memory : Type 0 where
  pub total : Option ℕ
  pub used : Option ℕ

pub data CounterState : Type 0 where
  first unchanged increased reset wrapped : CounterState

-- The fields of `InterfaceDelta` that are read here; an error delta that is not positive counts as 0.
pub record Delta : Type 0 where
  pub port : Text
  pub error_delta : Option ℕ
  pub counter_state : CounterState
  pub status_before : Option Text
  pub status_after : Text
  pub speed_before : Option Text
  pub speed_after : Text
  pub duplex_before : Option Text
  pub duplex_after : Text
  pub poe_before : Option Text
  pub poe_after : Text

-- The digits at the start.
digits : Text → Text
unfolding is_decimal
digits [] = []
digits (c ∷ s) = let rest = digits s in if is_decimal c then c ∷ rest else []

-- The first number in a text: `re.search(r"(\d+)", …)`.
first_number : Text → Option ℕ
unfolding is_decimal digits int
first_number [] = none
first_number (c ∷ s) =
    let later = first_number s in if is_decimal c then some (int (digits (c ∷ s))) else later

without_auto : Text → Text
without_auto s = if starts_with (codes "a-") s then drop 2 s else s

speed_of : Text → Option ℕ
unfolding first_number
speed_of s =
    if text_eq s (codes "auto") || text_eq s (codes "--") || text_eq s (codes "n/a")
    then none
    else first_number s

unfoldable pub speed_mbps : Option Text → Option ℕ
unfolding lower strip without_auto speed_of
speed_mbps none = none
speed_mbps (some []) = none
speed_mbps (some (c ∷ s)) = speed_of (strip (without_auto (lower (c ∷ s))))

unfoldable pub poe_active : Text → Bool
unfolding strip lower
poe_active [] = false
poe_active (c ∷ s) =
    let mode = lower (strip (c ∷ s)) in
    not (
      any (text_eq mode) (codes "off" ∷ codes "n/a" ∷ codes "not-supported" ∷ codes "unknown" ∷ []))

gi_speed : speed_mbps (some (codes "a-1000")) ≡ some 1000
unfolding speed_mbps is_space
gi_speed = refl

no_speed : speed_mbps (some (codes "auto")) ≡ none
unfolding speed_mbps is_space
no_speed = refl
