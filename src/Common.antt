-- ===== src/Common.antt =====
-- player-gateway-testing-app/internal/common/common.go: bounds of numbers, port ranges, and the
-- search for free ports. Whether a port can be bound is the environment's answer, a function of the
-- port.
pub mod PortSearch
pub mod Examples
use amazon_gamelift_toolkit.Base.{
  ℕ, zero, suc, ◌+◌, Bool, true, false, ◌&&◌, ◌||◌, List, [], ◌∷◌, Option, none, some, ltb, leb,
  if◌then◌else◌, length, get_elem?,
}
use amazon_gamelift_toolkit.Base.Int.{ℤ, pos, ltb_ℤ}
use amazon_gamelift_toolkit.Base.Result.{Result, ok, err, panic}
use amazon_gamelift_toolkit.Go.Text.{Bytes, cut, split}
use amazon_gamelift_toolkit.Go.Decimal.{atoi}

abbrev pub min_port : ℤ
min_port = pos 1

abbrev pub max_port : ℤ
max_port = pos 65535

pub data CommonError : Type 0 where
  out_of_bounds : ℤ → ℤ → ℤ → CommonError
  invalid_format start_not_parsable end_not_parsable : CommonError
  no_available_range : CommonError

unfoldable pub validate_number_within_bounds : ℤ → ℤ → ℤ → Result CommonError (Unit {0})
validate_number_within_bounds value minimum maximum =
    if ltb_ℤ value minimum || ltb_ℤ maximum value
    then err (out_of_bounds value minimum maximum)
    else ok tt

all_digits : Bytes → Bool
all_digits [] = true
all_digits (c ∷ s) = (leb b'0' c && leb c b'9') && all_digits s

-- \d{1,5}
unfoldable pub is_port_text : Bytes → Bool
unfolding all_digits
is_port_text s = all_digits s && (leb 1 (length s) && leb (length s) 5)

-- ^\d{1,5}-\d{1,5}$
unfoldable pub matches_port_range : Bytes → Bool
unfolding is_port_text
matches_port_range s =
    let (before, after, found) = cut s b'-' in found && (is_port_text before && is_port_text after)

-- A part of the split text, read as a number: `parts[i]` panics where there is no such part.
unfoldable pub part_number : List Bytes → ℕ → CommonError → Result CommonError ℤ
part_number parts i e = elim (get_elem? parts i) [
  | none ↦ panic
  | some part ↦ elim (atoi part) [ none ↦ err e | some n ↦ ok n ]
]

abbrev pub pair_of : Result CommonError ℤ → Result CommonError ℤ → Result CommonError (ℤ × ℤ)
pair_of (ok a) (ok b) = ok (a, b)
pair_of (ok a) (err e) = err e
pair_of (ok a) panic = panic
pair_of (err e) _ = err e
pair_of panic _ = panic

unfoldable pub parse_port_range : Bytes → Result CommonError (ℤ × ℤ)
unfolding matches_port_range part_number
parse_port_range port_range =
    let parts = split port_range b'-' in
    if matches_port_range port_range
    then pair_of (part_number parts 0 start_not_parsable) (part_number parts 1 end_not_parsable)
    else err invalid_format

-- The inner loop: `count` ports from `port` on can all be bound.
unfoldable pub all_available : (ℕ → Bool) → ℕ → ℕ → Bool
all_available available port zero = true
all_available available port (suc count) =
    available port && all_available available (suc port) count

-- The outer loop, while `startPort+count-1 <= maxSearchPort`.
unfoldable pub search_from : (ℕ → Bool) → ℕ → ℕ → ℕ → ℕ → Option ℕ
search_from available zero start_port count max_search_port = none
search_from available (suc rounds) start_port count max_search_port =
    let later = search_from available rounds (suc start_port) count max_search_port in
    if leb (start_port + count) (max_search_port + 1)
    then (if all_available available start_port count then some start_port else later)
    else none

-- The last round, in which the test of the loop fails, is at `maxSearchPort + 2 - count` at most.
unfoldable pub find_available_port_range : (ℕ → Bool) → ℕ → ℕ → ℕ → Result CommonError ℕ
unfolding search_from
find_available_port_range available start_search_port count max_search_port =
    elim (search_from available (max_search_port + 2) start_search_port count max_search_port) [
      | some start_port ↦ ok start_port
      | none ↦ err no_available_range
    ]
