-- ===== src/App/Flags.antt =====
-- What a port range that passes the validation is enough for.
use amazon_gamelift_toolkit.Base.{
  ℕ, ◌+◌, ◌*◌, ◌%◌, ◌≤◌, ◌<◌, ◌≡◌, ◌≢◌, refl, sym, ap, ◌∙◌, [], arith,
}
use amazon_gamelift_toolkit.Base.Int.{ℤ, pos, negsuc}
use amazon_gamelift_toolkit.Base.Eq.{bytes_beq_iff}
use amazon_gamelift_toolkit.Base.Result.{Result, ok, err, panic}
use amazon_gamelift_toolkit.Go.Text.{Bytes}
use amazon_gamelift_toolkit.Common.{CommonError, parse_port_range, validate_number_within_bounds}
use amazon_gamelift_toolkit.Stats.{word_size}
use amazon_gamelift_toolkit.App.{mul_int, of_word, validate_ports, validate_port_range}
use native.Mathlib.Nat.{mod-eq_of_lt}

of_word_small : (n : ℕ) → n + n < word_size → of_word n ≡ pos n
of_word_small n h = ground arith

-- A product that fits is the product.
mul_int_fits :
    (a b : ℕ)
    → a < word_size
    → b < word_size
    → a * b + a * b < word_size
    → mul_int (pos a) (pos b) ≡ pos (a * b)
unfolding mul_int
mul_int_fits a b ha hb h =
    ap (λ z. of_word (z * (b % word_size) % word_size)) (mod-eq_of_lt ha)
    ∙ ap (λ z. of_word (a * z % word_size)) (mod-eq_of_lt hb)
    ∙ ap of_word (mod-eq_of_lt (smaller (a * b) h))
    ∙ of_word_small (a * b) h
  where
    smaller : (n : ℕ) → n + n < word_size → n < word_size
    smaller n k = omega arith

validate_ports_ok :
    (s t : ℤ) (total : ℕ)
    → validate_ports s t (pos total) ≡ ok tt
    → (m : ℕ) × (n : ℕ) × (s ≡ pos m) × (t ≡ pos n) × (1 ≤ m) × (n ≤ 65535) × (m + total ≤ n + 1)
unfolding validate_ports validate_number_within_bounds
validate_ports_ok (pos m) (pos n) total h =
    (m, n, refl, refl, ground arith, ground arith, ground arith)
validate_ports_ok (pos m) (negsuc n) total h = absurd (ground arith)
validate_ports_ok (negsuc m) (pos n) total h = absurd (ground arith)
validate_ports_ok (negsuc m) (negsuc n) total h = absurd (ground arith)

range_parsed :
    (range : Bytes) (e n : ℤ)
    → range ≢ []
    → validate_port_range range e n ≡ ok tt
    → (ports : ℤ × ℤ) × (parse_port_range range ≡ ok ports)
      × (validate_ports ports.0 ports.1 (mul_int e n) ≡ ok tt)
unfolding validate_port_range
range_parsed range e n some_range h = split (parse_port_range range) refl
  where
    split :
        (r : Result CommonError (ℤ × ℤ))
        → parse_port_range range ≡ r
        → (ports : ℤ × ℤ) × (parse_port_range range ≡ ok ports)
          × (validate_ports ports.0 ports.1 (mul_int e n) ≡ ok tt)
    split (ok ports) is = (ports, is, ground (arith, bytes_beq_iff range []))
    split (err er) is = absurd (ground (arith, bytes_beq_iff range []))
    split panic is = absurd (ground (arith, bytes_beq_iff range []))

-- A port range that is given and passes the validation is read as two ports between 1 and 65535
-- with room for the endpoints of all players between them, both ends included. The number of all
-- endpoints has to fit in an `int`.
pub validate_port_range_suffices :
    (range : Bytes) (e n : ℕ)
    → range ≢ []
    → e < word_size
    → n < word_size
    → e * n + e * n < word_size
    → validate_port_range range (pos e) (pos n) ≡ ok tt
    → (start_port : ℕ) × (end_port : ℕ) × (parse_port_range range
        ≡ ok (pos start_port, pos end_port))
      × (1 ≤ start_port)
      × (end_port ≤ 65535)
      × (start_port + e * n ≤ end_port + 1)
validate_port_range_suffices range e n some_range he hn fits h =
    let (ports, parsed, valid) = range_parsed range (pos e) (pos n) some_range h in
    let (s, t, is_s, is_t, low, high, room) =
      validate_ports_ok ports.0 ports.1 (e * n)
        (ap (validate_ports ports.0 ports.1) (sym (mul_int_fits e n he hn fits)) ∙ valid) in
    (s, t, ground (arith, parsed), low, high, room)
