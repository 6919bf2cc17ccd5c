-- ===== src/Fleet/Tools/Ports.antt =====
-- DeterminePort for ports that fit in 32 bits.
use amazon_gamelift_toolkit.Base.{ℕ, ◌≤◌, ◌<◌, ◌≡◌, refl, arith, ◌%◌}
use amazon_gamelift_toolkit.Base.Int.{pos, negsuc}
use amazon_gamelift_toolkit.Base.Result.{ok, err}
use amazon_gamelift_toolkit.Fleet.{OperatingSystem, linux, windows, unknown_os, port_too_low}
use amazon_gamelift_toolkit.Fleet.Tools.{to_int32, determine_port}

to_int32-small : (n : ℕ) → n < 2147483648 → to_int32 (pos n) ≡ pos n
unfolding to_int32
to_int32-small n h = let e : n % 4294967296 ≡ n = omega arith in rw e (ground arith)

-- A port from 0 to 2147483647: on a fleet with Linux it becomes 22; on any other fleet 0 becomes
-- 1026, a port from 1 to 1025 is an error, and any other port stays.
pub determine_port_cases :
    (n : ℕ) (os : OperatingSystem)
    → n < 2147483648
    → (os ≡ linux → determine_port (pos n) os ≡ ok (pos 22))
      × (¬ (os ≡ linux) → n ≡ 0 → determine_port (pos n) os ≡ ok (pos 1026))
      × (¬ (os ≡ linux) → 0 < n → n < 1026 → determine_port (pos n) os ≡ err port_too_low)
      × (¬ (os ≡ linux) → 1026 ≤ n → determine_port (pos n) os ≡ ok (pos n))
unfolding determine_port
determine_port_cases n linux h =
    (λ e. refl, λ d. absurd (d refl), λ d. absurd (d refl), λ d. absurd (d refl))
determine_port_cases n windows h =
    rw (to_int32-small n h)
      (λ e. absurd (ground arith), λ d z. ground arith, λ d p q. ground arith, λ d p. ground arith)
determine_port_cases n unknown_os h =
    rw (to_int32-small n h)
      (λ e. absurd (ground arith), λ d z. ground arith, λ d p q. ground arith, λ d p. ground arith)

-- Ports that no host has pass on Windows: a negative one, and one above 65535.
negative_port_passes : determine_port (negsuc 0) windows ≡ ok (negsuc 0)
unfolding determine_port to_int32
negative_port_passes = refl

high_port_passes : determine_port (pos 70000) windows ≡ ok (pos 70000)
unfolding determine_port to_int32
high_port_passes = refl

truncated_port_passes : determine_port (pos 4294968396) windows ≡ ok (pos 1100)
unfolding determine_port to_int32
truncated_port_passes = refl
