-- ===== src/Fleet/Tools/Enabler.antt =====
-- fast-build-update-tool/internal/tools/ssh_enabler.go: what is looked for in the output of a
-- session: a prompt, and the key of the host.
use amazon_gamelift_toolkit.Base.{
  ℕ, zero, suc, Bool, true, false, not, ◌&&◌, ◌||◌, [], ◌∷◌, ◌++◌, leb, ◌==◌, if◌then◌else◌, Option,
  none, some,
}
use amazon_gamelift_toolkit.Go.Text.{Bytes, codes, has_prefix}
use amazon_gamelift_toolkit.Go.Replace.{has_substring}

abbrev is_digit : ℕ → Bool
is_digit c = leb b'0' c && leb c b'9'

-- The expression `sh-\d\.\d\$` at the start of a text
abbrev prompt_here : Bytes → Bool
prompt_here (s ∷ h ∷ d ∷ a ∷ p ∷ b ∷ e ∷ rest) =
    s == b's'
    && (h == b'h' && (d == b'-' && (is_digit a && (p == b'.' && (is_digit b && e == b'$')))))
prompt_here _ = false

unfoldable pub is_new_command_output_linux : Bytes → Bool
is_new_command_output_linux [] = false
is_new_command_output_linux (c ∷ s) = prompt_here (c ∷ s) || is_new_command_output_linux s

abbrev is_white : ℕ → Bool
is_white c = c == 32 || (c == 9 || (c == 10 || (c == 12 || c == 13)))

-- A `>` on the same line
abbrev closes_line : Bytes → Bool
closes_line [] = false
closes_line (c ∷ s) = let rest = closes_line s in if c == 10 then false else c == b'>' || rest

-- The expression `PS\s.*\>` at the start of a text
abbrev power_shell_here : Bytes → Bool
power_shell_here (p ∷ s ∷ w ∷ rest) = p == b'P' && (s == b'S' && (is_white w && closes_line rest))
power_shell_here _ = false

unfoldable pub is_new_command_output_windows : Bytes → Bool
is_new_command_output_windows [] = false
is_new_command_output_windows (c ∷ s) = power_shell_here (c ∷ s) || is_new_command_output_windows s

abbrev is_key_char : ℕ → Bool
is_key_char c =
    (leb b'A' c && leb c b'Z')
    || ((leb b'a' c && leb c b'z') || (is_digit c || (c == b'+' || (c == b'/' || c == b'='))))

abbrev key_chars : Bytes → Bytes
key_chars [] = []
key_chars (c ∷ s) = let rest = key_chars s in if is_key_char c then c ∷ rest else []

abbrev key_type : Bytes
key_type = codes "ssh-ed25519 "

abbrev skip_bytes : ℕ → Bytes → Bytes
skip_bytes zero s = s
skip_bytes (suc n) [] = []
skip_bytes (suc n) (c ∷ s) = skip_bytes n s

abbrev key_or : Bytes → Bytes → Bytes
key_or later [] = later
key_or later (c ∷ s) = key_type ++ c ∷ s

-- The leftmost match of `ssh-ed25519 ([A-Za-z0-9+/=]+)`, or nothing
unfoldable pub find_ed25519_public_key : Bytes → Bytes
unfolding has_prefix
find_ed25519_public_key [] = []
find_ed25519_public_key (c ∷ s) =
    let later = find_ed25519_public_key s in
    if has_prefix (c ∷ s) key_type then key_or later (key_chars (skip_bytes 12 (c ∷ s))) else later

abbrev pub is_empty : Bytes → Bool
is_empty [] = true
is_empty (c ∷ s) = false

-- What Write sends as the key of the host: the first key of the output, unless there is none or it is
-- a part of the client's own.
unfoldable pub key_of : Bytes → Bytes → Option Bytes
unfolding find_ed25519_public_key has_substring
key_of client output =
    let match = find_ed25519_public_key output in
    if not (is_empty match) && not (has_substring client match) then some match else none
