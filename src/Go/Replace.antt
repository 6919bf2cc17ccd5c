-- ===== src/Go/Replace.antt =====
-- Go functions on texts that the fleet tool calls: strings.ReplaceAll and strings.Contains,
-- strings.Join, and filepath.Base on Unix.
use mathlib.Core.List.{reverse}
use amazon_gamelift_toolkit.Base.{
  ℕ, zero, suc, ◌-◌, ◌≡◌, ◌≢◌, refl, Bool, ◌||◌, List, [], ◌∷◌, ◌++◌, arith, ◌==◌, if◌then◌else◌,
  length,
}
use amazon_gamelift_toolkit.Go.Text.{Bytes, codes, Lacks, has_prefix}

-- strings.Contains
unfoldable pub has_substring : Bytes → Bytes → Bool
unfolding has_prefix
has_substring [] p = has_prefix [] p
has_substring (c ∷ s) p = has_prefix (c ∷ s) p || has_substring s p

-- strings.ReplaceAll of a text that is not empty; the count is of the bytes still to be skipped.
unfoldable pub replace_from : Bytes → Bytes → ℕ → Bytes → Bytes
unfolding has_prefix
replace_from old new skip [] = []
replace_from old new (suc skip) (c ∷ s) = replace_from old new skip s
replace_from old new zero (c ∷ s) =
    let rest = replace_from old new 0 s in
    let after = replace_from old new (length old - 1) s in
    if has_prefix (c ∷ s) old then new ++ after else c ∷ rest

unfoldable pub replace_all : Bytes → Bytes → Bytes → Bytes
unfolding replace_from
replace_all s old new = replace_from old new 0 s

-- strings.Join
unfoldable pub join : List Bytes → Bytes → Bytes
join [] sep = []
join (s ∷ []) sep = s
join (s ∷ t ∷ more) sep = s ++ sep ++ join (t ∷ more) sep

abbrev drop_slashes : Bytes → Bytes
drop_slashes [] = []
drop_slashes (c ∷ s) = let rest = drop_slashes s in if c == b'/' then rest else c ∷ s

abbrev upto_slash : Bytes → Bytes
upto_slash [] = []
upto_slash (c ∷ s) = let rest = upto_slash s in if c == b'/' then [] else c ∷ rest

abbrev base_of : Bytes → Bytes → Bytes
base_of [] path = codes "."
base_of (c ∷ s) [] = codes "/"
base_of (c ∷ s) (r ∷ rs) = reverse (upto_slash (r ∷ rs))

-- filepath.Base, on the path reversed
unfoldable pub base : Bytes → Bytes
base path = base_of path (drop_slashes (reverse path))

-- A byte replaced by another that differs is gone.
pub replace_all-Lacks : (b c : ℕ) (s : Bytes) → c ≢ b → Lacks b (replace_all s (b ∷ []) (c ∷ []))
unfolding replace_all replace_from has_prefix
replace_all-Lacks b c [] h = tt
replace_all-Lacks b c (x ∷ s) h = ground (arith, replace_all-Lacks b c s h)

replace_all_example :
    replace_all (codes "C:\\game\\a\\b.exe") (codes "C:\\game\\") [] ≡ codes "a\\b.exe"
unfolding replace_all replace_from has_prefix
replace_all_example = refl

base_example : base (codes "/tmp/x/update.sh/") ≡ codes "update.sh"
unfolding base
base_example = refl
