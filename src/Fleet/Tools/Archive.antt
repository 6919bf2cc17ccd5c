-- ===== src/Fleet/Tools/Archive.antt =====
-- ValidateZip: the archive holds every executable of the fleet.
use amazon_gamelift_toolkit.Base.{◌≡◌, ◌↔◌, refl, subst, true, List, [], ◌∷◌, arith}
use amazon_gamelift_toolkit.Base.Eq.{bytes_beq_iff}
use amazon_gamelift_toolkit.Base.Elem.{Elem}
use amazon_gamelift_toolkit.Base.Result.{Result, ok, err, panic}
use amazon_gamelift_toolkit.Go.Text.{Bytes, codes, All, Lacks}
use amazon_gamelift_toolkit.Go.Replace.{replace_all, replace_all-Lacks}
use amazon_gamelift_toolkit.Fleet.{ServiceError}
use amazon_gamelift_toolkit.Fleet.Tools.{normalized, is_file_in_zip, find_executables, validate_zip}

is_file_in_zip_iff :
    (names : List Bytes) (file : Bytes) → (is_file_in_zip names file ≡ true) ↔ Elem file names
unfolding is_file_in_zip
is_file_in_zip_iff [] file = ground arith
is_file_in_zip_iff (name ∷ names) file =
    ground (arith, bytes_beq_iff name file, is_file_in_zip_iff names file)

normalized-Lacks : (path : Bytes) → Lacks b'\\' (normalized path)
unfolding normalized
normalized-Lacks path =
    replace_all-Lacks b'\\' b'/'
      (replace_all (replace_all path (codes "C:\\game\\") []) (codes "/local/game/") [])
      (λ e. absurd (omega arith))

-- Every path is in the archive as a path with slashes.
abbrev pub IsFound : List Bytes → List Bytes → Type 0
IsFound names = All (λ path. Elem (normalized path) names × Lacks b'\\' (normalized path))

find_executables-ok_iff :
    (names paths : List Bytes) → (find_executables names paths ≡ ok tt) ↔ IsFound names paths
unfolding find_executables
find_executables-ok_iff names [] = ground arith
find_executables-ok_iff names (path ∷ paths) = ground (
  arith,
  is_file_in_zip_iff names (normalized path),
  normalized-Lacks path,
  find_executables-ok_iff names paths,
)

-- The archive passes exactly if it can be opened and holds every executable of the fleet, under
-- its normalized path, which has no backslash.
pub validate_zip-ok_iff :
    (archive : Result ServiceError (List Bytes)) (paths : List Bytes)
    → (validate_zip archive paths ≡ ok tt)
      ↔ ((names : List Bytes) × (archive ≡ ok names) × IsFound names paths)
unfolding validate_zip
validate_zip-ok_iff (err e) paths = ground arith
validate_zip-ok_iff panic paths = ground arith
validate_zip-ok_iff (ok names) paths = (
  λ h. (names, refl, (find_executables-ok_iff names paths).0 h),
  λ s.
      let e : s.0 ≡ names = ground arith in
      (find_executables-ok_iff names paths).1 (subst (λ ns. IsFound ns paths) e s.2),
)
