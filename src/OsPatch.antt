-- ===== src/OsPatch.antt =====
-- ospatch/exclude.go and the filter of ospatch/updates.go. A compiled regular expression is the
-- test that its `MatchString` makes.
pub mod Filter
pub mod Upgrade
pub mod Zypper
mod Tests
use osconfig.Base.{
  String, Bool, true, false, not, ◌&&◌, Option, none, some, List, [], ◌∷◌, Result, ok, err,
  panicked, ◌>>=◌, ◌==◌, if◌then◌else◌, is_empty, contains,
}

-- `Exclude`: a nil pointer is `none`.
pub record Exclude : Type 0 where
  pub is_regexp : Bool
  pub regex : Option (String → Bool)
  pub strict_string : Option String

unfoldable pub create_regex_exclude : (String → Bool) → Exclude
create_regex_exclude regex = record { is_regexp = true; regex = some regex; strict_string = none }

unfoldable pub create_string_exclude : String → Exclude
create_string_exclude strict_string = record {
  is_regexp = false;
  regex = none;
  strict_string = some strict_string;
}

-- A use of a nil pointer panics.
abbrev pub deref : {A : Type 0} → Option A → Result String A
deref none = panicked "nil pointer dereference"
deref (some a) = ok a

-- `(*Exclude).MatchesName`
unfoldable pub matches_name : Exclude → String → Result String Bool
matches_name exclude name =
    if exclude.is_regexp
    then (do regex ← deref exclude.regex; ok (regex name))
    else (do strict_string ← deref exclude.strict_string; ok (strict_string == name))

-- The fields of `packages.PkgInfo` that the patch code reads.
pub record PkgInfo : Type 0 where
  pub name : String
  pub raw_arch : String
  pub version : String

unfoldable pub should_package_be_excluded : List Exclude → String → Result String Bool
should_package_be_excluded [] package_name = ok false
should_package_be_excluded (exclude ∷ excludes) package_name = do
  hit ← matches_name exclude package_name
  if hit then ok true else should_package_be_excluded excludes package_name

-- A nil slice is `none`. It allows every name, and an empty slice that is not nil allows none.
unfoldable pub is_exclusive : Option (List String) → String → Bool
is_exclusive none name = true
is_exclusive (some names) name = contains names name

-- `len(exclusivePackages) != 0`
abbrev pub has_names : Option (List String) → Bool
has_names none = false
has_names (some names) = not (is_empty names)

-- The loop of `filterPackages`.
unfoldable pub filter_loop :
    List PkgInfo → Option (List String) → List Exclude → Result String (List PkgInfo)
filter_loop [] exclusive_packages excludes = ok []
filter_loop (pkg ∷ pkgs) exclusive_packages excludes = do
  excluded ← should_package_be_excluded excludes pkg.name
  rest ← filter_loop pkgs exclusive_packages excludes
  ok (
      if excluded
      then rest
      else if is_exclusive exclusive_packages pkg.name
      then pkg ∷ rest
      else rest)

unfoldable pub filter_packages :
    List PkgInfo → Option (List String) → List Exclude → Result String (List PkgInfo)
filter_packages pkgs exclusive_packages excludes =
    if has_names exclusive_packages && not (is_empty excludes)
    then err "exclusivePackages and excludes can not both be non 0"
    else filter_loop pkgs exclusive_packages excludes
