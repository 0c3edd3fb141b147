-- ===== src/OsPatch/Filter.antt =====
-- The filter against its description: which packages pass, and that no nil pointer is used.
use osconfig.Base.{
  ◌≡◌, refl, ◌≢◌, String, Bool, false, not, ◌&&◌, Option, none, some, true, List, [], ◌∷◌, arith,
  ok, err, ◌==◌, if◌then◌else◌, is_empty, contains, any, select, All,
}
use osconfig.OsPatch.{
  Exclude, create_regex_exclude, create_string_exclude, matches_name, PkgInfo,
  should_package_be_excluded, is_exclusive, has_names, filter_loop, filter_packages,
}

-- The pointer that `MatchesName` follows is not nil.
abbrev pub IsMade : Exclude → Type 0
IsMade e = if e.is_regexp then e.regex ≢ none else e.strict_string ≢ none

-- The names that an exclude stands for.
abbrev pub hits : String → Exclude → Bool
hits name e =
    if e.is_regexp
    then elim e.regex [ none ↦ false | some regex ↦ regex name ]
    else elim e.strict_string [ none ↦ false | some text ↦ text == name ]

-- The names that the exclusive list lets pass: all where there is no list, and else those in it.
abbrev pub allowed : Option (List String) → String → Bool
allowed none name = true
allowed (some names) name = any (λ n. n == name) names

abbrev pub wanted : Option (List String) → List Exclude → PkgInfo → Bool
wanted exclusive_packages excludes pkg =
    not (any (hits pkg.name) excludes) && allowed exclusive_packages pkg.name

contains-eq-any :
    (names : List String) (name : String) → contains names name ≡ any (λ n. n == name) names
contains-eq-any [] name = refl
contains-eq-any (n ∷ names) name = ground (arith, contains-eq-any names name)

is_exclusive-eq-allowed :
    (exclusive_packages : Option (List String)) (name : String)
    → is_exclusive exclusive_packages name ≡ allowed exclusive_packages name
unfolding is_exclusive
is_exclusive-eq-allowed none name = refl
is_exclusive-eq-allowed (some names) name = contains-eq-any names name

pub create_regex_exclude-IsMade : (regex : String → Bool) → IsMade (create_regex_exclude regex)
unfolding create_regex_exclude
create_regex_exclude-IsMade regex = λ e. cc

pub create_string_exclude-IsMade : (text : String) → IsMade (create_string_exclude text)
unfolding create_string_exclude
create_string_exclude-IsMade text = λ e. cc

matches_name-eq-hits :
    (e : Exclude) (name : String) → IsMade e → matches_name e name ≡ ok (hits name e)
unfolding matches_name
matches_name-eq-hits e name h = ground arith

pub should_package_be_excluded-eq-any :
    (excludes : List Exclude) (name : String)
    → All IsMade excludes
    → should_package_be_excluded excludes name ≡ ok (any (hits name) excludes)
unfolding should_package_be_excluded
should_package_be_excluded-eq-any [] name h = refl
should_package_be_excluded-eq-any (e ∷ es) name h =
    ground (arith, matches_name-eq-hits e name h.0, should_package_be_excluded-eq-any es name h.1)

filter_loop-eq-select :
    (pkgs : List PkgInfo) (exclusive_packages : Option (List String)) (excludes : List Exclude)
    → All IsMade excludes
    → filter_loop pkgs exclusive_packages excludes
      ≡ ok (select (wanted exclusive_packages excludes) pkgs)
unfolding filter_loop
filter_loop-eq-select [] exclusive_packages excludes h = refl
filter_loop-eq-select (pkg ∷ pkgs) exclusive_packages excludes h =
    rw (should_package_be_excluded-eq-any excludes pkg.name h) (
      rw (filter_loop-eq-select pkgs exclusive_packages excludes h)
        (ground (arith, is_exclusive-eq-allowed exclusive_packages pkg.name)))

-- With excludes made by the two constructors, the filter panics never. It refuses exclusive
-- packages together with excludes, and otherwise keeps, in order, the packages that no exclude
-- matches and that the exclusive list, where there is one, names.
pub filter_packages_lem :
    (pkgs : List PkgInfo) (exclusive_packages : Option (List String)) (excludes : List Exclude)
    → All IsMade excludes
    → filter_packages pkgs exclusive_packages excludes ≡ (
        if has_names exclusive_packages && not (is_empty excludes)
        then err "exclusivePackages and excludes can not both be non 0"
        else ok (select (wanted exclusive_packages excludes) pkgs))
unfolding filter_packages
filter_packages_lem pkgs exclusive_packages excludes h =
    rw (filter_loop-eq-select pkgs exclusive_packages excludes h)
