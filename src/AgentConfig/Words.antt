-- ===== src/AgentConfig/Words.antt =====
-- agentconfig/agentconfig.go: the words of a setting (parseBool, parseSlice, parseFeatures) and, of Go's
-- package strings, what they use.
use Prim.Native.Char.{code}
use osconfig.Base.{
  ℕ, zero, suc, ◌+◌, ◌-◌, String, ◌<>◌, Bool, true, false, ◌&&◌, ◌||◌, List, [], ◌∷◌, leb, eqb,
  ◌==◌, if◌then◌else◌,
}
use osconfig.Base.Texts.{is_space, is_blank}
use osconfig.AgentConfig.{Config}

-- `strings.Split(s, sep)` at one character.
unfoldable pub split_at : ℕ → String → List String
split_at sep String.[] = "" ∷ []
split_at sep (String.◌∷◌ c s) =
    let rest = split_at sep s in
    if eqb (code c) sep
    then "" ∷ rest
    else elim rest [ [] ↦ String.◌∷◌ c "" ∷ [] | first ∷ others ↦ String.◌∷◌ c first ∷ others ]

abbrev pub trim_left : String → String
trim_left String.[] = ""
trim_left (String.◌∷◌ c s) =
    let rest = trim_left s in if is_space (code c) then rest else String.◌∷◌ c s

abbrev pub trim_right : String → String
trim_right String.[] = ""
trim_right (String.◌∷◌ c s) =
    let rest = trim_right s in if is_blank (String.◌∷◌ c s) then "" else String.◌∷◌ c rest

-- `strings.TrimSpace(s)`
unfoldable pub trim_space : String → String
trim_space s = trim_right (trim_left s)

-- `unicode.ToLower` where the result is a letter of ASCII; U+0130 and U+212A are the two others that
-- have one. What another letter becomes is not in ASCII.
abbrev pub lower : ℕ → ℕ
lower c =
    if leb 65 c && leb c 90
    then c + 32
    else if eqb c 304
    then 105
    else if eqb c 8490
    then 107
    else c

-- `strings.ToLower(s) == word`, for a word in ASCII.
abbrev pub lowers_to : String → String → Bool
lowers_to String.[] String.[] = true
lowers_to String.[] (String.◌∷◌ d t) = false
lowers_to (String.◌∷◌ c s) String.[] = false
lowers_to (String.◌∷◌ c s) (String.◌∷◌ d t) = eqb (lower (code c)) (code d) && lowers_to s t

-- `parseBool`, with `strconv.ParseBool`.
unfoldable pub parse_bool : String → Bool
parse_bool s = s == "1" || (s == "t" || (s == "T" || (s == "true" || (s == "TRUE" || s == "True"))))

-- The loop of `parseSlice`.
unfoldable pub slice_loop : List String → List String
unfolding trim_space
slice_loop [] = []
slice_loop (item ∷ items) =
    let rest = slice_loop items in if trim_space item == "" then rest else trim_space item ∷ rest

unfoldable pub parse_slice : String → List String
parse_slice s = slice_loop (split_at 44 s)

-- The switch of `parseFeatures`, on a word without spaces around it.
unfoldable pub set_feature : String → Bool → Config → Config
set_feature f enabled c =
    if lowers_to f "tasks" || lowers_to f "ospatch"
    then record c { task_notification_enabled = enabled }
    else if lowers_to f "guestpolicies" || lowers_to f "ospackage"
    then record c { guest_policies_enabled = enabled }
    else if lowers_to f "osinventory"
    then record c { os_inventory_enabled = enabled }
    else c

-- The loop of `parseFeatures`.
unfoldable pub features_loop : List String → Bool → Config → Config
features_loop [] enabled c = c
features_loop (f ∷ fs) enabled c = features_loop fs enabled (set_feature (trim_space f) enabled c)

unfoldable pub parse_features : String → Bool → Config → Config
parse_features features enabled c = features_loop (split_at 44 features) enabled c

-- The last of the parts, `parts[len(parts)-1]`; there is one.
abbrev pub last_part : List String → String
last_part [] = ""
last_part (p ∷ []) = p
last_part (p ∷ q ∷ ps) = last_part (q ∷ ps)

abbrev pub starts_with : String → String → Bool
starts_with s String.[] = true
starts_with String.[] (String.◌∷◌ d t) = false
starts_with (String.◌∷◌ c s) (String.◌∷◌ d t) = eqb (code c) (code d) && starts_with s t

abbrev pub count : String → ℕ
count String.[] = 0
count (String.◌∷◌ c s) = suc (count s)

-- The characters that are left of an occurrence are skipped.
abbrev pub replacing : ℕ → String → String → String → String
replacing skip old by String.[] = ""
replacing (suc skip) old by (String.◌∷◌ c s) = replacing skip old by s
replacing zero old by (String.◌∷◌ c s) =
    let rest = replacing zero old by s in
    let skipped = replacing (count old - 1) old by s in
    if starts_with (String.◌∷◌ c s) old then by <> skipped else String.◌∷◌ c rest

-- `strings.ReplaceAll(s, old, by)`, where `old` is not empty.
unfoldable pub replace_all : String → String → String → String
replace_all s old by = replacing 0 old by s
