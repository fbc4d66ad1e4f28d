-- ===== src/Storage/Paths.antt =====
-- The paths of pkg/storage: `Local.path`, `Writer.scopedKey`, and what they use of Go's `filepath` and
-- `path`, by the rules in the documentation of `Clean` and `Dir`.
pub mod Inside
use Prim.Native.Char.{code}
use Prim.Native.String.{String, ◌++◌}
use stark8s.Prelude.{
  Bool, true, false, Option, none, some, List, [], ◌∷◌, ◌==◌, ◌||◌, nat_beq, if◌then◌else◌,
  string_eq,
}

abbrev add_to_first : String → List String → List String
add_to_first c [] = c ∷ []
add_to_first c (part ∷ parts) = (c ++ part) ∷ parts

-- The parts of a path between its slashes (the character 47).
unfoldable pub split_path : String → List String
split_path String.[] = "" ∷ []
split_path (String.◌∷◌ c s) =
    let rest = split_path s in
    if nat_beq (code c) 47 then "" ∷ rest else add_to_first (String.◌∷◌ c "") rest

-- One part of a path, on the parts before it, the last first.
abbrev pub clean_up : Bool → List String → List String
clean_up rooted [] = if rooted then [] else ".." ∷ []
clean_up rooted (p ∷ ps) = if p == ".." then ".." ∷ p ∷ ps else ps

abbrev pub clean_part : Bool → List String → String → List String
clean_part rooted out part =
    if part == "" || part == "."
    then out
    else if part == ".."
    then clean_up rooted out
    else part ∷ out

unfoldable pub clean_parts : Bool → List String → List String → List String
clean_parts rooted out [] = out
clean_parts rooted out (part ∷ parts) = clean_parts rooted (clean_part rooted out part) parts

abbrev pub reverse_onto : List String → List String → List String
reverse_onto [] ys = ys
reverse_onto (x ∷ xs) ys = reverse_onto xs (x ∷ ys)

unfoldable pub join : List String → String
join [] = ""
join (p ∷ []) = p
join (p ∷ q ∷ ps) = p ++ "/" ++ join (q ∷ ps)

abbrev pub is_abs : String → Bool
is_abs String.[] = false
is_abs (String.◌∷◌ c s) = nat_beq (code c) 47

abbrev pub print_path : Bool → List String → String
print_path true parts = "/" ++ join parts
print_path false [] = "."
print_path false parts = join parts

unfoldable pub clean : String → String
unfolding split_path clean_parts join
clean path =
    print_path (is_abs path) (reverse_onto (clean_parts (is_abs path) [] (split_path path)) [])

-- Whether a path begins with "../".
abbrev pub starts_above : String → Bool
starts_above (String.◌∷◌ a (String.◌∷◌ b (String.◌∷◌ c s))) =
    if nat_beq (code a) 46
    then (if nat_beq (code b) 46 then nat_beq (code c) 47 else false)
    else false
starts_above _ = false

-- `Local.path` without the directory of the store, which is put in front of every path.
abbrev pub check_path : String → String → Option String
check_path key path =
    if key == "" || is_abs path || path == ".." || starts_above path then none else some path

unfoldable pub local_path : String → Option String
unfolding clean
local_path key = check_path key (clean key)

-- The parts of a path up to its last slash.
abbrev all_but_last : List String → List String
all_but_last [] = []
all_but_last (p ∷ []) = []
all_but_last (p ∷ q ∷ ps) = p ∷ all_but_last (q ∷ ps)

-- `path.Dir`
unfoldable pub dir : String → String
unfolding split_path clean_parts join
dir path =
    print_path (is_abs path)
      (reverse_onto (clean_parts (is_abs path) [] (all_but_last (split_path path))) [])

-- `scopedKey`: a key in the directory of the checkpoint.
abbrev scope_in : String → String → String
scope_in directory key = if directory == "." then key else directory ++ "/" ++ key

unfoldable pub scoped_key : String → String → String
unfolding dir
scoped_key checkpoint_key key = scope_in (dir checkpoint_key) key
