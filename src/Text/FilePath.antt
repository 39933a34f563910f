-- ===== src/Text/FilePath.antt =====
-- The functions `Clean` and `Join` of Go's packages `path` and `path/filepath`, on Linux.
pub mod Laws
pub mod Joins
use mathlib.Core.List.{reverse}
use simple_volume.Base.{
  Bool, true, false, ◌&&◌, ◌||◌, List, [], ◌∷◌, ◌++◌, eqb, ◌==◌, if◌then◌else◌,
}
use simple_volume.Text.{Text, text_eq, codes, is_empty, has_prefix, split, join}

unfoldable pub is_rooted : Text → Bool
is_rooted [] = false
is_rooted (c ∷ s) = eqb c b'/'

-- The parts so far, the last one first, after "..".
unfoldable pub go_up : Bool → List Text → List Text
go_up rooted [] = if rooted then [] else codes ".." ∷ []
go_up rooted (top ∷ stack) = if top == codes ".." then codes ".." ∷ top ∷ stack else stack

unfoldable pub clean_part : Bool → List Text → Text → List Text
unfolding go_up
clean_part rooted stack part =
    if part == [] || part == codes "."
    then stack
    else if part == codes ".."
    then go_up rooted stack
    else part ∷ stack

unfoldable pub clean_stack : Bool → List Text → List Text → List Text
unfolding clean_part
clean_stack rooted stack [] = stack
clean_stack rooted stack (part ∷ parts) = clean_stack rooted (clean_part rooted stack part) parts

unfoldable pub clean_parts : Text → List Text
unfolding clean_stack is_rooted split
clean_parts s = reverse (clean_stack (is_rooted s) [] (split b'/' s))

-- A rooted or a relative path of some parts.
unfoldable pub print_path : Bool → List Text → Text
unfolding join
print_path true parts = b'/' ∷ join (codes "/") parts
print_path false [] = codes "."
print_path false (part ∷ parts) = join (codes "/") (part ∷ parts)

-- `path.Clean`, which is `filepath.Clean` on Linux.
unfoldable pub clean_path : Text → Text
unfolding clean_parts print_path is_rooted
clean_path s = print_path (is_rooted s) (clean_parts s)

-- `filepath.Join`.
unfoldable pub join_path : List Text → Text
unfolding is_empty clean_path join
join_path [] = []
join_path (part ∷ parts) =
    let rest = join_path parts in
    if is_empty part then rest else clean_path (join (codes "/") (part ∷ parts))

-- `full == root || strings.HasPrefix(full, root+"/")`.
unfoldable pub is_inside : Text → Text → Bool
unfolding has_prefix
is_inside root full = full == root || has_prefix full (root ++ codes "/")
