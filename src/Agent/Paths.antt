-- ===== src/Agent/Paths.antt =====
-- internal/agent/agent.go: `safeSegment`, which makes a directory's name of a namespace or a volume.
pub mod Laws
use simple_volume.Base.{ℕ, Bool, true, false, ◌&&◌, List, [], ◌∷◌, if◌then◌else◌, eqb, map}
use simple_volume.Text.{Text, codes, is_empty, trim, trim_space}
use simple_volume.Controller.Labels.{is_label_char, is_dash_or_dot}

-- `strings.ReplaceAll(s, "..", "")`.
unfoldable pub remove_double_dots : Text → Text
remove_double_dots [] = []
remove_double_dots (c ∷ []) = c ∷ []
remove_double_dots (c ∷ d ∷ s) =
    let skipped = remove_double_dots s in
    let kept = c ∷ remove_double_dots (d ∷ s) in if eqb c b'.' && eqb d b'.' then skipped else kept

-- The characters that are kept are those of a label.
unfoldable pub safe_char : ℕ → ℕ
unfolding is_label_char
safe_char c = if is_label_char c then c else b'-'

-- `safeSegment` without its default.
unfoldable pub clean_segment : Text → Text
unfolding remove_double_dots safe_char trim is_dash_or_dot trim_space
clean_segment s = trim is_dash_or_dot (map safe_char (remove_double_dots (trim_space s)))

unfoldable pub safe_segment : Text → Text
unfolding clean_segment
safe_segment s = let t = clean_segment s in if is_empty t then codes "default" else t
