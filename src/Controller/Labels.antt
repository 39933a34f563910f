-- ===== src/Controller/Labels.antt =====
-- internal/controller/labels.go.
pub mod Laws
use simple_volume.Base.{
  ℕ, Bool, true, false, not, ◌&&◌, ◌||◌, List, [], ◌∷◌, ◌++◌, if◌then◌else◌, eqb, leb, ltb, take,
  length,
}
use simple_volume.Text.{Text, codes, is_empty, to_lower, replace_char, trim}
use simple_volume.Controller.Annotations.{label_prefix}

-- The characters that `labelUnsafe` does not match.
unfoldable pub is_label_char : ℕ → Bool
is_label_char c =
    (leb b'a' c && leb c b'z')
    || (leb b'0' c && leb c b'9')
    || (leb b'A' c && leb c b'Z')
    || eqb c b'_'
    || eqb c b'.'
    || eqb c b'-'

-- `labelUnsafe.ReplaceAllString(id, "-")`: each run of other characters becomes one dash. The flag
-- is set inside a run.
unfoldable pub replace_unsafe : Bool → Text → Text
unfolding is_label_char
replace_unsafe in_run [] = []
replace_unsafe in_run (c ∷ s) =
    let rest = replace_unsafe (not (is_label_char c)) s in
    if is_label_char c then c ∷ rest else if in_run then rest else b'-' ∷ rest

-- The cutset `-.`.
unfoldable pub is_dash_or_dot : ℕ → Bool
is_dash_or_dot c = eqb c b'-' || eqb c b'.'

-- `VolumeLabelID` after its first two lines. Its characters are ASCII where it is cut, so its
-- length is the number of its bytes.
unfoldable pub clean_label_id : Text → Text
unfolding replace_unsafe is_dash_or_dot
clean_label_id name =
    let id = trim is_dash_or_dot (replace_unsafe false (replace_char b'/' b'.' (to_lower name))) in
    if is_empty id
    then codes "volume"
    else if ltb 45 (length id)
    then trim is_dash_or_dot (take 45 id)
    else id

unfoldable pub volume_label_id : Text → Text → Text
volume_label_id namespace name =
    clean_label_id (if is_empty namespace then name else namespace ++ codes "." ++ name)

abbrev slash : Text
slash = codes "/"

unfoldable pub healthy_label : Text → Text → Text
healthy_label namespace name =
    label_prefix ++ slash ++ volume_label_id namespace name ++ codes "-healthy"

unfoldable pub role_label : Text → Text → Text
role_label namespace name = label_prefix ++ slash ++ volume_label_id namespace name ++ codes "-role"

unfoldable pub candidate_label : Text → Text → Text
candidate_label namespace name =
    label_prefix ++ slash ++ volume_label_id namespace name ++ codes "-candidate"

unfoldable pub pool_label : Text → Text
pool_label pool = label_prefix ++ codes "/pool-" ++ volume_label_id [] pool
