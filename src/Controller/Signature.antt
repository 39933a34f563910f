-- ===== src/Controller/Signature.antt =====
-- internal/controller/replication_controller.go: the signature of what is desired, by which a watch is
-- told to be the one that was started.
pub mod RoundTrip
use simple_volume.Base.{
  ℕ, ◌-◌, ◌^◌, Bool, true, false, List, [], ◌∷◌, ◌++◌, Option, none, some, ltb, if◌then◌else◌,
}
use simple_volume.Base.Int.{ℤ, pos, negsuc}
use simple_volume.Text.{Text, codes, join}
use simple_volume.Text.Number.{print_digits, print_int}
use simple_volume.Controller.Replication.{
  ConsistencyMode, shadow, live, OwnershipPolicy, DesiredTarget, DesiredReplication,
}

unfoldable pub optional_int64_string : Option ℤ → Text
unfolding print_int
optional_int64_string none = []
optional_int64_string (some value) = print_int value

unfoldable pub optional_mode_string : Option ℕ → Text
unfolding print_digits
optional_mode_string none = []
optional_mode_string (some value) = print_digits 8 value

unfoldable pub ownership_signature : OwnershipPolicy → Text
unfolding optional_int64_string optional_mode_string join
ownership_signature policy = join (codes ",") (
    (codes "uid=" ++ optional_int64_string policy.uid)
    ∷ (codes "gid=" ++ optional_int64_string policy.gid)
    ∷ (codes "fileMode=" ++ optional_mode_string policy.file_mode)
    ∷ (codes "dirMode=" ++ optional_mode_string policy.dir_mode)
    ∷ [])

unfoldable pub target_signatures : List DesiredTarget → Text
target_signatures [] = []
target_signatures (t ∷ ts) =
    t.node ++ codes "=" ++ t.url ++ codes ":" ++ t.token ++ codes "," ++ target_signatures ts

-- `strconv.FormatBool`.
unfoldable pub print_bool : Bool → Text
print_bool b = if b then codes "true" else codes "false"

unfoldable pub mode_string : ConsistencyMode → Text
mode_string shadow = codes "shadow"
mode_string live = codes "live"

unfoldable pub signature : DesiredReplication → Text
unfolding target_signatures join print_bool ownership_signature mode_string print_int
signature d =
    d.source_url
    ++ codes "|"
    ++ target_signatures d.targets
    ++ codes "|"
    ++ join (codes ",") d.include_paths
    ++ codes "|"
    ++ join (codes ",") d.exclude_paths
    ++ codes "|"
    ++ print_bool d.prune_excluded
    ++ codes "|"
    ++ ownership_signature d.ownership
    ++ codes "|"
    ++ d.debounce
    ++ codes "|"
    ++ mode_string d.consistency_mode
    ++ codes "|"
    ++ print_int d.confirmed_replicas

-- The number that the bits of an `int64` stand for.
unfoldable pub int64_of_bits : ℕ → ℤ
int64_of_bits n = if ltb n (2 ^ 63) then pos n else negsuc (2 ^ 64 - n - 1)

unfoldable pub epoch_signature : ℕ → DesiredReplication → Text
unfolding signature int64_of_bits print_int
epoch_signature epoch d =
    codes "epoch=" ++ print_int (int64_of_bits epoch) ++ codes ":" ++ signature d
