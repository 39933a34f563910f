-- ===== src/Controller/Annotations.antt =====
-- The annotations of internal/controller: their keys, and how replication_controller.go and
-- failover_controller.go read them. `time.ParseDuration` is an argument, since it rounds fractions
-- in floating point.
use simple_volume.Base.{
  ◌*◌, Bool, false, not, ◌||◌, List, [], ◌++◌, Option, none, some, ◌==◌, if◌then◌else◌, option_eq,
  keep, map,
}
use simple_volume.Base.Dict.{Dict, get_or}
use simple_volume.Base.Int.{ℤ, pos, ltb_ℤ}
use simple_volume.Text.{Text, text_eq, codes, is_empty, trim_space, to_lower, split}
use simple_volume.Time.{minute}
use simple_volume.Controller.Kube.{Pvc}

abbrev pub label_prefix : Text
label_prefix = codes "simple-volume.shipstuff.io"

abbrev pub annotation_failover_enabled : Text
annotation_failover_enabled = codes "simple-volume.shipstuff.io/failover-enabled"

abbrev pub annotation_failover_grace_period : Text
annotation_failover_grace_period = codes "simple-volume.shipstuff.io/failover-grace-period"

abbrev pub annotation_failover_max_staleness : Text
annotation_failover_max_staleness = codes "simple-volume.shipstuff.io/failover-max-staleness"

abbrev pub annotation_failover_node_priority : Text
annotation_failover_node_priority = codes "simple-volume.shipstuff.io/failover-node-priority"

abbrev pub annotation_active_node : Text
annotation_active_node = codes "simple-volume.shipstuff.io/active-node"

abbrev pub annotation_previous_active_node : Text
annotation_previous_active_node = codes "simple-volume.shipstuff.io/previous-active-node"

abbrev pub annotation_selected_node : Text
annotation_selected_node = codes "volume.kubernetes.io/selected-node"

abbrev pub annotation_replication_enabled : Text
annotation_replication_enabled = codes "simple-volume.shipstuff.io/replication-enabled"

-- `pvc.Annotations[key]`
abbrev pub annotation : Text → Dict Text Text → Text
annotation key annotations = get_or [] key annotations

unfoldable pub truthy : Text → Bool
truthy value =
    let word = to_lower (trim_space value) in
    word == codes "1"
    || word == codes "t"
    || word == codes "true"
    || word == codes "y"
    || word == codes "yes"
    || word == codes "on"

-- The parts between commas, trimmed, without the empty ones.
unfoldable pub csv_annotation : Text → List Text
csv_annotation value = keep (λ part. not (is_empty part)) (map trim_space (split b',' value))

unfoldable pub replication_enabled : Pvc → Text → Bool
unfolding truthy
replication_enabled pvc storage_class =
    if pvc.storage_class == some storage_class
    then truthy (annotation annotation_replication_enabled pvc.annotations)
    else false

unfoldable pub failover_enabled : Pvc → Text → Bool
unfolding replication_enabled
failover_enabled pvc storage_class =
    if not (replication_enabled pvc storage_class)
    then false
    else truthy (annotation annotation_failover_enabled pvc.annotations)

module _ (parse_duration : Text → Option ℤ) where
  -- The duration of an annotation, with a default for a missing, malformed or negative one.
  duration_or : ℤ → Text → ℤ
  duration_or default value = if is_empty value then default else elim (parse_duration value) [
    | none ↦ default
    | some duration ↦ if ltb_ℤ duration (pos 0) then default else duration
  ]

  unfoldable pub failover_grace_period : Pvc → ℤ
  unfolding duration_or
  failover_grace_period pvc =
      duration_or (pos minute)
        (trim_space (annotation annotation_failover_grace_period pvc.annotations))

  unfoldable pub failover_max_staleness : Pvc → ℤ
  unfolding duration_or
  failover_max_staleness pvc =
      duration_or (pos (2 * minute))
        (trim_space (annotation annotation_failover_max_staleness pvc.annotations))

unfoldable pub failover_node_priority : Pvc → List Text
unfolding csv_annotation
failover_node_priority pvc =
    csv_annotation (annotation annotation_failover_node_priority pvc.annotations)

abbrev pub key_of : Text → Text → Text
key_of namespace name = namespace ++ codes "/" ++ name

-- `pvcKey`
abbrev pub pvc_key : Pvc → Text
pvc_key pvc = key_of pvc.namespace pvc.name

-- `volumeKey`
abbrev pub volume_key : Text → Text → Text
volume_key namespace volume = key_of namespace volume
