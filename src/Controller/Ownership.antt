-- ===== src/Controller/Ownership.antt =====
-- internal/controller/replication_controller.go: who owns the replicated files.
pub mod Laws
use simple_volume.Base.{
  ℕ, Bool, true, false, not, ◌&&◌, ◌||◌, List, [], ◌∷◌, ◌++◌, Option, none, some, ◌==◌,
  if◌then◌else◌, leb, any, contains, option_eq,
}
use simple_volume.Base.Dict.{Dict}
use simple_volume.Base.Int.{ℤ, pos, negsuc, ltb_ℤ}
use simple_volume.Text.{Text, codes, text_eq, is_empty, trim_space}
use simple_volume.Text.Number.{parse_int, parse_uint}
use simple_volume.Controller.Kube.{Pod, Volume, Container, SecurityContext}
use simple_volume.Controller.Annotations.{annotation, label_prefix}
use simple_volume.Controller.Replication.{OwnershipPolicy}

abbrev pub empty_policy : OwnershipPolicy
empty_policy = record { uid = none; gid = none; file_mode = none; dir_mode = none }

unfoldable pub claim_volume_names : List Volume → Text → List Text
claim_volume_names [] claim = []
claim_volume_names (v ∷ vs) claim =
    let rest = claim_volume_names vs claim in if v.claim == some claim then v.name ∷ rest else rest

unfoldable pub or_else {ℓ} : {A : Type ℓ} → Option A → Option A → Option A
or_else (some a) b = some a
or_else none b = b

unfoldable pub user_of : Option SecurityContext → Option ℤ
user_of none = none
user_of (some c) = c.run_as_user

unfoldable pub group_of : Option SecurityContext → Option ℤ
group_of none = none
group_of (some c) = c.run_as_group

-- The group of a pod is its `RunAsGroup`, or else its `FSGroup`.
unfoldable pub pod_group : Option SecurityContext → Option ℤ
unfolding or_else
pod_group none = none
pod_group (some c) = or_else c.run_as_group c.fs_group

unfoldable pub is_some {ℓ} : {A : Type ℓ} → Option A → Bool
is_some none = false
is_some (some a) = true

module _ {Q : Type 0} where
  unfoldable pub mounts_any : Container Q → List Text → Bool
  mounts_any c names = any (λ m. contains names m) c.mounts

  -- The loop over the containers, which ends where both ids are known.
  unfoldable pub infer_from : List (Container Q) → List Text → OwnershipPolicy → OwnershipPolicy
  unfolding mounts_any user_of group_of or_else is_some
  infer_from [] names policy = policy
  infer_from (c ∷ cs) names policy =
      let next : OwnershipPolicy = record policy {
        uid = or_else policy.uid (user_of c.security_context);
        gid = or_else policy.gid (group_of c.security_context);
      } in
      let rest = infer_from cs names next in
      let skipped = infer_from cs names policy in
      if not (mounts_any c names) || not (is_some c.security_context)
      then skipped
      else if is_some next.uid && is_some next.gid
      then next
      else rest

  -- The same for the names of the volumes of the claim.
  unfoldable pub infer_for_volumes : Pod Q → List Text → OwnershipPolicy
  unfolding infer_from pod_group user_of is_some
  infer_for_volumes pod [] = empty_policy
  infer_for_volumes pod (n ∷ ns) =
      let policy : OwnershipPolicy = record empty_policy {
        uid = user_of pod.security_context;
        gid = pod_group pod.security_context;
      } in
      if is_some policy.uid && is_some policy.gid
      then policy
      else infer_from (pod.init_containers ++ pod.containers) (n ∷ ns) policy

  unfoldable pub infer_ownership_from_pod : Pod Q → Text → OwnershipPolicy
  unfolding claim_volume_names infer_for_volumes
  infer_ownership_from_pod pod claim = infer_for_volumes pod (claim_volume_names pod.volumes claim)

unfoldable pub merge_ownership_policy : OwnershipPolicy → OwnershipPolicy → OwnershipPolicy
unfolding or_else
merge_ownership_policy base override = record {
  uid = or_else override.uid base.uid;
  gid = or_else override.gid base.gid;
  file_mode = or_else override.file_mode base.file_mode;
  dir_mode = or_else override.dir_mode base.dir_mode;
}

-- An annotation that is not set gives `some none`, and `none` is an error.
unfoldable pub parse_optional_id : Dict Text Text → Text → Option (Option ℤ)
parse_optional_id annotations key =
    let value = trim_space (annotation key annotations) in
    if is_empty value then some none else elim (parse_int value) [
      | none ↦ none
      | some n ↦ if ltb_ℤ n (pos 0) then none else some (some n)
    ]

-- A mode is an octal number up to 07777.
unfoldable pub parse_optional_mode : Dict Text Text → Text → Option (Option ℕ)
parse_optional_mode annotations key =
    let value = trim_space (annotation key annotations) in
    if is_empty value then some none else elim (parse_uint 8 32 value) [
      | none ↦ none
      | some n ↦ if leb n 4095 then some (some n) else none
    ]

abbrev pub annotation_owner_uid : Text
annotation_owner_uid = label_prefix ++ codes "/replication-owner-uid"

abbrev pub annotation_owner_gid : Text
annotation_owner_gid = label_prefix ++ codes "/replication-owner-gid"

abbrev pub annotation_file_mode : Text
annotation_file_mode = label_prefix ++ codes "/replication-file-mode"

abbrev pub annotation_dir_mode : Text
annotation_dir_mode = label_prefix ++ codes "/replication-dir-mode"

infixl 5 ◌>>=◌
abbrev ◌>>=◌ : {A B : Type 0} → Option A → (A → Option B) → Option B
none >>= f = none
some a >>= f = f a

unfoldable pub ownership_policy_from_annotations : Dict Text Text → Option OwnershipPolicy
unfolding parse_optional_id parse_optional_mode
ownership_policy_from_annotations annotations = do
  uid ← parse_optional_id annotations annotation_owner_uid
  gid ← parse_optional_id annotations annotation_owner_gid
  file_mode ← parse_optional_mode annotations annotation_file_mode
  dir_mode ← parse_optional_mode annotations annotation_dir_mode
  some (record { uid = uid; gid = gid; file_mode = file_mode; dir_mode = dir_mode })
