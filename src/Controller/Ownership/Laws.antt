-- ===== src/Controller/Ownership/Laws.antt =====
-- What the inferred owner is.
use simple_volume.Base.{
  ◌≡◌, refl, true, ◌&&◌, List, [], ◌∷◌, ◌++◌, Option, none, some, arith, if◌then◌else◌, Bool-cases,
  Option-cases, inl, inr,
}
use simple_volume.Base.Int.{ℤ}
use simple_volume.Text.{Text}
use simple_volume.Controller.Kube.{Pod, Container, SecurityContext}
use simple_volume.Controller.Replication.{OwnershipPolicy}
use simple_volume.Controller.Ownership.{
  empty_policy, claim_volume_names, or_else, is_some, user_of, group_of, pod_group, mounts_any,
  infer_from, infer_for_volumes, infer_ownership_from_pod,
}

or_else_assoc {ℓ} :
    {A : Type ℓ} (a b c : Option A) → or_else (or_else a b) c ≡ or_else a (or_else b c)
unfolding or_else
or_else_assoc (some a) b c = refl
or_else_assoc none b c = refl

or_else-none {ℓ} : {A : Type ℓ} (a : Option A) → or_else a none ≡ a
unfolding or_else
or_else-none (some a) = refl
or_else-none none = refl

or_else_known {ℓ} : {A : Type ℓ} (a b : Option A) → is_some a ≡ true → or_else a b ≡ a
unfolding or_else is_some
or_else_known (some a) b h = refl
or_else_known none b h = cc h

module _ {Q : Type 0} where
  -- The first id among the containers that mount a volume of the claim.
  pub first_id : (Option SecurityContext → Option ℤ) → List (Container Q) → List Text → Option ℤ
  first_id id [] names = none
  first_id id (c ∷ cs) names =
      let rest = first_id id cs names in
      if mounts_any c names then or_else (id c.security_context) rest else rest

  infer_from_lem :
      (cs : List (Container Q)) (names : List Text) (p : OwnershipPolicy)
      → infer_from cs names p ≡ record p {
        uid = or_else p.uid (first_id user_of cs names);
        gid = or_else p.gid (first_id group_of cs names);
      }
  unfolding infer_from first_id user_of group_of is_some
  infer_from_lem [] names p = cc (or_else-none p.uid, or_else-none p.gid)
  infer_from_lem (c ∷ cs) names p = elim (Bool-cases (mounts_any c names)) [
    | inr m ↦ rw m (infer_from_lem cs names p)
    | inl m ↦ elim (Option-cases c.security_context) [
      | inl n ↦ rw (m, n) (infer_from_lem cs names p)
      | inr (sc, e) ↦
          let next : OwnershipPolicy = record p {
            uid = or_else p.uid sc.run_as_user;
            gid = or_else p.gid sc.run_as_group;
          } in
          elim (Bool-cases (is_some next.uid && is_some next.gid)) [
            | inl k ↦
                rw (m, e, k)
                  (cc (
                    or_else_assoc p.uid sc.run_as_user (first_id user_of cs names),
                    or_else_assoc p.gid sc.run_as_group (first_id group_of cs names),
                    or_else_known next.uid (first_id user_of cs names) (ground (arith, k)),
                    or_else_known next.gid (first_id group_of cs names) (ground (arith, k)),
                  ))
            | inr k ↦
                rw (m, e, k)
                  (cc (
                    infer_from_lem cs names next,
                    or_else_assoc p.uid sc.run_as_user (first_id user_of cs names),
                    or_else_assoc p.gid sc.run_as_group (first_id group_of cs names),
                  ))
          ]
    ]
  ]

  -- The owner for the names of the volumes of the claim, without the early ends of the loop.
  abbrev pub first_owner : Pod Q → List Text → OwnershipPolicy
  first_owner pod [] = empty_policy
  first_owner pod (n ∷ ns) =
      let containers = pod.init_containers ++ pod.containers in
      record empty_policy {
        uid = or_else (user_of pod.security_context) (first_id user_of containers (n ∷ ns));
        gid = or_else (pod_group pod.security_context) (first_id group_of containers (n ∷ ns));
      }

  infer_for_volumes_lem :
      (pod : Pod Q) (names : List Text) → infer_for_volumes pod names ≡ first_owner pod names
  unfolding infer_for_volumes
  infer_for_volumes_lem pod [] = refl
  infer_for_volumes_lem pod (n ∷ ns) =
      let u = user_of pod.security_context in
      let g = pod_group pod.security_context in
      let containers = pod.init_containers ++ pod.containers in
      elim (Bool-cases (is_some u && is_some g)) [
        | inl k ↦ rw k (
            cc (
              or_else_known u (first_id user_of containers (n ∷ ns)) (ground (arith, k)),
              or_else_known g (first_id group_of containers (n ∷ ns)) (ground (arith, k)),
            ))
        | inr k ↦
            rw k (infer_from_lem containers (n ∷ ns) (record empty_policy { uid = u; gid = g }))
      ]

  -- A pod without a volume of the claim gives no owner. Otherwise each id is the pod's own, or else
  -- the first one among its init containers and containers that mount such a volume, whether or not
  -- the other id is known earlier.
  pub infer_ownership_from_pod_lem :
      (pod : Pod Q) (claim : Text)
      → infer_ownership_from_pod pod claim ≡ first_owner pod (claim_volume_names pod.volumes claim)
  unfolding infer_ownership_from_pod
  infer_ownership_from_pod_lem pod claim =
      infer_for_volumes_lem pod (claim_volume_names pod.volumes claim)
