-- ===== src/Controller/Kube.antt =====
-- The Kubernetes objects that the controllers read and write, with the fields that they use. `Q` is
-- the type of `resource.Quantity`.
use simple_volume.Base.{Bool, List, Option, Eq}
use simple_volume.Base.Dict.{Dict}
use simple_volume.Base.Int.{ℤ}
use simple_volume.Text.{Text}
use simple_volume.Time.{Time}

pub data PodPhase : Type 0 where
  pending running succeeded failed unknown : PodPhase

PodPhase-discrete : Discrete PodPhase
PodPhase-discrete = hlevel

instance unfoldable pub phase_eq : Eq PodPhase
unfolding PodPhase-discrete
phase_eq = record { dec = PodPhase-discrete }

pub data ResourceName : Type 0 where
  cpu memory other_resource : ResourceName

ResourceName-discrete : Discrete ResourceName
ResourceName-discrete = hlevel

instance unfoldable pub resource_eq : Eq ResourceName
unfolding ResourceName-discrete
resource_eq = record { dec = ResourceName-discrete }

abbrev pub ResourceList : Type 0 → Type 0
ResourceList Q = Dict ResourceName Q

-- A condition of a pod or of a node: whether it is the `Ready` one, and whether its status is
-- `True`.
pub record Condition : Type 0 where
  pub is_ready : Bool
  pub is_true : Bool

pub record Volume : Type 0 where
  pub name : Text
  pub claim : Option Text

pub record SecurityContext : Type 0 where
  pub run_as_user : Option ℤ
  pub run_as_group : Option ℤ
  pub fs_group : Option ℤ

pub record Container (Q : Type 0) : Type 0 where
  pub requests : ResourceList Q
  pub security_context : Option SecurityContext
  pub mounts : List Text

pub record Pod (Q : Type 0) : Type 0 where
  pub namespace : Text
  pub name : Text
  pub created : Time
  pub node_name : Text
  pub volumes : List Volume
  pub containers : List (Container Q)
  pub init_containers : List (Container Q)
  pub security_context : Option SecurityContext
  pub phase : PodPhase
  pub pod_ip : Text
  pub conditions : List Condition

pub record Node (Q : Type 0) : Type 0 where
  pub name : Text
  pub labels : Dict Text Text
  pub unschedulable : Bool
  pub conditions : List Condition
  pub allocatable : ResourceList Q

-- A persistent volume claim. A missing map of annotations reads as an empty one.
pub record Pvc : Type 0 where
  pub namespace : Text
  pub name : Text
  pub annotations : Dict Text Text
  pub storage_class : Option Text
  pub volume_name : Text

pub record Pv : Type 0 where
  pub name : Text
  pub annotations : Dict Text Text

-- A deployment, a replica set, a stateful set or a daemon set, with the volumes of its pod template
-- and the names of its volume claim templates.
pub record Workload : Type 0 where
  pub name : Text
  pub replicas : Option ℤ
  pub template_volumes : List Volume
  pub claim_templates : List Text

-- `resource.Quantity`: arithmetic of the Kubernetes API machinery. `less a b` is `a.Cmp(b) < 0`.
pub record Quantities : Type 1 where
  pub Quantity : Type 0
  pub zero_quantity : Quantity
  pub add : Quantity → Quantity → Quantity
  pub sub : Quantity → Quantity → Quantity
  pub less : Quantity → Quantity → Bool
  pub is_zero : Quantity → Bool
