-- ===== src/Api/Types.antt =====
-- api/resources/v1alpha1/types.go: ManagedResources and the types that they are made of. Times
-- are numbers. Of the object metadata stands here what the controllers read.
use gardener_resource_manage.Prelude.{ℕ, String, Bool, true, Option, List, ◌≡◌, ◌↔◌, ◌&&◌, arith}
use gardener_resource_manage.Prelude.Tests.{Eq, ◌==◌, string_eq}
use gardener_resource_manage.Prelude.Int.{ℤ}
use gardener_resource_manage.Prelude.Dict.{Dict}

abbrev pub Time : Type 0
Time = ℕ

-- map[string]string; a nil map is the empty one where the code cannot tell them apart.
abbrev pub StringMap : Type 0
StringMap = Dict String String

abbrev pub ignore_annotation : String
ignore_annotation = "resources.gardener.cloud/ignore"

abbrev pub delete_on_invalid_update_annotation : String
delete_on_invalid_update_annotation = "resources.gardener.cloud/delete-on-invalid-update"

abbrev pub keep_object_annotation : String
keep_object_annotation = "resources.gardener.cloud/keep-object"

-- metav1.GroupKind
pub record GroupKind : Type 0 where
  pub group : String
  pub kind : String

-- `apiVersion` is kept as the group and the version that it stands for.
pub record GroupVersionKind : Type 0 where
  pub group : String
  pub version : String
  pub kind : String

pub record ObjectReference : Type 0 where
  pub gvk : GroupVersionKind
  pub name : String
  pub namespace : String
  pub labels : StringMap
  pub annotations : StringMap

-- Types and statuses of conditions are texts with well-known values.
abbrev pub ConditionType : Type 0
ConditionType = String

abbrev pub resources_applied : ConditionType
resources_applied = "ResourcesApplied"

abbrev pub resources_healthy : ConditionType
resources_healthy = "ResourcesHealthy"

abbrev pub ConditionStatus : Type 0
ConditionStatus = String

abbrev pub condition_true : ConditionStatus
condition_true = "True"

abbrev pub condition_false : ConditionStatus
condition_false = "False"

abbrev pub condition_unknown : ConditionStatus
condition_unknown = "Unknown"

abbrev pub condition_progressing : ConditionStatus
condition_progressing = "Progressing"

abbrev pub apply_succeeded : String
apply_succeeded = "ApplySucceeded"

abbrev pub apply_failed : String
apply_failed = "ApplyFailed"

abbrev pub decoding_failed : String
decoding_failed = "DecodingFailed"

abbrev pub apply_progressing : String
apply_progressing = "ApplyProgressing"

abbrev pub deletion_failed : String
deletion_failed = "DeletionFailed"

abbrev pub deletion_pending : String
deletion_pending = "DeletionPending"

abbrev pub health_checks_pending : String
health_checks_pending = "HealthChecksPending"

pub record ManagedResourceCondition : Type 0 where
  pub type : ConditionType
  pub status : ConditionStatus
  pub last_update_time : Time
  pub last_transition_time : Time
  pub reason : String
  pub message : String

pub record ManagedResourceSpec : Type 0 where
  pub class : Option String
  pub secret_refs : List String
  pub inject_labels : StringMap
  pub force_overwrite_labels : Option Bool
  pub force_overwrite_annotations : Option Bool
  pub keep_objects : Option Bool
  pub equivalences : List (List GroupKind)
  pub delete_persistent_volume_claims : Option Bool

pub record ManagedResourceStatus : Type 0 where
  pub conditions : List ManagedResourceCondition
  pub observed_generation : ℤ
  pub resources : List ObjectReference

pub record ManagedResource : Type 0 where
  pub namespace : String
  pub name : String
  pub labels : StringMap
  pub annotations : StringMap
  pub generation : ℤ
  pub finalizers : List String
  pub deletion_timestamp : Option Time
  pub spec : ManagedResourceSpec
  pub status : ManagedResourceStatus

unfoldable pub group_kind_beq : GroupKind → GroupKind → Bool
group_kind_beq a b = a.group == b.group && a.kind == b.kind

pub group_kind_beq_iff : (a b : GroupKind) → (group_kind_beq a b ≡ true) ↔ (a ≡ b)
unfolding group_kind_beq
group_kind_beq_iff a b =
    ground (arith, string_eq.beq_iff a.group b.group, string_eq.beq_iff a.kind b.kind)

instance abbrev pub group_kind_eq : Eq GroupKind
group_kind_eq = record { beq = group_kind_beq; beq_iff = group_kind_beq_iff }
