-- ===== src/Objects.antt =====
-- Objects of the target cluster: the unstructured form, and of the typed kinds what the code reads
-- or writes. `C` stands for all content that the code passes on unseen.
use gardener_resource_manage.Prelude.{String, Option, none, some, List, []}
use gardener_resource_manage.Prelude.Int.{ℤ}
use gardener_resource_manage.Prelude.Dict.{Dict}
use gardener_resource_manage.Prelude.Tests.{string_eq}
use gardener_resource_manage.Errors.{Result}
use gardener_resource_manage.Api.Types.{Time, StringMap, GroupKind, GroupVersionKind}

-- The entries of a map that may be nil.
abbrev pub entries {ℓ} : {K V : Type ℓ} → Option (Dict K V) → Dict K V
entries none = []
entries (some m) = m

-- `labels` and `annotations` are `none` where the field is absent.
pub record Metadata (C : Type 0) : Type 0 where
  pub name : String
  pub namespace : String
  pub labels : Option StringMap
  pub annotations : Option StringMap
  pub rest : Option C

-- The map behind unstructured.Unstructured. `metadata` and `status` are `none` where the entry is
-- absent, no map, or empty; `content` are all other entries.
pub record Unstructured (C : Type 0) : Type 0 where
  pub gvk : GroupVersionKind
  pub metadata : Option (Metadata C)
  pub status : Option C
  pub content : C

module _ {C : Type 0} where
  abbrev pub group_kind : Unstructured C → GroupKind
  group_kind o = record { group = o.gvk.group; kind = o.gvk.kind }

  abbrev pub get_name : Unstructured C → String
  get_name o = elim o.metadata [ some m ↦ m.name | none ↦ "" ]

  abbrev pub get_namespace : Unstructured C → String
  get_namespace o = elim o.metadata [ some m ↦ m.namespace | none ↦ "" ]

  abbrev pub get_labels : Unstructured C → Option StringMap
  get_labels o = elim o.metadata [ some m ↦ m.labels | none ↦ none ]

  abbrev pub get_annotations : Unstructured C → Option StringMap
  get_annotations o = elim o.metadata [ some m ↦ m.annotations | none ↦ none ]

  abbrev pub empty_metadata : Metadata C
  empty_metadata = record {
    name = "";
    namespace = "";
    labels = none;
    annotations = none;
    rest = none;
  }

  -- The metadata that a setter writes into.
  abbrev pub metadata_of : Unstructured C → Metadata C
  metadata_of o = elim o.metadata [ some m ↦ m | none ↦ empty_metadata ]

  abbrev pub set_labels : Option StringMap → Unstructured C → Unstructured C
  set_labels labels o = record o { metadata = some (record (metadata_of o) { labels = labels }) }

  abbrev pub set_annotations : Option StringMap → Unstructured C → Unstructured C
  set_annotations annotations o = record o {
    metadata = some (record (metadata_of o) { annotations = annotations });
  }

  abbrev pub set_namespace : String → Unstructured C → Unstructured C
  set_namespace namespace o = record o {
    metadata = some (record (metadata_of o) { namespace = namespace });
  }

-- corev1.ResourceList
abbrev pub ResourceList : Type 0
ResourceList = Dict String String

pub record Container (C : Type 0) : Type 0 where
  pub name : String
  pub requests : Option ResourceList
  pub limits : Option ResourceList
  pub rest : C

pub record PodTemplate (C : Type 0) : Type 0 where
  pub labels : StringMap
  pub containers : List (Container C)
  pub rest : C

pub record Deployment (C : Type 0) : Type 0 where
  pub replicas : Option ℤ
  pub template : PodTemplate C
  pub rest : C

pub record Job (C : Type 0) : Type 0 where
  pub selector : Option C
  pub template : PodTemplate C
  pub rest : C

pub record StatefulSet (C : Type 0) : Type 0 where
  pub namespace : String
  pub creation_timestamp : Option Time
  pub replicas : Option ℤ
  pub match_labels : StringMap
  pub volume_claim_templates : List C
  pub template : PodTemplate C
  pub rest : C

pub record ServicePort (C : Type 0) : Type 0 where
  pub name : String
  pub port : ℤ
  pub node_port : ℤ
  pub rest : C

pub record Service (C : Type 0) : Type 0 where
  pub type : String
  pub cluster_ip : String
  pub ports : List (ServicePort C)
  pub external_traffic_policy : String
  pub health_check_node_port : ℤ
  pub rest : C

pub record ServiceAccount (C : Type 0) : Type 0 where
  pub secrets : List C
  pub image_pull_secrets : List C
  pub rest : C

-- What the code uses of the API machinery: scheme.Convert between the unstructured and each typed
-- form, and labels.Merge, whose second map takes precedence.
pub record Scheme (C : Type 0) : Type 0 where
  pub to_deployment : Unstructured C → Result (Deployment C)
  pub from_deployment : Deployment C → Result (Unstructured C)
  pub to_job : Unstructured C → Result (Job C)
  pub from_job : Job C → Result (Unstructured C)
  pub to_stateful_set : Unstructured C → Result (StatefulSet C)
  pub from_stateful_set : StatefulSet C → Result (Unstructured C)
  pub to_service : Unstructured C → Result (Service C)
  pub from_service : Service C → Result (Unstructured C)
  pub to_service_account : Unstructured C → Result (ServiceAccount C)
  pub from_service_account : ServiceAccount C → Result (Unstructured C)
  pub labels_merge : StringMap → StringMap → StringMap
