-- ===== src/Tests/Data.antt =====
-- Inputs that the tests share.
use gardener_resource_manage.Prelude.{String, false, arith, Option, none, List, [], ◌∷◌, ◌≡◌, true}
use gardener_resource_manage.Prelude.Tests.{Same}
use gardener_resource_manage.Errors.{ok}
use gardener_resource_manage.Reconciler.Control.{StatusClient}
use gardener_resource_manage.Prelude.Int.{pos}
use gardener_resource_manage.Api.Types.{
  GroupKind, GroupVersionKind, ObjectReference, ManagedResource, ManagedResourceCondition,
  resources_applied, resources_healthy, condition_true,
}

abbrev pub gk : String → String → GroupKind
gk group kind = record { group = group; kind = kind }

abbrev pub gvk : String → String → String → GroupVersionKind
gvk group version kind = record { group = group; version = version; kind = kind }

abbrev pub condition : String → String → ManagedResourceCondition
condition type status = record {
  type = type;
  status = status;
  last_update_time = 1;
  last_transition_time = 1;
  reason = "Reason";
  message = "message";
}

-- A Deployment and a ConfigMap.
abbrev pub deployment_ref : ObjectReference
deployment_ref = record {
  gvk = gvk "apps" "v1" "Deployment";
  name = "web";
  namespace = "shop";
  labels = [];
  annotations = [];
}

abbrev pub config_ref : ObjectReference
config_ref = record {
  gvk = gvk "" "v1" "ConfigMap";
  name = "conf";
  namespace = "shop";
  labels = [];
  annotations = [];
}

abbrev pub resource_of : Option String → List String → List ObjectReference → ManagedResource
resource_of class finalizers resources = record {
  namespace = "garden";
  name = "mr";
  labels = [];
  annotations = [];
  generation = pos 2;
  finalizers = finalizers;
  deletion_timestamp = none;
  spec = record {
    class = class;
    secret_refs = "secret" ∷ [];
    inject_labels = [];
    force_overwrite_labels = none;
    force_overwrite_annotations = none;
    keep_objects = none;
    equivalences = [];
    delete_persistent_volume_claims = none;
  };
  status = record {
    conditions =
        condition resources_applied condition_true
        ∷ condition resources_healthy condition_true
        ∷ [];
    observed_generation = pos 2;
    resources = resources;
  };
}

pub false_sound : {A : Type 0} (a b : A) → false ≡ true → a ≡ b
false_sound a b e = ground arith

-- The comparison that finds no values the same.
abbrev pub never_same : {A : Type 0} → Same A
never_same = record { same = λ a b. false; same_sound = λ a b e. false_sound a b e }

-- A client of a server that holds one ManagedResource, which the world says.
abbrev pub status_client_of :
    {W : Type 0} → (W → ManagedResource) → (ManagedResource → W → W) → StatusClient W
status_client_of held hold = record {
  access = record { get = λ w. (ok (held w), w); update = λ o w. (ok o, hold o w) };
  equal = never_same;
  waiting = record { done = λ s. none; sleep = λ d s. s };
  default_backoff = record { steps = 4; duration = 10; next = λ d. d; jittered = λ d. d };
  now = λ w. 5;
}
