-- ===== src/Builders/Secrets.antt =====
-- pkg/manager/managedsecrets.go.
use gardener_resource_manage.Prelude.{String, List, [], ◌∷◌, ◌++◌}
use gardener_resource_manage.Errors.{ok}
use gardener_resource_manage.Exec.{Exec, pure, ◌>>◌}
use gardener_resource_manage.Api.Types.{StringMap}
use gardener_resource_manage.Builders.Storage.{Storage, unless_gone}

-- corev1.Secret as far as the builder sets it; the values are texts.
pub record Secret : Type 0 where
  pub namespace : String
  pub name : String
  pub labels : StringMap
  pub annotations : StringMap
  pub type : String
  pub content : StringMap

-- corev1.SecretTypeOpaque
abbrev pub opaque : String
opaque = "Opaque"

abbrev pub named : String → String → Secret
named namespace name = record {
  namespace = namespace;
  name = name;
  labels = [];
  annotations = [];
  type = "";
  content = [];
}

unfoldable pub new_secret : Secret
new_secret = named "" ""

unfoldable pub with_namespaced_name : String → String → Secret → Secret
with_namespaced_name namespace name s = record s { namespace = namespace; name = name }

unfoldable pub with_labels : StringMap → Secret → Secret
with_labels labels s = record s { labels = labels }

unfoldable pub with_annotations : StringMap → Secret → Secret
with_annotations annotations s = record s { annotations = annotations }

unfoldable pub with_key_values : StringMap → Secret → Secret
with_key_values key_values s = record s { content = key_values }

abbrev pub built : Secret → Exec Secret (Unit {0})
built s secret = (
  ok tt,
  record secret {
    labels = s.labels;
    annotations = s.annotations;
    type = opaque;
    content = s.content;
  },
)

module _ {W : Type 0} (storage : Storage W Secret) where
  unfoldable pub reconcile : Secret → Exec W (Unit {0})
  reconcile s = storage.create_or_update (built s) (named s.namespace s.name)

  unfoldable pub delete : Secret → Exec W (Unit {0})
  delete s w = unless_gone (storage.delete s w)

  -- The methods of Secrets, which stop at the first error.
  unfoldable pub reconcile_all : List Secret → Exec W (Unit {0})
  unfolding reconcile
  reconcile_all [] = pure tt
  reconcile_all (s ∷ secrets) = reconcile s >> reconcile_all secrets

  unfoldable pub delete_all : List Secret → Exec W (Unit {0})
  unfolding delete
  delete_all [] = pure tt
  delete_all (s ∷ secrets) = delete s >> delete_all secrets

unfoldable pub with_secret_list : List Secret → List Secret → List Secret
with_secret_list more secrets = secrets ++ more

unfoldable pub with_secret : Secret → List Secret → List Secret
with_secret s secrets = secrets ++ (s ∷ [])
