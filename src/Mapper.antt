-- ===== src/Mapper.antt =====
-- pkg/mapper: the requests that an event of a secret makes for ManagedResources, and an event of a
-- ManagedResource for secrets. The nil checks and type assertions hold by the types.
use gardener_resource_manage.Prelude.{
  String, Bool, true, false, not, ◌&&◌, ◌||◌, List, [], ◌∷◌, ◌++◌, ◌≡◌, ◌≢◌, refl, arith,
}
use gardener_resource_manage.Prelude.Tests.{◌==◌, string_eq, if◌then◌else◌, beq_self}
use gardener_resource_manage.Prelude.Lists.{any}
use gardener_resource_manage.Errors.{Result, ok, err}
use gardener_resource_manage.Exec.{Exec}
use gardener_resource_manage.Api.Types.{ManagedResource}
use gardener_resource_manage.Secrets.{Secret}

-- reconcile.Request
pub record Request : Type 0 where
  pub namespace : String
  pub name : String

-- EvalGenericPredicate of pkg/controller/utils: all predicates match.
unfoldable pub eval_generic_predicate : ManagedResource → List (ManagedResource → Bool) → Bool
eval_generic_predicate mr [] = true
eval_generic_predicate mr (p ∷ ps) = if not (p mr) then false else eval_generic_predicate mr ps

abbrev request_for : ManagedResource → Request
request_for mr = record { namespace = mr.namespace; name = mr.name }

-- The loop over the references of one ManagedResource.
unfoldable pub requests_of : String → ManagedResource → List String → List Request
requests_of secret mr [] = []
requests_of secret mr (ref ∷ refs) =
    let rest = requests_of secret mr refs in if ref == secret then request_for mr ∷ rest else rest

-- The loop over the ManagedResources of the namespace.
unfoldable pub map_listed :
    List (ManagedResource → Bool) → Secret → List ManagedResource → List Request
unfolding requests_of eval_generic_predicate
map_listed predicates secret [] = []
map_listed predicates secret (mr ∷ mrs) =
    let rest = map_listed predicates secret mrs in
    if not (eval_generic_predicate mr predicates)
    then rest
    else requests_of secret.name mr mr.spec.secret_refs ++ rest

abbrev after_list :
    {W : Type 0}
    → List (ManagedResource → Bool)
    → Secret
    → Result (List ManagedResource) × W
    → List Request × W
after_list predicates secret (ok mrs, w) = (map_listed predicates secret mrs, w)
after_list predicates secret (err e, w) = ([], w)

-- secretToManagedResourceMapper.Map, with the client's List.
unfoldable pub map_secret :
    {W : Type 0}
    → (String → Exec W (List ManagedResource))
    → List (ManagedResource → Bool)
    → Secret
    → W
    → List Request × W
unfolding map_listed
map_secret list predicates secret w = after_list predicates secret (list secret.namespace w)

-- The loop of managedResourceToSecretsMapper.Map.
unfoldable pub secret_requests : String → List String → List Request
secret_requests namespace [] = []
secret_requests namespace (ref ∷ refs) =
    let rest = secret_requests namespace refs in
    if not (ref == "") then record { namespace = namespace; name = ref } ∷ rest else rest

-- managedResourceToSecretsMapper.Map
unfoldable pub map_resource : ManagedResource → List Request
unfolding secret_requests
map_resource mr = secret_requests mr.namespace mr.spec.secret_refs

abbrev pub is_for : String → String → Request → Bool
is_for namespace name q = q.namespace == namespace && q.name == name

any-append :
    {A : Type 0} (p : A → Bool) (xs ys : List A) → any p (xs ++ ys) ≡ (any p xs || any p ys)
unfolding any
any-append p [] ys = refl
any-append p (x ∷ xs) ys = ground (arith, any-append p xs ys)

requests-both :
    (name : String) (mr : ManagedResource) (refs : List String)
    → name ≢ ""
    → any (is_for mr.namespace mr.name) (requests_of name mr refs)
      ≡ any (is_for mr.namespace name) (secret_requests mr.namespace refs)
unfolding requests_of secret_requests any
requests-both name mr [] h = refl
requests-both name mr (ref ∷ refs) h = ground (
  arith,
  requests-both name mr refs h,
  string_eq.beq_iff ref name,
  string_eq.beq_iff ref "",
  beq_self mr.namespace,
  beq_self mr.name,
)

-- The two mappers agree: for one ManagedResource that the predicates let pass, a secret with a name
-- makes a request for it exactly if it makes a request for a secret of that name.
pub map_listed-map_resource :
    (predicates : List (ManagedResource → Bool)) (secret : Secret) (mr : ManagedResource)
    → secret.name ≢ ""
    → eval_generic_predicate mr predicates ≡ true
    → any (is_for mr.namespace mr.name) (map_listed predicates secret (mr ∷ []))
      ≡ any (is_for mr.namespace secret.name) (map_resource mr)
unfolding map_listed map_resource any
map_listed-map_resource predicates secret mr h passes = rw passes (
    rw
      (any-append (is_for mr.namespace mr.name) (requests_of secret.name mr mr.spec.secret_refs) [])
      (ground (arith, requests-both secret.name mr mr.spec.secret_refs h)))
