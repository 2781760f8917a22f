-- ===== src/Reconciler/Cleaner.antt =====
-- pkg/controller/managedresource/cleaner.go: what is removed beside an object that is deleted, the
-- claims of a StatefulSet.
use gardener_resource_manage.Prelude.{ℕ, zero, suc, String, Bool, true, false, ◌||◌, List, [], ◌∷◌}
use gardener_resource_manage.Prelude.Tests.{◌==◌, if◌then◌else◌}
use gardener_resource_manage.Errors.{Error, Result, ok, err, errorf, ◌+++◌}
use gardener_resource_manage.Exec.{Exec, pure, raise, wrap, ◌>>=◌}
use gardener_resource_manage.Api.Types.{StringMap, ObjectReference, group_kind_eq}
use gardener_resource_manage.Objects.{Unstructured, group_kind, StatefulSet}
use gardener_resource_manage.Merge.{gk}

-- The client of the target cluster, with the conversion of the scheme that cleanup uses.
-- `list_claims` gives the number of claims; the flag of `delete` is set for foreground propagation.
pub record TargetClient (W C : Type 0) : Type 0 where
  pub get : ObjectReference → Exec W (Unstructured C)
  pub delete : Bool → Unstructured C → Exec W (Unit {0})
  pub list_claims : String → StringMap → Exec W ℕ
  pub delete_claims : String → StringMap → Exec W (Unit {0})
  pub to_stateful_set : Unstructured C → Result (StatefulSet C)

abbrev pub err_msg : String
err_msg = "failed cleaning up PersistentVolumeClaims of StatefulSet"

abbrev pub prefixed : String → Error → Error
prefixed text e = errorf (err_msg +++ (text +++ e.message))

module _ {W C : Type 0} (client : TargetClient W C) where
  abbrev pub delete_listed : StatefulSet C → ℕ → Exec W (Unit {0})
  delete_listed s zero = pure tt
  delete_listed s (suc n) = wrap (prefixed ": ") (client.delete_claims s.namespace s.match_labels)

  -- The first argument are the templates of the claims.
  abbrev pub cleanup_claims : List C → StatefulSet C → Exec W (Unit {0})
  cleanup_claims [] s = pure tt
  cleanup_claims (c ∷ cs) s =
      wrap (prefixed ": could not list PVCs of StatefulSet: ")
        (client.list_claims s.namespace s.match_labels)
      >>= delete_listed s

  abbrev pub cleanup_converted : Result (StatefulSet C) → Exec W (Unit {0})
  cleanup_converted (ok s) = cleanup_claims s.volume_claim_templates s
  cleanup_converted (err e) = raise (prefixed ": could not convert object to StatefulSet: " e)

  unfoldable pub cleanup_stateful_set : Unstructured C → Bool → Exec W (Unit {0})
  cleanup_stateful_set o false = pure tt
  cleanup_stateful_set o true = cleanup_converted (client.to_stateful_set o)

  unfoldable pub cleanup : Unstructured C → Bool → Exec W (Unit {0})
  unfolding cleanup_stateful_set
  cleanup o delete_pvcs =
      if group_kind o == gk "apps" "StatefulSet" || group_kind o == gk "extensions" "StatefulSet"
      then cleanup_stateful_set o delete_pvcs
      else pure tt
