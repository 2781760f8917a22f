-- ===== src/Reconciler/Decoding.antt =====
-- pkg/controller/managedresource/reconciler.go: the loops that read the secrets and make objects
-- and references of what they hold. `decode` gives what the YAML decoder yields until the end of a
-- value.
use gardener_resource_manage.Prelude.{
  ℕ, suc, String, Bool, true, false, not, ◌&&◌, Option, none, some, List, [], ◌∷◌, ◌++◌, map,
}
use gardener_resource_manage.Prelude.Tests.{◌==◌, string_eq, if◌then◌else◌}
use gardener_resource_manage.Prelude.Dict.{Dict}
use gardener_resource_manage.Prelude.Decimals.{decimal}
use gardener_resource_manage.Errors.{Error, Result, ok, err, ◌+++◌}
use gardener_resource_manage.Api.Types.{StringMap, GroupVersionKind, ObjectReference}
use gardener_resource_manage.Objects.{
  Unstructured, get_name, get_namespace, set_namespace, get_labels, get_annotations, entries,
}
use gardener_resource_manage.Keys.{default_namespace}
use gardener_resource_manage.Merge.{merge_maps}
use gardener_resource_manage.ObjectIndex.{ObjectIndex, lookup_reference}
use gardener_resource_manage.Reconciler.Applying.{Object}
pub mod Laws

-- The scope that the REST mapper has for a kind, `missed` where it has none.
pub data Mapping : Type 0 where
  missed namespaced cluster_scoped : Mapping

pub data Document (C : Type 0) : Type 0 where
  malformed : Error → Document C
  empty : Document C
  decoded : Unstructured C → Document C

pub record DecodingError : Type 0 where
  pub error : Error
  pub secret : String
  pub secret_key : String
  pub object_index_in_file : ℕ

unfoldable pub string_short : DecodingError → String
string_short d =
    "Could not decode resource at index "
    +++ (decimal d.object_index_in_file
        +++ (" in '" +++ (d.secret_key +++ ("' in secret '" +++ (d.secret +++ "'")))))

unfoldable pub decoding_error_string : DecodingError → String
unfolding string_short
decoding_error_string d = string_short d +++ (": " +++ (d.error.message +++ "."))

-- What the loops collect.
pub record Decoded (C : Type 0) : Type 0 where
  pub objects : List (Object C)
  pub references : List ObjectReference
  pub index : ObjectIndex
  pub errors : List DecodingError

pub record Decoding (C : Type 0) : Type 0 where
  pub mapping : GroupVersionKind → Mapping
  pub decode : String → List (Document C)
  pub force_overwrite_labels : Bool
  pub force_overwrite_annotations : Bool
  pub inject_labels : StringMap

module _ {C : Type 0} where
  unfoldable pub defaulted_namespace : Mapping → Unstructured C → Unstructured C
  defaulted_namespace Mapping.missed o =
      if not (o.gvk.kind == "Namespace") && get_namespace o == ""
      then set_namespace default_namespace o
      else o
  defaulted_namespace Mapping.namespaced o =
      if get_namespace o == "" then set_namespace default_namespace o else o
  defaulted_namespace Mapping.cluster_scoped o = set_namespace "" o

  -- The reference that the status keeps of an object.
  unfoldable pub reference_of : StringMap → Unstructured C → ObjectReference
  reference_of labels o = record {
    gvk = o.gvk;
    name = get_name o;
    namespace = get_namespace o;
    labels = merge_maps (entries (get_labels o)) labels;
    annotations = entries (get_annotations o);
  }

abbrev pub old_labels_of : Option ObjectReference → StringMap
old_labels_of none = []
old_labels_of (some r) = r.labels

abbrev pub old_annotations_of : Option ObjectReference → StringMap
old_annotations_of none = []
old_annotations_of (some r) = r.annotations

module _ {C : Type 0} (d : Decoding C) where
  unfoldable pub add_object : Unstructured C → Decoded C → Decoded C
  unfolding defaulted_namespace reference_of
  add_object read s =
      let o = defaulted_namespace (d.mapping read.gvk) read in
      let reference = reference_of d.inject_labels o in
      let (index, old) = lookup_reference s.index reference in
      record {
        objects =
            s.objects
            ++ (record {
              obj = o;
              old_labels = old_labels_of old;
              old_annotations = old_annotations_of old;
              force_overwrite_labels = d.force_overwrite_labels;
              force_overwrite_annotations = d.force_overwrite_annotations;
            }
                ∷ []);
        references = s.references ++ (reference ∷ []);
        index = index;
        errors = s.errors;
      }

  -- The loop over the documents of one value; `i` counts them.
  unfoldable pub add_documents : String → String → ℕ → List (Document C) → Decoded C → Decoded C
  unfolding add_object
  add_documents secret key i [] s = s
  add_documents secret key i (malformed e ∷ ds) s = add_documents secret key (suc i) ds (record s {
    errors =
        s.errors
        ++ (record { error = e; secret = secret; secret_key = key; object_index_in_file = i } ∷ []);
  })
  add_documents secret key i (empty ∷ ds) s = add_documents secret key (suc i) ds s
  add_documents secret key i (decoded o ∷ ds) s =
      add_documents secret key (suc i) ds (add_object o s)

  -- The loop over the data of one secret.
  unfoldable pub add_secret : String → Dict String String → Decoded C → Decoded C
  unfolding add_documents
  add_secret secret [] s = s
  add_secret secret ((key, value) ∷ data_) s =
      add_secret secret data_ (add_documents secret key 0 (d.decode value) s)
