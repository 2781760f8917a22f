-- ===== src/Reconciler/Decoding/Laws.antt =====
-- The references beside the objects.
use gardener_resource_manage.Prelude.{
  ℕ, suc, String, List, [], ◌∷◌, ◌++◌, map, ◌≡◌, refl, sym, ◌∙◌, ap,
}
use gardener_resource_manage.Prelude.Dict.{Dict}
use gardener_resource_manage.Api.Types.{ObjectReference}
use gardener_resource_manage.ObjectIndex.{ObjectIndex, lookup_reference}
use gardener_resource_manage.ObjectIndex.Laws.{lookup_all}
use gardener_resource_manage.Reconciler.Applying.{Object}
use gardener_resource_manage.Reconciler.Decoding.{
  Document, malformed, empty, decoded, Decoded, Decoding, defaulted_namespace, old_labels_of,
  old_annotations_of, reference_of, add_object, add_documents, add_secret,
}

module _ {C : Type 0} (d : Decoding C) where
  abbrev pub references_of : List (Object C) → List ObjectReference
  references_of os = map (λ o. reference_of d.inject_labels o.obj) os

  -- Every object has its reference, in the same place, and in the index, which was the given one,
  -- these references have been looked up in turn.
  abbrev pub IsMatched : ObjectIndex → Decoded C → Type 0
  IsMatched i s = (s.references ≡ references_of s.objects) × (s.index ≡ lookup_all i s.references)

  lookup_all-append :
      (i : ObjectIndex) (refs : List ObjectReference) (ref : ObjectReference)
      → lookup_all i (refs ++ (ref ∷ [])) ≡ (lookup_reference (lookup_all i refs) ref).0
  lookup_all-append i [] ref = refl
  lookup_all-append i (r ∷ refs) ref = lookup_all-append (lookup_reference i r).0 refs ref

  references_of-append :
      (os os' : List (Object C)) → references_of (os ++ os') ≡ references_of os ++ references_of os'
  references_of-append [] os' = refl
  references_of-append (o ∷ os) os' =
      ap (λ r. reference_of d.inject_labels o.obj ∷ r) (references_of-append os os')

  matched_step :
      (references : List ObjectReference) (os : List (Object C)) (o : Object C)
      → references ≡ references_of os
      → references ++ (reference_of d.inject_labels o.obj ∷ []) ≡ references_of (os ++ (o ∷ []))
  matched_step references os o h =
      ap (λ r. r ++ (reference_of d.inject_labels o.obj ∷ [])) h
      ∙ sym (references_of-append os (o ∷ []))

  indexed_step :
      (start : ObjectIndex) (refs : List ObjectReference) (ref : ObjectReference) (i : ObjectIndex)
      → i ≡ lookup_all start refs
      → (lookup_reference i ref).0 ≡ lookup_all start (refs ++ (ref ∷ []))
  indexed_step start refs ref i h =
      ap (λ i. (lookup_reference i ref).0) h ∙ sym (lookup_all-append start refs ref)

  add_documents-IsMatched :
      (start : ObjectIndex) (secret key : String) (i : ℕ) (ds : List (Document C)) (s : Decoded C)
      → IsMatched start s
      → IsMatched start (add_documents d secret key i ds s)
  unfolding add_documents add_object
  add_documents-IsMatched start secret key i [] s h = h
  add_documents-IsMatched start secret key i (malformed e ∷ ds) s h =
      add_documents-IsMatched start secret key (suc i) ds _ h
  add_documents-IsMatched start secret key i (empty ∷ ds) s h =
      add_documents-IsMatched start secret key (suc i) ds s h
  add_documents-IsMatched start secret key i (decoded o ∷ ds) s h =
      let o' = defaulted_namespace (d.mapping o.gvk) o in
      let ref = reference_of d.inject_labels o' in
      add_documents-IsMatched start secret key (suc i) ds (add_object d o s) (
        matched_step s.references s.objects
            (record {
              obj = o';
              old_labels = old_labels_of (lookup_reference s.index ref).1;
              old_annotations = old_annotations_of (lookup_reference s.index ref).1;
              force_overwrite_labels = d.force_overwrite_labels;
              force_overwrite_annotations = d.force_overwrite_annotations;
            })
            h.0,
        indexed_step start s.references ref s.index h.1,
      )

  -- Reading a secret keeps the references in step with the objects: the list that becomes
  -- `status.resources` has the reference of each object that is applied, and no other. These are what
  -- has been looked up in the index.
  pub add_secret-IsMatched :
      (start : ObjectIndex) (secret : String) (content : Dict String String) (s : Decoded C)
      → IsMatched start s
      → IsMatched start (add_secret d secret content s)
  unfolding add_secret
  add_secret-IsMatched start secret [] s h = h
  add_secret-IsMatched start secret ((key, value) ∷ content) s h =
      add_secret-IsMatched start secret content _
        (add_documents-IsMatched start secret key 0 (d.decode value) s h)
