-- ===== src/Controllers/Identity.antt =====
-- What the cluster id is once it was determined.
use gardener_resource_manage.Prelude.{
  String, Bool, true, false, ◌||◌, none, some, ◌≡◌, refl, ◌⊎◌, inl, inr, arith,
}
use gardener_resource_manage.Prelude.Tests.{◌==◌, string_eq, Bool-cases, Option-cases}
use gardener_resource_manage.Prelude.Dict.{Dict, lookup}
use gardener_resource_manage.Errors.{Error, Result, ok, err, is_not_found}
use gardener_resource_manage.Exec.{Exec, pure, wrap, ◌>>=◌, bind_ok, wrap_ok}
use gardener_resource_manage.Cmd.Platform.{Platform}
use gardener_resource_manage.Controllers.Resource.{
  ControllerConfig, cluster_identity, namespace_system, identity_in, determine_cluster_identity,
  apply_default_cluster_id, no_cluster_id,
}

module _ (p : Platform) where
  open p use {World, RestConfig, Client}

  -- The ConfigMap was read, and has the id.
  abbrev pub Stored : String → Type 0
  Stored id =
      (client : Client) × (w : World) × (content : Dict String String) × ((p.get_config_map client
          namespace_system cluster_identity w).0
        ≡ ok content)
      × (lookup cluster_identity content ≡ some id)

  -- It has no entry, or is not there.
  abbrev pub Missing : Type 0
  Missing =
      (client : Client) × (w : World) × (((content : Dict String String) × ((p.get_config_map client
              namespace_system cluster_identity w).0
            ≡ ok content)
          × (lookup cluster_identity content ≡ none))
        ⊎ ((e : Error) × ((p.get_config_map client namespace_system cluster_identity w).0 ≡ err e)
            × (is_not_found e ≡ true)))

  identity_in_ok :
      (client : Client) (w : World) (force : Bool) (r : Result (Dict String String)) (s s' : World)
      (id : String)
      → (p.get_config_map client namespace_system cluster_identity w).0 ≡ r
      → identity_in p force r s ≡ (ok id, s')
      → Stored id ⊎ ((force ≡ false) × (id ≡ "") × Missing)
  identity_in_ok client w force (ok content) s s' id read eq =
      elim (Option-cases (lookup cluster_identity content)) [
        | inr (found, is_found) ↦
            let same : found ≡ id = cc (rw (is_found, identity_in) at eq) in
            inl (client, w, content, read, rw same at is_found)
        | inl absent ↦ elim (Bool-cases force) [
          | inl forced ↦ ground (arith, rw (absent, identity_in, forced) at eq)
          | inr free ↦ inr (
            free,
            ground (arith, rw (absent, identity_in, free) at eq),
            (client, w, inl (content, read, absent)),
          )
        ]
      ]
  identity_in_ok client w force (err e) s s' id read eq = elim (Bool-cases force) [
    | inl forced ↦ ground (arith, rw (forced, identity_in) at eq)
    | inr free ↦ elim (Bool-cases (is_not_found e)) [
      | inl gone ↦ inr (
        free,
        ground (arith, rw (free, identity_in, gone) at eq),
        (client, w, inr (e, read, gone)),
      )
      | inr other ↦ ground (arith, rw (free, identity_in, other) at eq)
    ]
  ]

  abbrev pub placeholder : String → Bool
  placeholder id = id == "<cluster>" || id == "<default>"

  -- When ApplyDefaultClusterId succeeds, an id that is no placeholder is kept, with the world; for
  -- <cluster> the id is the one that the ConfigMap has; for <default> it is that one, or empty
  -- where the ConfigMap has none or is not there.
  pub apply_default_cluster_id_lem :
      (config : RestConfig) (c : ControllerConfig p) (w : World) (c' : ControllerConfig p)
      (w' : World)
      → apply_default_cluster_id p config c w ≡ (ok c', w')
      → ((placeholder c.cluster_id ≡ false) × (c' ≡ c) × (w' ≡ w))
        ⊎ ((placeholder c.cluster_id ≡ true)
            × (Stored c'.cluster_id
                ⊎ ((c.cluster_id == "<cluster>" ≡ false) × (c'.cluster_id ≡ "") × Missing)))
  unfolding apply_default_cluster_id determine_cluster_identity
  apply_default_cluster_id_lem config c w c' w' eq = elim (Bool-cases (placeholder c.cluster_id)) [
    | inr given ↦
        let eq' : pure c w ≡ (ok c', w') = rw (given, apply_default_cluster_id) at eq in
        inl (given, ground (arith, eq'), ground (arith, eq'))
    | inl asked ↦ inr (asked, determined (rw (asked, apply_default_cluster_id) at eq))
  ]
    where
      force : Bool
      force = c.cluster_id == "<cluster>"

      asking : Exec World String
      asking =
          wrap (no_cluster_id p)
            (p.new_default_client config >>= λ client. determine_cluster_identity p client force)

      determined :
          (asking >>= λ id. pure (record c { cluster_id = id })) w ≡ (ok c', w')
          → Stored c'.cluster_id ⊎ ((force ≡ false) × (c'.cluster_id ≡ "") × Missing)
      determined eq' =
          let (id, w₁, asked, set) =
            bind_ok asking (λ id. pure (record c { cluster_id = id })) w c' w' eq' in
          let same : id ≡ c'.cluster_id = ground (arith, set) in
          let (client, w₂, made, read) =
            bind_ok (p.new_default_client config)
              (λ client. determine_cluster_identity p client force) w id w₁
              (wrap_ok (no_cluster_id p)
                (p.new_default_client config >>= λ client.
                  determine_cluster_identity p client force)
                w id w₁ asked) in
          let found =
            identity_in_ok client w₂ force
              (p.get_config_map client namespace_system cluster_identity w₂).0
              (p.get_config_map client namespace_system cluster_identity w₂).1 w₁ id refl read in
          rw same at found

  -- Only the id changes.
  pub apply_default_cluster_id_keeps :
      (config : RestConfig) (c : ControllerConfig p) (w : World) (c' : ControllerConfig p)
      (w' : World)
      → apply_default_cluster_id p config c w ≡ (ok c', w')
      → (id : String) × (c' ≡ record c { cluster_id = id })
  unfolding apply_default_cluster_id
  apply_default_cluster_id_keeps config c w c' w' eq =
      elim (Bool-cases (placeholder c.cluster_id)) [
        | inr given ↦
            let eq' : pure c w ≡ (ok c', w') = rw (given, apply_default_cluster_id) at eq in
            (c.cluster_id, ground (arith, eq'))
        | inl asked ↦
            let (id, s, first, last) =
              bind_ok
                (wrap (no_cluster_id p) (
                  p.new_default_client config >>= λ client.
                  determine_cluster_identity p client (c.cluster_id == "<cluster>")))
                (λ id. pure (record c { cluster_id = id })) w c' w'
                (rw (asked, apply_default_cluster_id) at eq) in
            (id, ground (arith, last))
      ]
