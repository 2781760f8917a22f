-- ===== src/Merge/Services.antt =====
-- mergeService: what a Service keeps of its old state.
use mathlib.Core.Path.{subst}
use gardener_resource_manage.Prelude.{
  String, Bool, true, false, not, ◌&&◌, ◌||◌, List, [], ◌∷◌, map, ◌≡◌, refl, arith, ◌∙◌, sym, inl,
  inr, ◌⊎◌,
}
use gardener_resource_manage.Prelude.Int.{ℤ, pos, int_eq}
use gardener_resource_manage.Prelude.Lists.{Forall₂}
use gardener_resource_manage.Prelude.Tests.{
  Bool-cases, if_same, if_apply, eq_of_beq, ◌==◌, string_eq, if◌then◌else◌,
}
use gardener_resource_manage.Errors.{Result, ◌>>=◌}
use gardener_resource_manage.Objects.{Unstructured, Service, ServicePort, Scheme}

abbrev pub cluster_ip_type : String
cluster_ip_type = "ClusterIP"

abbrev pub node_port_type : String
node_port_type = "NodePort"

abbrev pub load_balancer_type : String
load_balancer_type = "LoadBalancer"

abbrev pub external_name_type : String
external_name_type = "ExternalName"

-- corev1.ClusterIPNone
abbrev pub cluster_ip_none : String
cluster_ip_none = "None"

-- corev1.ServiceExternalTrafficPolicyTypeLocal
abbrev pub local_policy : String
local_policy = "Local"

module _ {C : Type 0} where
  -- The empty type stands for ClusterIP.
  abbrev pub defaulted : Service C → Service C
  defaulted s = if s.type == "" then record s { type = cluster_ip_type } else s

  -- The inner loop: `np` is the new port, `p` its copy that is written.
  unfoldable pub merge_port : ServicePort C → List (ServicePort C) → ServicePort C → ServicePort C
  merge_port np [] p = p
  merge_port np (op ∷ ops) p = merge_port np ops (
      if (np.port == op.port || np.name == op.name) && np.node_port == pos 0
      then record p { node_port = op.node_port }
      else p)

  unfoldable pub merge_ports : List (ServicePort C) → List (ServicePort C) → List (ServicePort C)
  unfolding merge_port
  merge_ports olds news = map (λ np. merge_port np olds np) news

  -- The test of the rule on the ClusterIP.
  abbrev pub keeps_old_ip : Service C → Service C → Bool
  keeps_old_ip old new =
      not (new.cluster_ip == cluster_ip_none) && not (old.type == external_name_type)

  keep_cluster_ip : Service C → Service C → Service C
  keep_cluster_ip old new =
      if keeps_old_ip old new then record new { cluster_ip = old.cluster_ip } else new

  -- The test of the rule on the node port of health checks.
  abbrev pub keeps_old_health_port : Service C → Service C → Bool
  keeps_old_health_port old new =
      old.type == load_balancer_type
      && new.type == load_balancer_type
      && new.external_traffic_policy == local_policy
      && old.external_traffic_policy == local_policy
      && new.health_check_node_port == pos 0

  keep_health_check_node_port : Service C → Service C → Service C
  keep_health_check_node_port old new =
      if keeps_old_health_port old new
      then record new { health_check_node_port = old.health_check_node_port }
      else new

  -- The two rules behind the switch.
  keep_rest : Service C → Service C → Service C
  unfolding keep_cluster_ip keep_health_check_node_port
  keep_rest old new = keep_health_check_node_port old (keep_cluster_ip old new)

  -- Both services with their types defaulted.
  unfoldable pub merged_service : Service C → Service C → Service C
  unfolding merge_ports keep_rest
  merged_service old new =
      if new.type == load_balancer_type || new.type == node_port_type
      then keep_rest old (record new { ports = merge_ports old.ports new.ports })
      else if new.type == external_name_type
      then new
      else keep_rest old new

module _ {C : Type 0} (scheme : Scheme C) where
  unfoldable pub merge_service : Unstructured C → Unstructured C → Result (Unstructured C)
  unfolding merged_service
  merge_service old_obj new_obj = do
    old ← scheme.to_service old_obj
    new ← scheme.to_service new_obj
    scheme.from_service (merged_service (defaulted old) (defaulted new))

module _ {C : Type 0} where
  cluster_ip-keep_rest :
      (old new : Service C)
      → (keep_rest old new).cluster_ip
        ≡ (if keeps_old_ip old new then old.cluster_ip else new.cluster_ip)
  unfolding keep_rest keep_cluster_ip keep_health_check_node_port
  cluster_ip-keep_rest old new =
      let kept = keep_cluster_ip old new in
      if_same (λ (s : Service C). s.cluster_ip) (keeps_old_health_port old kept)
        (record kept { health_check_node_port = old.health_check_node_port }) kept refl
      ∙ if_apply (λ (s : Service C). s.cluster_ip) (keeps_old_ip old new)
          (record new { cluster_ip = old.cluster_ip }) new

  ports-keep_rest : (old new : Service C) → (keep_rest old new).ports ≡ new.ports
  unfolding keep_rest keep_cluster_ip keep_health_check_node_port
  ports-keep_rest old new =
      let kept = keep_cluster_ip old new in
      if_same (λ (s : Service C). s.ports) (keeps_old_health_port old kept)
        (record kept { health_check_node_port = old.health_check_node_port }) kept refl
      ∙ if_same (λ (s : Service C). s.ports) (keeps_old_ip old new)
          (record new { cluster_ip = old.cluster_ip }) new refl

  -- The ClusterIP of a merged Service: the new one if the type is ExternalName, if the new Service
  -- is headless, or if the old one was of type ExternalName; and otherwise the old one.
  pub cluster_ip-merged_service :
      (old new : Service C)
      → (merged_service old new).cluster_ip ≡ (
          if not (new.type == external_name_type) && keeps_old_ip old new
          then old.cluster_ip
          else new.cluster_ip)
  unfolding merged_service
  cluster_ip-merged_service old new = elim (Bool-cases (new.type == external_name_type)) [
    | inl e ↦ let p = eq_of_beq new.type external_name_type e in rw (merged_service, p) refl
    | inr e ↦ rw e (no_external (new.type == load_balancer_type || new.type == node_port_type))
  ]
    where
      no_external :
          (b : Bool)
          → (if b
              then keep_rest old (record new { ports = merge_ports old.ports new.ports })
              else keep_rest old new).cluster_ip
            ≡ (if keeps_old_ip old new then old.cluster_ip else new.cluster_ip)
      no_external true =
          cluster_ip-keep_rest old (record new { ports = merge_ports old.ports new.ports })
      no_external false = cluster_ip-keep_rest old new

  -- The node port that the old ports give to a new port: that of the last one with its number or
  -- its name, and `fallback` if there is none.
  abbrev pub old_node_port : ServicePort C → List (ServicePort C) → ℤ → ℤ
  old_node_port np [] fallback = fallback
  old_node_port np (op ∷ ops) fallback =
      old_node_port np ops
        (if np.port == op.port || np.name == op.name then op.node_port else fallback)

  -- A port that has no node port gets the old one by its number or name, and 0 if there is none;
  -- one that has a node port keeps it. Nothing else of the port changes.
  merge_port_lem :
      (np p : ServicePort C) (ops : List (ServicePort C))
      → merge_port np ops p ≡ record p {
        node_port = if np.node_port == pos 0 then old_node_port np ops p.node_port else p.node_port;
      }
  unfolding merge_port
  merge_port_lem np p [] = ground arith
  merge_port_lem np p (op ∷ ops) =
      step (np.port == op.port || np.name == op.name) (np.node_port == pos 0) refl
        (merge_port_lem np p ops) (merge_port_lem np (record p { node_port = op.node_port }) ops)
    where
      step :
          (t z : Bool)
          → z ≡ (np.node_port == pos 0)
          → merge_port np ops p
            ≡ record p { node_port = if z then old_node_port np ops p.node_port else p.node_port }
          → merge_port np ops (record p { node_port = op.node_port })
            ≡ record p { node_port = if z then old_node_port np ops op.node_port else op.node_port }
          → merge_port np ops (if t && z then record p { node_port = op.node_port } else p)
            ≡ record p {
              node_port =
                  if z
                  then old_node_port np ops (if t then op.node_port else p.node_port)
                  else p.node_port;
            }
      step true true e h k = k
      step true false e h k = h
      step false true e h k = h
      step false false e h k = h

  abbrev pub KeepsNodePort : List (ServicePort C) → ServicePort C → ServicePort C → Type 0
  KeepsNodePort olds np merged = merged ≡ record np {
    node_port = if np.node_port == pos 0 then old_node_port np olds np.node_port else np.node_port;
  }

  merge_ports-KeepsNodePort :
      (olds news : List (ServicePort C)) → Forall₂ (KeepsNodePort olds) news (merge_ports olds news)
  unfolding merge_ports
  merge_ports-KeepsNodePort olds [] = tt
  merge_ports-KeepsNodePort olds (np ∷ news) =
      (merge_port_lem np np olds, merge_ports-KeepsNodePort olds news)

  -- The ports of a merged Service of type LoadBalancer or NodePort are the new ones in their order:
  -- a port without a node port gets that of the last old port with its number or its name, if there
  -- is one; a port with a node port keeps it; and nothing else of a port changes.
  pub ports-merged_service :
      (old new : Service C)
      → (new.type ≡ load_balancer_type) ⊎ (new.type ≡ node_port_type)
      → Forall₂ (KeepsNodePort old.ports) new.ports (merged_service old new).ports
  unfolding merged_service
  ports-merged_service old new h = rw (with_ports h) (
      subst (Forall₂ (KeepsNodePort old.ports) new.ports)
        (sym (ports-keep_rest old (record new { ports = merge_ports old.ports new.ports })))
        (merge_ports-KeepsNodePort old.ports new.ports))
    where
      with_ports :
          (new.type ≡ load_balancer_type) ⊎ (new.type ≡ node_port_type)
          → (new.type == load_balancer_type || new.type == node_port_type) ≡ true
      with_ports (inl p) = rw p refl
      with_ports (inr p) = rw p refl
