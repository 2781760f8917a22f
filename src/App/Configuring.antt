-- ===== src/App/Configuring.antt =====
-- What the configurations are from Apply to the controllers that are added.
use gardener_resource_manage.Prelude.{List, [], ◌∷◌, ◌≡◌, refl, sym, ap, ◌∙◌}
use gardener_resource_manage.Prelude.Tests.{string_eq}
use gardener_resource_manage.Prelude.Lists.{All}
use gardener_resource_manage.Errors.{ok}
use gardener_resource_manage.Exec.{Exec, pure, ◌>>=◌, ◌>>◌, bind_ok}
use gardener_resource_manage.Filter.{ClassFilter}
use gardener_resource_manage.Cmd.{add_all_to_manager}
use gardener_resource_manage.Cmd.Platform.{Platform}
use gardener_resource_manage.Cmd.Manager
use gardener_resource_manage.Cmd.Source
use gardener_resource_manage.Cmd.Target
use gardener_resource_manage.Controllers.Resource
use gardener_resource_manage.Controllers.Identity.{apply_default_cluster_id_keeps}
use gardener_resource_manage.Controllers.Watches.{Watching}
use gardener_resource_manage.Controllers.Adding.{Registrar}
use gardener_resource_manage.App.{
  App, Command, on_app, change, applied, identified, managed, adders, configured,
}
use gardener_resource_manage.App.Completing.{on_app_ok}

module _ (p : Platform) where
  open p use {World, RestConfig, Scheme}

  module _ (new_manager : RestConfig → Manager.Options Scheme → Exec World p.Manager)
      (r : Registrar p) (c : Watching) where
    Keeps : (p.Manager → Command p (Unit {0})) → Type 0
    Keeps add =
        (mgr : p.Manager) (w : World) (a : App p) (w' : World) (a' : App p)
        → add mgr (w, a) ≡ (ok tt, (w', a'))
        → a' ≡ a

    adds_ok :
        (adds : List (p.Manager → Command p (Unit {0}))) (mgr : p.Manager) (w : World) (a : App p)
        (w' : World) (a' : App p)
        → All Keeps adds
        → add_all_to_manager mgr adds (w, a) ≡ (ok tt, (w', a'))
        → a' ≡ a
    unfolding add_all_to_manager Keeps
    adds_ok [] mgr w a w' a' keeps eq = ap (λ r. r.1.1) (sym eq)
    adds_ok (add ∷ adds) mgr w a w' a' (keep, keeps) eq =
        let (u, s, first, rest) =
          bind_ok (add mgr) (λ _. add_all_to_manager mgr adds) (w, a) tt (w', a') eq in
        adds_ok adds mgr s.0 s.1 w' a' keeps rest ∙ keep mgr w a s.0 s.1 first

    -- The part of the configurations that all of the set-up keeps.
    pub record IsConfigured (t : Target.TargetClientConfig p) (class : ClassFilter)
        (options : Target.TargetClientOptions p) (a : App p) : Type 0 where
      pub target_options : a.target_options ≡ options
      pub resource_class : a.resource_config.class_filter ≡ class
      pub secret_class : a.secret_config.class_filter ≡ class
      pub health_class : a.health_config.class_filter ≡ class
      pub resource_client : a.resource_config.target_client_config.client ≡ t.client
      pub health_client : a.health_config.target_client_config.client ≡ t.client
      pub resource_scheme : a.resource_config.target_client_config.scheme ≡ t.scheme
      pub health_scheme : a.health_config.target_client_config.scheme ≡ t.scheme

    applied-IsConfigured :
        (source : Source.SourceClientConfig p) (t : Target.TargetClientConfig p) (a : App p)
        → IsConfigured t a.resource_config.class_filter a.target_options (applied p source t a)
    unfolding applied Target.apply Resource.apply_class_filter
    applied-IsConfigured source t a = record {
      target_options = refl;
      resource_class = refl;
      secret_class = refl;
      health_class = refl;
      resource_client = refl;
      health_client = refl;
      resource_scheme = refl;
      health_scheme = refl;
    }

    identified-IsConfigured :
        (t : Target.TargetClientConfig p) (class : ClassFilter)
        (options : Target.TargetClientOptions p) (config : RestConfig) (w : World) (a : App p)
        (w' : World) (a' : App p)
        → IsConfigured t class options a
        → identified p new_manager r c config (w, a) ≡ (ok tt, (w', a'))
        → IsConfigured t class options a'
    identified-IsConfigured t class options config w a w' a' is eq =
        let (conf, s, first, last) =
          bind_ok (on_app p (λ a. Resource.apply_default_cluster_id p config a.resource_config))
            (λ conf. change p (λ a. record a { resource_config = conf })) (w, a) tt (w', a') eq in
        let kept =
          on_app_ok p (λ a. Resource.apply_default_cluster_id p config a.resource_config) w a conf
            s.0 s.1 first in
        let (id, same) =
          apply_default_cluster_id_keeps p config a.resource_config w conf s.0
            (λ i. ((first i).0, (first i).1.0)) in
        let result : a'
            ≡ record a { resource_config = record a.resource_config { cluster_id = id } } =
          ap (λ r. r.1.1) (sym last) ∙ λ i. record (kept i) { resource_config = same i } in
        rw result (record {
          target_options = is.target_options;
          resource_class = is.resource_class;
          secret_class = is.secret_class;
          health_class = is.health_class;
          resource_client = is.resource_client;
          health_client = is.health_client;
          resource_scheme = is.resource_scheme;
          health_scheme = is.health_scheme;
        })

    adders-Keeps : All Keeps (adders p new_manager r c)
    unfolding Keeps
    adders-Keeps = (
      λ mgr w a w' a' eq. ap (λ r. r.1.1) (sym eq),
      (
        λ mgr w a w' a' eq. ap (λ r. r.1.1) (sym eq),
        (
          λ mgr w a w' a' eq. ap (λ r. r.1.1) (sym eq),
          (λ mgr w a w' a' eq. ap (λ r. r.1.1) (sym eq), tt),
        ),
      ),
    )

    pub configured-IsConfigured :
        (m : Manager.ManagerConfig) (source : Source.SourceClientConfig p)
        (t : Target.TargetClientConfig p) (w : World) (a : App p) (mgr : p.Manager) (w' : World)
        (a' : App p)
        → configured p new_manager r c m source t (w, a) ≡ (ok mgr, (w', a'))
        → IsConfigured t a.resource_config.class_filter a.target_options a'
    unfolding configured
    configured-IsConfigured m source t w a mgr w' a' eq =
        let rest = managed p new_manager r c m source >>= λ mgr.
        add_all_to_manager mgr (adders p new_manager r c) >> pure mgr in
        let (u, s, first, eq₂) =
          bind_ok (identified p new_manager r c source.rest_config) (λ _. rest)
            (w, applied p source t a) mgr (w', a') eq in
        let is =
          identified-IsConfigured t a.resource_config.class_filter a.target_options
            source.rest_config w (applied p source t a) s.0 s.1 (applied-IsConfigured source t a)
            first in
        let (mgr₂, s₂, made, eq₃) =
          bind_ok (managed p new_manager r c m source)
            (λ mgr. add_all_to_manager mgr (adders p new_manager r c) >> pure mgr) s mgr (w', a')
            eq₂ in
        let (v, s₃, added, last) =
          bind_ok (add_all_to_manager mgr₂ (adders p new_manager r c)) (λ _. pure mgr₂) s₂ mgr
            (w', a') eq₃ in
        let same : a' ≡ s.1 =
          ap (λ r. r.1.1) (sym last)
          ∙ adds_ok (adders p new_manager r c) mgr₂ s₂.0 s₂.1 s₃.0 s₃.1 adders-Keeps added
          ∙ ap (λ r. r.1.1) (sym made) in
        rw same is
