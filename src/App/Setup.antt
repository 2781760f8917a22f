-- ===== src/App/Setup.antt =====
-- What the controllers are set up with.
use gardener_resource_manage.Prelude.Tests.{string_eq}
use gardener_resource_manage.Exec.{Exec}
use gardener_resource_manage.Cmd.Platform.{Platform}
use gardener_resource_manage.Cmd.Manager
use gardener_resource_manage.Cmd.Target
use gardener_resource_manage.Controllers.Resource
use gardener_resource_manage.App.{App}
