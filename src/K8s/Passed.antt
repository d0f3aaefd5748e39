-- ===== src/K8s/Passed.antt =====
-- computing/docker/k8s_service.go: the methods that pass their arguments on to one call.
use computing_api.Base.{Exec, Result, Str}
use computing_api.K8s.Client.{ClientSet, Deployment, Namespace, Service}

module _ (k : ClientSet) where
  unfoldable create_deployment : Str → Deployment → Exec k.State Deployment
  create_deployment name_space deploy = k.create_deployment name_space deploy

  unfoldable delete_deployment : Str → Str → Exec k.State (Unit {0})
  delete_deployment namespace deployment_name = k.delete_deployment namespace deployment_name

  unfoldable get_service_by_name : Str → Str → k.State → Result Service
  get_service_by_name namespace service_name = k.get_service namespace service_name

  unfoldable delete_service : Str → Str → Exec k.State (Unit {0})
  delete_service namespace service_name = k.delete_service namespace service_name

  unfoldable delete_ingress : Str → Str → Exec k.State (Unit {0})
  delete_ingress name_space ingress_name = k.delete_ingress name_space ingress_name

  unfoldable create_name_space : Namespace → Exec k.State Namespace
  create_name_space name_space = k.create_namespace name_space

  unfoldable get_name_space : Str → k.State → Result Namespace
  get_name_space name_space = k.get_namespace name_space

  unfoldable delete_name_space : Str → Exec k.State (Unit {0})
  delete_name_space name_space = k.delete_namespace name_space
