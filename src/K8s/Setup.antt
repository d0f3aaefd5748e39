-- ===== src/K8s/Setup.antt =====
-- computing/docker/k8s_service.go: how the service is made, with the client set of the process.
use computing_api.Base.{
  Bool, Exec, Option, Result, Str, [], bind, branch, err, false, if◌then◌else◌, none, not, ok,
  panic, pure, raise, refl, rescue, some, str_eq, true, ◌>>=◌, ◌≡◌,
}
use computing_api.Std.Strings.Split.{replace_all, split}
use computing_api.K8s.Version.{
  is_kubernetes_version_greater_than, parse_kubernetes_version, parse_parts,
}

-- What client-go, the flags and the home directory give; the path is that of the configuration.
pub record Platform : Type 1 where
  pub Config : Type 0
  pub Clientset : Type 0
  pub in_cluster_config : Result Config
  pub home_dir : Str
  pub default_path : Str → Str
  -- `flag.Parse` of the flag with this default value; it may end the process.
  pub kube_config : Str → Result Str
  pub build_config : Str → Result Config
  pub new_for_config : Config → Result Clientset
  pub server_version : Clientset → Result Str

module _ (platform : Platform) where
  -- The variables of the package: `clientSet`, which is nil at first, and whether `k8sOnce` is done.
  pub record Globals : Type 0 where
    pub client_set : Option platform.Clientset
    pub once : Bool

  pub record K8sService : Type 0 where
    pub client_set : Option platform.Clientset
    pub version : Str

  unfoldable pub load_config : Result platform.Config
  load_config =
      rescue platform.in_cluster_config
        (λ _.
          bind
            (platform.kube_config (
              if not (str_eq platform.home_dir [])
              then platform.default_path platform.home_dir
              else []))
            platform.build_config)
        ok

  -- What the calls on a new client set leave in the two variables.
  abbrev connected : platform.Clientset → Result Str → Globals → Result Str × Globals
  connected c (ok version) g = (ok version, record g { client_set = some c })
  connected c (err e) g = (ok [], record g { client_set = some c })
  connected c (panic why) g = (panic why, record g { client_set = some c })

  abbrev configured : Result platform.Clientset → Globals → Result Str × Globals
  configured (ok c) g = connected c (platform.server_version c) g
  configured (err e) g = (ok [], record g { client_set = none })
  configured (panic why) g = (panic why, g)

  -- The function of `k8sOnce`, which logs its errors: the version that it found.
  unfoldable pub connect : Exec Globals Str
  unfolding load_config
  connect g = branch load_config (λ _. pure []) (λ c. configured (platform.new_for_config c)) g

  -- `version` is a variable of the call, and `k8sOnce` runs the function in the first call only.
  unfoldable pub new_k8s_service : Exec Globals K8sService
  unfolding connect
  new_k8s_service g =
      let first =
        (connect >>= λ version t. pure (record { client_set = t.client_set; version = version }) t)
          (record g { once = true }) in
      if g.once then pure (record { client_set = g.client_set; version = [] }) g else first

  connected-once :
      (c : platform.Clientset) (r : Result Str) (g : Globals) → (connected c r g).1.once ≡ g.once
  connected-once c (ok version) g = refl
  connected-once c (err e) g = refl
  connected-once c (panic why) g = refl

  configured-once : (r : Result platform.Clientset) (g : Globals) → (configured r g).1.once ≡ g.once
  configured-once (ok c) g = connected-once c (platform.server_version c) g
  configured-once (err e) g = refl
  configured-once (panic why) g = refl

  loaded-once :
      (r : Result platform.Config) (g : Globals)
      → (branch r (λ _. pure []) (λ c. configured (platform.new_for_config c)) g).1.once ≡ g.once
  loaded-once (ok c) g = configured-once (platform.new_for_config c) g
  loaded-once (err e) g = refl
  loaded-once (panic why) g = refl

  -- A service has the client set of the process, and `k8sOnce` is done.
  abbrev Shared : K8sService → Globals → Type 0
  Shared service g = (service.client_set ≡ g.client_set) × (g.once ≡ true)

  made-Shared :
      (r : Result Str) (g g' : Globals) (service : K8sService)
      → g.once ≡ true
      → branch r raise
          (λ version t. pure (record { client_set = t.client_set; version = version }) t)
          g
        ≡ (ok service, g')
      → Shared service g'
  made-Shared (ok version) g g' service done h = (cc, cc)
  made-Shared (err e) g g' service done h = cc
  made-Shared (panic why) g g' service done h = cc

  new_k8s_service-Shared :
      (once : Bool) (g g' : Globals) (service : K8sService)
      → g.once ≡ once
      → new_k8s_service g ≡ (ok service, g')
      → Shared service g'
  unfolding new_k8s_service connect
  new_k8s_service-Shared true g g' service e h = let h1 = rw e at h in (cc, cc)
  new_k8s_service-Shared false g g' service e h =
      made-Shared _ (connect (record g { once = true })).1 g' service
        (loaded-once load_config (record g { once = true })) (rw e at h)

  -- Where a call of `NewK8sService` has returned a service, every call after it returns one with the
  -- same client set, also where that is nil, and with no version, which
  -- `IsKubernetesVersionGreaterThan` never takes for the later one.
  pub new_k8s_service-again :
      (g g' : Globals) (service : K8sService) (target_version : Str)
      → new_k8s_service g ≡ (ok service, g')
      → (new_k8s_service g' ≡ (ok (record { client_set = service.client_set; version = [] }), g'))
        × (is_kubernetes_version_greater_than [] target_version ≡ false)
  unfolding new_k8s_service is_kubernetes_version_greater_than parse_kubernetes_version parse_parts
      split replace_all
  new_k8s_service-again g g' service target_version h =
      let (same, done) = new_k8s_service-Shared g.once g g' service refl h in
      (rw (done, same) refl, refl)
