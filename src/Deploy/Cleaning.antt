-- ===== src/Deploy/Cleaning.antt =====
-- What `Clean` leaves on the cluster.
use computing_api.Base.{List, Result, Str, branch, err, ok, panic, raise, refl, ◌∙◌, ◌∷◌, ◌≡◌, ◌≢◌}
use computing_api.Kube.{Deployment, Kube}
use computing_api.Deploy.{clean, del_deploy}

module _ (k : Kube) where
  -- What the program relies on of deletions: a deployment of another name, and every deployment when
  -- a service is deleted, is seen as before.
  pub record DeletionLaws : Type 1 where
    pub other_law :
        (name other_name : Str) (s : k.State)
        → other_name ≢ name
        → k.conditions_of other_name (k.delete_deployment name s).1 ≡ k.conditions_of other_name s
    pub service_law :
        (name other_name : Str) (s : k.State)
        → k.conditions_of other_name (k.delete_service name s).1 ≡ k.conditions_of other_name s

  seen_after :
      (laws : DeletionLaws) (name svc other_name : Str) (s : k.State) (r : Result (Unit {0}))
      → k.conditions_of other_name (branch r raise (λ _. k.delete_service svc) s).1
        ≡ k.conditions_of other_name s
  seen_after laws name svc other_name s (ok a) = laws.service_law svc other_name s
  seen_after laws name svc other_name s (err e) = refl
  seen_after laws name svc other_name s (panic why) = refl

  -- `Clean` leaves every deployment whose name is not that of the first in its list as it is seen on
  -- the cluster, also one that the list names further back.
  clean_keeps :
      (laws : DeletionLaws) (dep : Deployment) (deps : List Deployment) (other_name : Str)
      (s : k.State)
      → other_name ≢ dep.name
      → k.conditions_of other_name (clean k (dep ∷ deps) s).1 ≡ k.conditions_of other_name s
  unfolding clean del_deploy
  clean_keeps laws dep deps other_name s apart =
      seen_after laws dep.name _ other_name (k.delete_deployment dep.name s).1
        (k.delete_deployment dep.name s).0
      ∙ laws.other_law dep.name other_name s apart
