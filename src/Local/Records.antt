-- ===== src/Local/Records.antt =====
-- What the local process does to the records of leases and entrances.
use computing_api.Base.{
  >>=-eq-ok, Bool, Error, Exec, List, Result, Str, [], ap, arith, false, if◌then◌else◌, inl, inr,
  lift->>=-eq-ok, none, ok, pure, raise, reads->>=-eq-ok, refl, some, str_eq, sym, true, ◌||◌, ◌∙◌,
  ◌∷◌, ◌≡◌, ◌≢◌, ◌⊎◌,
}
use computing_api.Kv.{Badger, has, multi_delete, put}
use computing_api.Kv.Laws.{BadgerLaws, contents-multi_delete, contents-put, has_sound}
use computing_api.Chain.{Chain}
use computing_api.Kube.{Deployment, Kube, Service}
use computing_api.Deploy.{EndPoint, deploy}
use computing_api.Model.{Lease}
use computing_api.World.{World, on_cluster, on_db}
use computing_api.Local.{
  authorize, deploy_app, entrance_of, entrance_prefix, lease_prefix, prefix_key, terminate,
}

on_db_ok :
    {b : Badger} {k : Kube} {ch : Chain} (m : Exec b.Db (Unit {0})) (w w' : World b k ch)
    → on_db m w ≡ (ok tt, w')
    → m w.db ≡ (ok tt, w'.db)
on_db_ok m w w' h = λ i. ((h i).0, (h i).1.db)

on_cluster_ok :
    {b : Badger} {k : Kube} {ch : Chain} {A : Type 0} (m : Exec k.State A) (w w' : World b k ch)
    (a : A)
    → on_cluster m w ≡ (ok a, w')
    → (m w.cluster ≡ (ok a, w'.cluster)) × (w'.db ≡ w.db)
on_cluster_ok m w w' a h = (λ i. ((h i).0, (h i).1.cluster), λ i. (sym h i).1.db)

guarded_put :
    {W : Type 0} (there : Bool) (go : Exec W (Unit {0})) (w w' : W)
    → (if there then pure tt else go) w ≡ (ok tt, w')
    → ((there ≡ true) × (w' ≡ w)) ⊎ ((there ≡ false) × (go w ≡ (ok tt, w')))
guarded_put true go w w' h = inl (refl, λ i. (sym h i).1)
guarded_put false go w w' h = inr (refl, h)

named_user :
    {W : Type 0} (user : Str) (e : Error) (go : Exec W (Unit {0})) (w w' : W)
    → (if str_eq user [] then raise e else go) w ≡ (ok tt, w')
    → (user ≢ []) × (go w ≡ (ok tt, w'))
named_user [] e go w w' h = absurd cc
named_user (u ∷ user) e go w w' h = (λ same. cc, h)

module _ (b : Badger) (laws : BadgerLaws b) (k : Kube) (ch : Chain) where
  open laws use {contents}

  -- A `Terminate` that succeeds removes the entrance and the lease of its user and no other record.
  pub terminate_removes :
      (user : Str) (w w' : World b k ch)
      → terminate b k ch user w ≡ (ok tt, w')
      → (j : Str)
      → contents w'.db j ≡ (
          if str_eq (prefix_key user entrance_prefix) j || str_eq (prefix_key user lease_prefix) j
          then none
          else contents w.db j)
  unfolding terminate
  terminate_removes user w w' h j = ground (
    arith,
    contents-multi_delete b laws
        (prefix_key user entrance_prefix ∷ prefix_key user lease_prefix ∷ []) w.db w'.db
        (on_db_ok
          (multi_delete b (prefix_key user entrance_prefix ∷ prefix_key user lease_prefix ∷ [])) w
          w' h)
        j,
  )

  -- A deployment that the local process reports as done has run on the cluster, and exactly the
  -- entrance of its user is changed: it is the URL of the node port that the cluster gave.
  pub deploy_app_records :
      (deps : List Deployment) (svcs : List Service) (user : Str) (w w' : World b k ch)
      → deploy_app b k ch deps svcs user w ≡ (ok tt, w')
      → (ep : EndPoint) × (deploy k deps svcs user w.cluster ≡ (ok ep, w'.cluster))
        × ((j : Str)
            → contents w'.db j ≡ (
                if str_eq (prefix_key user entrance_prefix) j
                then some (entrance_of b k ch ep)
                else contents w.db j))
  unfolding deploy_app
  deploy_app_records deps svcs user w w' h =
      let (ep, w1, ran, rest) = >>=-eq-ok (on_cluster (deploy k deps svcs user)) _ w h in
      let (done, same) = on_cluster_ok (deploy k deps svcs user) w w1 ep ran in
      (
        ep,
        done ∙ (λ i. (ok ep, (rest i).1.cluster)),
        λ j.
            contents-put b laws _ (entrance_of b k ch ep) w1.db w'.db
              (on_db_ok (put b (prefix_key user entrance_prefix) (entrance_of b k ch ep)) w1 w'
                rest)
              j
            ∙ ap
                (λ d.
                  if str_eq (prefix_key user entrance_prefix) j
                  then some (entrance_of b k ch ep)
                  else contents d j)
                same,
      )

  -- An `Authorize` that succeeds has a user; it keeps the lease that the user has, and otherwise
  -- records the new one; it changes no other record.
  pub authorize_keeps :
      (encode : Lease → Result Str) (user : Str) (lease : Lease) (w w' : World b k ch)
      → authorize b k ch encode user lease w ≡ (ok tt, w')
      → (user ≢ [])
        × (((contents w.db (prefix_key user lease_prefix) ≢ none) × (w' ≡ w))
            ⊎ ((contents w.db (prefix_key user lease_prefix) ≡ none)
                × (lb : Str) × (encode lease ≡ ok lb)
                × ((j : Str)
                    → contents w'.db j ≡ (
                        if str_eq (prefix_key user lease_prefix) j
                        then some lb
                        else contents w.db j))))
  unfolding authorize
  authorize_keeps encode user lease w w' h =
      let key = prefix_key user lease_prefix in
      let (named, h1) = named_user user _ _ w w' h in
      let (there, asked, h2) = reads->>=-eq-ok (λ v. has b key v.db) _ w h1 in
      let answer = has_sound b laws key there w.db asked in
      (
        named,
        elim (guarded_put there _ w w' h2) [
          | inl (old, same) ↦ inl (λ nothing. cc (answer.1 nothing, old), same)
          | inr (fresh, h3) ↦
              let (lb, made, h4) = lift->>=-eq-ok (encode lease) _ w h3 in
              inr (
                answer.0 fresh,
                lb,
                made,
                contents-put b laws key lb w.db w'.db (on_db_ok (put b key lb) w w' h4),
              )
        ],
      )
