-- ===== src/Local/Users.antt =====
-- The leases and the entrances of users: what the local process keeps, seen as two maps.
use mathlib.Core.Path.{subst}
use computing_api.Base.{
  >>=-eq-ok, Bool, Exec, List, Option, Result, Str, [], ap, false, if◌then◌else◌, inl, inr, none,
  ok, pure, refl, some, str_eq, true, ◌>>◌, ◌||◌, ◌∙◌, ◌∷◌, ◌≡◌, ◌≢◌,
}
use computing_api.Kv.{Badger}
use computing_api.Kv.Laws.{BadgerLaws, get_sound}
use computing_api.Chain.{Chain}
use computing_api.Kube.{Deployment, Kube, Service}
use computing_api.Deploy.{EndPoint}
use computing_api.Model.{Lease}
use computing_api.World.{World}
use computing_api.Local.{
  authorize, deploy_app, entrance_of, entrance_prefix, get_entrance, lease_prefix, prefix_key,
  terminate,
}
use computing_api.Local.Records.{authorize_keeps, deploy_app_records, terminate_removes}

-- A lease by its encoding, an entrance by its URL.
pub record Users : Type 0 where
  pub leases : Str → Option Str
  pub entrances : Str → Option Str

pub data Call : Type 0 where
  authorizes : (user : Str) → Lease → Call
  deploys : List Deployment → List Service → (user : Str) → Call
  terminates : (user : Str) → Call

-- A map that differs from another at one user, and one that does not differ.
abbrev pub Sets : Str → Option Str → (Str → Option Str) → (Str → Option Str) → Type 0
Sets user o before after = (j : Str) → after j ≡ (if str_eq user j then o else before j)

abbrev pub Keeps : (Str → Option Str) → (Str → Option Str) → Type 0
Keeps before after = (j : Str) → after j ≡ before j

or_false : (b : Bool) (o : Option Str) → (if b || false then none else o) ≡ (if b then none else o)
or_false true o = refl
or_false false o = refl

module _ (b : Badger) (k : Kube) (ch : Chain) (encode : Lease → Result Str) where
  -- What a call does to the two maps.
  pub data Does : Call → Users → Users → Type 0 where
    first_lease :
        {v v' : Users} {user : Str} {lease : Lease} (lb : Str)
        → v.leases user ≡ none
        → encode lease ≡ ok lb
        → Sets user (some lb) v.leases v'.leases
        → Keeps v.entrances v'.entrances
        → Does (authorizes user lease) v v'
    kept_lease :
        {v v' : Users} {user : Str} {lease : Lease}
        → v.leases user ≢ none
        → Keeps v.leases v'.leases
        → Keeps v.entrances v'.entrances
        → Does (authorizes user lease) v v'
    entered :
        {v v' : Users} {deps : List Deployment} {svcs : List Service} {user : Str} (ep : EndPoint)
        → Keeps v.leases v'.leases
        → Sets user (some (entrance_of b k ch ep)) v.entrances v'.entrances
        → Does (deploys deps svcs user) v v'
    ended :
        {v v' : Users} {user : Str}
        → Sets user none v.leases v'.leases
        → Sets user none v.entrances v'.entrances
        → Does (terminates user) v v'

  pub data AllDo : List Call → Users → Users → Type 0 where
    at_rest : {v : Users} → AllDo [] v v
    then_do :
        {c : Call} {calls : List Call} {v v1 v2 : Users}
        → Does c v v1
        → AllDo calls v1 v2
        → AllDo (c ∷ calls) v v2

  unfoldable pub call : Call → Exec (World b k ch) (Unit {0})
  call (authorizes user lease) = authorize b k ch encode user lease
  call (deploys deps svcs user) = deploy_app b k ch deps svcs user
  call (terminates user) = terminate b k ch user

  unfoldable pub calls_of : List Call → Exec (World b k ch) (Unit {0})
  unfolding call
  calls_of [] = pure tt
  calls_of (c ∷ calls) = call c >> calls_of calls

  module _ (laws : BadgerLaws b) where
    open laws use {contents}

    -- The maps that a database is.
    abbrev pub users_of : World b k ch → Users
    users_of w = record {
      leases = λ user. contents w.db (prefix_key user lease_prefix);
      entrances = λ user. contents w.db (prefix_key user entrance_prefix);
    }

    call-Does :
        (c : Call) (w w' : World b k ch)
        → call c w ≡ (ok tt, w')
        → Does c (users_of w) (users_of w')
    unfolding call
    call-Does (authorizes user lease) w w' h =
        let (_, kept) = authorize_keeps b laws k ch encode user lease w w' h in
        elim kept [
          | inl (there, same) ↦
              kept_lease there
                (λ j. ap (λ (x : World b k ch). contents x.db (prefix_key j lease_prefix)) same)
                (λ j. ap (λ (x : World b k ch). contents x.db (prefix_key j entrance_prefix)) same)
          | inr (fresh, lb, made, after) ↦
              first_lease lb fresh made (λ j. after (prefix_key j lease_prefix))
                (λ j. after (prefix_key j entrance_prefix))
        ]
    call-Does (deploys deps svcs user) w w' h =
        let (ep, _, after) = deploy_app_records b laws k ch deps svcs user w w' h in
        entered ep (λ j. after (prefix_key j lease_prefix))
          (λ j. after (prefix_key j entrance_prefix))
    call-Does (terminates user) w w' h =
        let after = terminate_removes b laws k ch user w w' h in
        ended (λ j. after (prefix_key j lease_prefix))
          (λ j. after (prefix_key j entrance_prefix) ∙ or_false (str_eq user j) _)

    -- Calls of `Authorize`, `Deploy` and `Terminate` that all succeed do to the two maps of the
    -- database, in their order, what each does to a map of leases and a map of entrances: a first
    -- lease is recorded in its encoding and a later one is not, a deployment sets the entrance of its
    -- user to the URL of a node port, an end removes both, and no other user's entry changes.
    pub calls_of-AllDo :
        (calls : List Call) (w w' : World b k ch)
        → calls_of calls w ≡ (ok tt, w')
        → AllDo calls (users_of w) (users_of w')
    unfolding calls_of
    calls_of-AllDo [] w w' h =
        subst (λ (x : World b k ch). AllDo [] (users_of w) (users_of x)) (λ i. (h i).1) at_rest
    calls_of-AllDo (c ∷ calls) w w' h =
        let (_, w1, first, rest) = >>=-eq-ok (call c) (λ _. calls_of calls) w h in
        then_do (call-Does c w w1 first) (calls_of-AllDo calls w1 w' rest)

    -- An entrance that is read is the one in the map.
    get_entrance-users_of :
        (user url : Str) (w : World b k ch)
        → get_entrance b k ch user w ≡ ok url
        → (users_of w).entrances user ≡ some url
    unfolding get_entrance
    get_entrance-users_of user url w h =
        get_sound b laws (prefix_key user entrance_prefix) url w.db h
