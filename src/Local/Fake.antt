-- ===== src/Local/Fake.antt =====
-- computing/gateway/local/fake.go: the local process for tests, over a map.
pub mod Laws
use computing_api.Base.{
  Bool, Exec, List, Option, Result, Str, [], err, false, if◌then◌else◌, new, none, ok, panic, pure,
  some, str_eq, true, ◌>>=◌, ◌>>◌,
}
use computing_api.Chain.{Chain}
use computing_api.Kv.{Badger}
use computing_api.Kube.{Deployment, Kube, Service}
use computing_api.Model.{AuthInfo, Lease}
use computing_api.World.{World}
use computing_api.Local.{entrance_prefix, lease_prefix, prefix_key}

abbrev pub Map : Type 0
Map = Str → Option Str

abbrev pub set_entry : Str → Option Str → Map → Map
set_entry key value m j = if str_eq key j then value else m j

-- `NewFakeImplementofLocalProcess`
abbrev pub new_fake : Option Map
new_fake = some (λ key. none)

-- A nil map has no entry, and a write to it is a panic.
unfoldable pub map_put : Str → Str → Exec (Option Map) (Unit {0})
map_put key value none = (panic "assignment to entry in nil map", none)
map_put key value (some m) = (ok tt, some (set_entry key (some value) m))

unfoldable pub map_get : Str → Option Map → Option Str
map_get key none = none
map_get key (some m) = m key

unfoldable pub map_delete : Str → Exec (Option Map) (Unit {0})
map_delete key none = (ok tt, none)
map_delete key (some m) = (ok tt, some (set_entry key none m))

module _ (b : Badger) (k : Kube) (ch : Chain) where
  abbrev pub on_fake : {A : Type 0} → Exec (Option Map) A → Exec (World b k ch) A
  on_fake m w = let (r, db) = m w.fake_db in (r, record w { fake_db = db })

  abbrev pub is_there : Option Str → Bool
  is_there none = false
  is_there (some v) = true

  abbrev pub found_or : Option Str → Result Str
  found_or none = err (new "entrance is not found in test map")
  found_or (some ent) = ok ent

  unfoldable pub fake_check_auth_info : AuthInfo → World b k ch → Result Bool
  unfolding map_get
  fake_check_auth_info ainfo w =
      ok (is_there (map_get (prefix_key ainfo.address lease_prefix) w.fake_db))

  unfoldable pub fake_authorize : Str → Lease → Exec (World b k ch) (Unit {0})
  unfolding map_put
  fake_authorize user lease = on_fake (map_put (prefix_key user lease_prefix) [])

  unfoldable pub fake_get_entrance : Str → World b k ch → Result Str
  unfolding map_get
  fake_get_entrance user w = found_or (map_get (prefix_key user entrance_prefix) w.fake_db)

  unfoldable pub fake_terminate : Str → Exec (World b k ch) (Unit {0})
  unfolding map_delete
  fake_terminate user = do
    on_fake (map_delete (prefix_key user entrance_prefix))
    on_fake (map_delete (prefix_key user lease_prefix))

  -- `Deploy` and `Compute` do nothing.
  unfoldable pub fake_deploy : List Deployment → List Service → Str → Exec (World b k ch) (Unit {0})
  fake_deploy deps svcs user = pure tt

  unfoldable pub fake_close : Exec (World b k ch) (Unit {0})
  fake_close w = (ok tt, record w { fake_db = none })
