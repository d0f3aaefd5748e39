-- ===== src/Local/Fake/Laws.antt =====
-- Who is authenticated by the local process for tests.
use computing_api.Base.{
  >>=-goes_on, Option, Result, Str, [], ap, false, none, ok, refl, some, str_eq_refl, sym, true,
  ◌∙◌, ◌≡◌,
}
use computing_api.Chain.{Chain}
use computing_api.Kv.{Badger}
use computing_api.Kube.{Kube}
use computing_api.Model.{Lease}
use computing_api.World.{World}
use computing_api.Local.Fake.{
  Map, fake_authorize, fake_check_auth_info, fake_terminate, is_there, map_delete, map_get, map_put,
  on_fake,
}
use computing_api.Local.{entrance_prefix, lease_prefix, prefix_key}

module _ (b : Badger) (k : Kube) (ch : Chain) where
  put_there :
      (db : Option Map) (key value : Str) (w w' : World b k ch)
      → ◌≡◌ {A = Result (Unit {0}) × World b k ch}
          ((map_put key value db).0, record w { fake_db = (map_put key value db).1 })
          (ok tt, w')
      → is_there b k ch (map_get key w'.fake_db) ≡ true
  unfolding map_put map_get
  put_there none key value w w' h = absurd (cc)
  put_there (some m) key value w w' h =
      ap (λ r. is_there b k ch (map_get key r.1.fake_db)) (sym h) ∙ rw (str_eq_refl key) refl

  deleted_there :
      (db : Option Map) (first key : Str)
      → is_there b k ch (map_get key (map_delete key (map_delete first db).1).1) ≡ false
  unfolding map_delete map_get
  deleted_there none first key = refl
  deleted_there (some m) first key = rw (str_eq_refl key) refl

  both_deleted :
      (db : Option Map) (first key : Str) (w : World b k ch)
      → on_fake b k ch (map_delete first) (record w { fake_db = db })
        ≡ (ok tt, record w { fake_db = (map_delete first db).1 })
  unfolding map_delete
  both_deleted none first key w = refl
  both_deleted (some m) first key w = refl

  -- A user who was authorized is authenticated, whatever the signature.
  fake_check_auth_info-authorize :
      (user sig msg : Str) (lease : Lease) (w w' : World b k ch)
      → fake_authorize b k ch user lease w ≡ (ok tt, w')
      → fake_check_auth_info b k ch (record { address = user; sig = sig; msg = msg }) w' ≡ ok true
  unfolding fake_check_auth_info fake_authorize
  fake_check_auth_info-authorize user sig msg lease w w' h =
      ap ok (put_there w.fake_db (prefix_key user lease_prefix) [] w w' h)

  -- A user whose lease was ended is not.
  fake_check_auth_info-terminate :
      (user sig msg : Str) (w : World b k ch)
      → fake_check_auth_info b k ch
          (record { address = user; sig = sig; msg = msg })
          (fake_terminate b k ch user w).1
        ≡ ok false
  unfolding fake_check_auth_info fake_terminate
  fake_check_auth_info-terminate user sig msg w =
      let first = prefix_key user entrance_prefix in
      let key = prefix_key user lease_prefix in
      ap (λ r. ok (is_there b k ch (map_get key r.1.fake_db)))
        (>>=-goes_on (on_fake b k ch (map_delete first)) (λ _. on_fake b k ch (map_delete key)) w
          (both_deleted w.fake_db first key w))
      ∙ ap ok (deleted_there w.fake_db first key)
