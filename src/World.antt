-- ===== src/World.antt =====
-- The state that a gateway works on: its database, the cluster, the chain, and the clock in seconds.
use computing_api.Base.{Exec, Option, Str}
use computing_api.Kv.{Badger}
use computing_api.Chain.{Chain}
use computing_api.Kube.{Kube}
use computing_api.Base.Int.{ℤ}

pub record World (b : Badger) (k : Kube) (ch : Chain) : Type 0 where
  pub db : b.Db
  pub cluster : k.State
  pub chain : ch.State
  -- The map of the gateway for tests, which is nil once it is closed.
  pub fake_db : Option (Str → Option Str)
  pub clock : ℤ

module _ {b : Badger} {k : Kube} {ch : Chain} {A : Type 0} where
  abbrev pub on_db : Exec b.Db A → Exec (World b k ch) A
  on_db m w = let (r, d) = m w.db in (r, record w { db = d })

  abbrev pub on_cluster : Exec k.State A → Exec (World b k ch) A
  on_cluster m w = let (r, s) = m w.cluster in (r, record w { cluster = s })

  abbrev pub on_chain : Exec ch.State A → Exec (World b k ch) A
  on_chain m w = let (r, s) = m w.chain in (r, record w { chain = s })
