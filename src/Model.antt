-- ===== src/Model.antt =====
-- computing/model/model.go
use computing_api.Base.{Str, []}

pub record AuthInfo : Type 0 where
  pub address : Str
  pub sig : Str
  pub msg : Str

pub record Resources : Type 0 where
  pub cpu : Str
  pub gpu : Str
  pub mem : Str
  pub storage : Str

pub record Lease : Type 0 where
  pub resources : Resources

abbrev pub no_resources : Resources
no_resources = record { cpu = []; gpu = []; mem = []; storage = [] }
