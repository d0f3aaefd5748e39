-- ===== src/Backend.antt =====
-- user/backend/computing/process.go: the user's side of the compute service.
pub mod Clients
pub mod Service
pub mod Programs
use computing_api.Base.{
  Exec, List, Option, Result, Str, String, crash, err, new, none, ok, panic, pure, raise, some, ℕ,
  ◌*◌, ◌>>=◌, ◌>>◌, ◌^◌, ◌∷◌,
}
use computing_api.Base.Int.{pos, ℤ}

-- gRPC as the processor calls it. A connection is its number; timeouts are in nanoseconds.
pub record Grpc : Type 1 where
  pub State : Type 0
  pub dial : Str → Exec State ℕ
  pub close : ℕ → Exec State (Unit {0})
  pub greet : ℕ → ℤ → Str → ℤ → List (Str × Str) → Exec State Str
  pub process : ℕ → ℤ → Str → Str → Str → Exec State Str

-- `c` and `c_close_func` name the connection that they belong to, and are nil where they are `none`.
pub record ComputingProcessor : Type 0 where
  pub c : Option ℕ
  pub c_close_func : Option ℕ
  pub greet_to : ℤ
  pub process_to : ℤ

-- `time.Minute`
abbrev pub minute : ℤ
minute = pos (60 * 10 ^ 9)

unfoldable pub new_computing_processor : ComputingProcessor
new_computing_processor = record {
  c = none;
  c_close_func = none;
  greet_to = minute;
  process_to = minute;
}

unfoldable pub set_timeout : List ℤ → ComputingProcessor → ComputingProcessor
set_timeout (greet ∷ process ∷ to) cp = record cp { greet_to = greet; process_to = process }
set_timeout to cp = record cp { greet_to = minute; process_to = minute }

unfoldable pub get_timeout : ComputingProcessor → ℤ × ℤ
get_timeout cp = (cp.greet_to, cp.process_to)

abbrev crash_nil : String
crash_nil = "call of a nil function"

module _ (grpc : Grpc) where
  pub record Session : Type 0 where
    pub cp : ComputingProcessor
    pub net : grpc.State

  abbrev pub on_net : {A : Type 0} → Exec grpc.State A → Exec Session A
  on_net m s = let (r, net) = m s.net in (r, record s { net = net })

  unfoldable pub call_close : Option ℕ → Exec Session (Unit {0})
  call_close none = crash crash_nil
  call_close (some conn) = on_net (grpc.close conn)

  abbrev pub close_old : Option ℕ → Option ℕ → Exec Session (Unit {0})
  close_old none close = pure tt
  close_old (some conn) close = call_close close

  abbrev pub keep_new : ℕ → Exec Session (Unit {0})
  keep_new conn s =
      (ok tt, record s { cp = record s.cp { c = some conn; c_close_func = some conn } })

  -- An error of closing the old connection leaves the new one open and unused.
  unfoldable pub new_client : Str → Exec Session (Unit {0})
  unfolding call_close
  new_client target_url = do
    conn ← on_net (grpc.dial target_url)
    (λ s. close_old s.cp.c s.cp.c_close_func s)
    keep_new conn

  abbrev pub cleared : Session → Session
  cleared s = record s { cp = record s.cp { c = none; c_close_func = none } }

  abbrev pub clear_after : Result (Unit {0}) → Exec Session (Unit {0})
  clear_after (ok u) s = (ok tt, cleared s)
  clear_after (err e) s = (err e, cleared s)
  clear_after (panic why) s = (panic why, s)

  -- Both fields are cleared, whether or not the closing ends with an error.
  unfoldable pub close_client : Exec Session (Unit {0})
  unfolding call_close
  close_client s = let (r, s1) = call_close s.cp.c_close_func s in clear_after r s1

  abbrev pub with_client : {A : Type 0} → Option ℕ → (ℕ → Exec Session A) → Exec Session A
  with_client none call = raise (new "no client provided")
  with_client (some conn) call = call conn

  unfoldable pub greet : ℤ → Str → List (Str × Str) → Exec Session Str
  greet msg_type input opts s =
      with_client s.cp.c (λ conn. on_net (grpc.greet conn s.cp.greet_to input msg_type opts)) s

  unfoldable pub process : Str → Str → Str → Exec Session Str
  process address apikey http_req s =
      with_client s.cp.c
        (λ conn. on_net (grpc.process conn s.cp.process_to address apikey http_req)) s
