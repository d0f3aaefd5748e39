-- ===== src/Backend/Clients.antt =====
-- The states that a processor can be in.
use computing_api.Base.{
  Exec, List, Option, Result, Str, [], branch, err, new, none, ok, panic, raise, refl, some, sym, ℕ,
  ◌>>=◌, ◌∙◌, ◌∷◌, ◌≡◌,
}
use computing_api.Base.Int.{ℤ}
use computing_api.Backend.{
  Grpc, Session, call_close, clear_after, close_client, close_old, greet, keep_new, new_client,
  new_computing_processor, on_net, process, set_timeout, with_client,
}

module _ (grpc : Grpc) where
  -- What a program does with a processor, a call after another, each as it ends.
  pub data Reachable : Session grpc → Type 0 where
    fresh : (net : grpc.State) → Reachable (record { cp = new_computing_processor; net = net })
    dialled : {s : Session grpc} (url : Str) → Reachable s → Reachable (new_client grpc url s).1
    closed : {s : Session grpc} → Reachable s → Reachable (close_client grpc s).1
    timed :
        {s : Session grpc} (to : List ℤ)
        → Reachable s
        → Reachable (record s { cp = set_timeout to s.cp })
    greeted :
        {s : Session grpc} (msg_type : ℤ) (input : Str) (opts : List (Str × Str))
        → Reachable s
        → Reachable (greet grpc msg_type input opts s).1
    processed :
        {s : Session grpc} (address apikey http_req : Str)
        → Reachable s
        → Reachable (process grpc address apikey http_req s).1

  -- The client and the function that closes it are there together, for one connection.
  abbrev pub Paired : Session grpc → Type 0
  Paired s = s.cp.c ≡ s.cp.c_close_func

  close_old-Paired :
      (c close : Option ℕ) (s : Session grpc) → Paired s → Paired (close_old grpc c close s).1
  unfolding call_close
  close_old-Paired none close s h = h
  close_old-Paired (some conn) none s h = h
  close_old-Paired (some conn) (some old) s h = h

  keep_new-Paired :
      (r : Result (Unit {0})) (conn : ℕ) (s : Session grpc)
      → Paired s
      → Paired (branch r raise (λ _. keep_new grpc conn) s).1
  keep_new-Paired (ok u) conn s h = refl
  keep_new-Paired (err e) conn s h = h
  keep_new-Paired (panic why) conn s h = h

  dialled-Paired :
      (r : Result ℕ) (s : Session grpc)
      → Paired s
      → Paired
          (branch r raise
            (λ conn. (λ t. close_old grpc t.cp.c t.cp.c_close_func t) >>= λ _. keep_new grpc conn)
            s).1
  dialled-Paired (ok conn) s h =
      keep_new-Paired (close_old grpc s.cp.c s.cp.c_close_func s).0 conn _
        (close_old-Paired s.cp.c s.cp.c_close_func s h)
  dialled-Paired (err e) s h = h
  dialled-Paired (panic why) s h = h

  new_client-Paired : (url : Str) (s : Session grpc) → Paired s → Paired (new_client grpc url s).1
  unfolding new_client
  new_client-Paired url s h =
      dialled-Paired (grpc.dial url s.net).0 (record s { net = (grpc.dial url s.net).1 }) h

  clear_after-Paired :
      (r : Result (Unit {0})) (s : Session grpc) → Paired s → Paired (clear_after grpc r s).1
  clear_after-Paired (ok u) s h = refl
  clear_after-Paired (err e) s h = refl
  clear_after-Paired (panic why) s h = h

  call_close-Paired :
      (close : Option ℕ) (s : Session grpc) → Paired s → Paired (call_close grpc close s).1
  unfolding call_close
  call_close-Paired none s h = h
  call_close-Paired (some conn) s h = h

  close_client-Paired : (s : Session grpc) → Paired s → Paired (close_client grpc s).1
  unfolding close_client
  close_client-Paired s h =
      clear_after-Paired (call_close grpc s.cp.c_close_func s).0
        (call_close grpc s.cp.c_close_func s).1 (call_close-Paired s.cp.c_close_func s h)

  set_timeout-Paired :
      (to : List ℤ) (s : Session grpc) → Paired s → Paired (record s { cp = set_timeout to s.cp })
  unfolding set_timeout
  set_timeout-Paired [] s h = h
  set_timeout-Paired (greet ∷ []) s h = h
  set_timeout-Paired (greet ∷ process ∷ to) s h = h

  with_client-Paired :
      {A : Type 0} (c : Option ℕ) (call : ℕ → Exec grpc.State A) (s : Session grpc)
      → Paired s
      → Paired (with_client grpc c (λ conn. on_net grpc (call conn)) s).1
  with_client-Paired none call s h = h
  with_client-Paired (some conn) call s h = h

  -- In every state that calls lead to, errors and panics included, the client and the function that
  -- closes it are there together, for one connection.
  pub Reachable-Paired : (s : Session grpc) → Reachable s → Paired s
  unfolding greet process new_computing_processor
  Reachable-Paired _ (fresh net) = refl
  Reachable-Paired _ (dialled {s} url r) = new_client-Paired url s (Reachable-Paired s r)
  Reachable-Paired _ (closed {s} r) = close_client-Paired s (Reachable-Paired s r)
  Reachable-Paired _ (timed {s} to r) = set_timeout-Paired to s (Reachable-Paired s r)
  Reachable-Paired _ (greeted {s} msg_type input opts r) =
      with_client-Paired s.cp.c (λ conn. grpc.greet conn s.cp.greet_to input msg_type opts) s
        (Reachable-Paired s r)
  Reachable-Paired _ (processed {s} address apikey http_req r) =
      with_client-Paired s.cp.c (λ conn. grpc.process conn s.cp.process_to address apikey http_req)
        s (Reachable-Paired s r)

  closed_twice :
      (s : Session grpc)
      → Paired s
      → s.cp.c ≡ none
      → (close_client grpc s).0 ≡ panic "call of a nil function"
  unfolding close_client call_close
  closed_twice s h none_left = rw (sym h ∙ none_left) refl

  -- In a reachable state that has no client, as after a first closing, `CloseClient` panics; the
  -- calls that need a client return an error there and change nothing.
  close_client-twice :
      (s : Session grpc) (msg_type : ℤ) (input address apikey http_req : Str)
      (opts : List (Str × Str))
      → Reachable s
      → s.cp.c ≡ none
      → ((close_client grpc s).0 ≡ panic "call of a nil function")
        × (greet grpc msg_type input opts s ≡ (err (new "no client provided"), s))
        × (process grpc address apikey http_req s ≡ (err (new "no client provided"), s))
  unfolding greet process
  close_client-twice s msg_type input address apikey http_req opts r absent =
      (closed_twice s (Reachable-Paired s r) absent, rw absent refl, rw absent refl)
