-- ===== src/Cmd/Daemon/Laws.antt =====
-- What a daemon that has served was started with.
use mathlib.Core.Path.{subst}
use computing_api.Base.{
  >>=-eq-ok, Bool, Bool-cases, Error, Exec, Result, Str, String, [], ap, attempt, bind, branch,
  crash, err, false, if◌then◌else◌, inl, inr, lift, lift->>=-eq-ok, ok, ok-injective, panic, pure,
  refl, some, str_eq, str_eq_iff, sym, text, true, ℕ, ◌>>=◌, ◌>>◌, ◌∙◌, ◌≡◌, ◌≢◌,
}
use computing_api.Keystore.Files.{Files}
use computing_api.Keystore.Store.{Codec, KeyInfo, get, sk_of}
use computing_api.Config.{GatewayConfig}
use computing_api.Prover.{GridProver, new_grid_prover}
use computing_api.Cmd.Daemon.{
  Contracts, Daemon, Gateway, Outside, close_gateway, closed_again, gateway_of, open_gateway,
  opened, run_cmd, save_addresses, select_chain, selected, serve_until_quit, start_prover,
}

built :
    (b : Bool) (e : Error) (r : Result Str) (of_address : Str → GridProver) (p : GridProver)
    → (if b then err e else bind r (λ a. ok (of_address a))) ≡ ok p
    → (a : Str) × (r ≡ ok a) × (of_address a ≡ p)
built true e r of_address p h = absurd (cc)
built false e (ok a) of_address p h = (a, refl, ok-injective h)
built false e (err x) of_address p h = absurd (cc)
built false e (panic why) of_address p h = absurd (cc)

new_grid_prover-made :
    (address_of_key : Str → Result Str) (chain validator_url sk : Str) (id : ℕ) (p : GridProver)
    → new_grid_prover address_of_key chain validator_url sk id ≡ ok p
    → (address_of_key sk ≡ ok p.node.address) × (p.validator_url ≡ validator_url)
unfolding new_grid_prover
new_grid_prover-made address_of_key chain validator_url sk id p h =
    let (a, read, made) = built (str_eq sk []) _ (address_of_key sk) _ p h in
    (
      read ∙ ap (λ (q : GridProver). ok q.node.address) made,
      ap (λ (q : GridProver). q.validator_url) (sym made),
    )

module _ (out : Outside) where
  started :
      (r : Result GridProver) (d d' : Daemon)
      → branch r
          (λ _. crash "log.Fatalf: new light node prover")
          (λ p (e : Daemon). (ok tt, record e { prover = some p }))
          d
        ≡ (ok tt, d')
      → (p : GridProver) × (r ≡ ok p) × (d' ≡ record d { prover = some p })
  started (ok p) d d' h = (p, refl, λ i. (sym h i).1)
  started (err e) d d' h = absurd (cc)
  started (panic why) d d' h = absurd (cc)

  start_prover_lem :
      (chain validator_url sk : Str) (d d' : Daemon)
      → start_prover out chain validator_url sk d ≡ (ok tt, d')
      → (p : GridProver) × (new_grid_prover out.address_of_key chain validator_url sk 1 ≡ ok p)
        × (d' ≡ record d { prover = some p })
  unfolding start_prover
  start_prover_lem chain validator_url sk d d' h =
      started (new_grid_prover out.address_of_key chain validator_url sk 1) d d' h

  -- The endpoint of a chain and its contracts, by its name.
  pub data IsChain : Str → Str → Contracts → Type 0 where
    on_local : IsChain (text "local") out.ganache out.load_local
    on_sepo : IsChain (text "sepo") out.sepolia out.load_sepo
    on_dev : IsChain (text "dev") out.dev_chain out.load_dev

  -- The state `d'` has the addresses of the contracts of the chain, whose endpoint is `e`.
  abbrev Selects : Str → Str → Daemon → Daemon → Type 0
  Selects chain e d d' =
      (l : Contracts) × IsChain chain e l
      × (d' ≡ record d { addresses = some (save_addresses out l) })

  of_case :
      (name chain endpoint e : Str) (l : Contracts) (d d' : Daemon)
      → IsChain name endpoint l
      → str_eq chain name ≡ true
      → selected out endpoint l d ≡ (ok e, d')
      → Selects chain e d d'
  of_case name chain endpoint e l d d' known same h =
      let named : name ≡ chain = sym ((str_eq_iff chain name).0 same) in
      let at_end : endpoint ≡ e = ok-injective (λ i. (h i).0) in
      (
        l,
        subst (λ n. IsChain n e l) named (subst (λ x. IsChain name x l) at_end known),
        λ i. (sym h i).1,
      )

  select_chain_lem :
      (chain e : Str) (d d' : Daemon) → select_chain out chain d ≡ (ok e, d') → Selects chain e d d'
  unfolding select_chain
  select_chain_lem chain e d d' h = elim (Bool-cases (str_eq chain (text "local"))) [
    | inl same ↦ of_case (text "local") chain _ e _ d d' on_local same (rw same at h)
    | inr not_local ↦ elim (Bool-cases (str_eq chain (text "sepo"))) [
      | inl same ↦ of_case (text "sepo") chain _ e _ d d' on_sepo same (rw (not_local, same) at h)
      | inr not_sepo ↦ elim (Bool-cases (str_eq chain (text "dev"))) [
        | inl same ↦
            of_case (text "dev") chain _ e _ d d' on_dev same (rw (not_local, not_sepo, same) at h)
        | inr unknown ↦ let none_left = (rw (not_local, not_sepo, unknown) at h) in absurd (cc)
      ]
    ]
  ]

  not_printed :
      (b : Bool) (next : Unit {0} → Exec Daemon (Unit {0})) (d : Daemon) {d' : Daemon}
      → ((if b then crash "os.Exit(0)" else pure tt) >>= next) d ≡ (ok tt, d')
      → next tt d ≡ (ok tt, d')
  not_printed true next d h = absurd (cc)
  not_printed false next d h = h

  opened_or_not :
      (r : Result (Unit {0})) (gw gw' : Gateway) (d d' : Daemon)
      → branch r
          (λ _. crash "Fail to open up the database")
          (λ _ (e : Daemon). (ok gw, record e { database = opened }))
          d
        ≡ (ok gw', d')
      → (gw' ≡ gw) × (d' ≡ record d { database = opened })
  opened_or_not (ok u) gw gw' d d' h = (ok-injective (λ i. (sym h i).0), λ i. (sym h i).1)
  opened_or_not (err e) gw gw' d d' h = absurd (cc)
  opened_or_not (panic why) gw gw' d d' h = absurd (cc)

  pub open_gateway_lem :
      (conf : GatewayConfig) (ep : Str) (test : Bool) (gw : Gateway) (d d' : Daemon)
      → open_gateway out conf ep test d ≡ (ok gw, d')
      → (gw ≡ gateway_of conf ep test) × (d' ≡ record d { database = opened })
  unfolding open_gateway
  open_gateway_lem conf ep test gw d d' h =
      opened_or_not (out.open_database conf.db_path) (gateway_of conf ep test) gw d d' h

  closed_or_not :
      (r : Result (Unit {0})) (d d' : Daemon)
      → branch r (λ _. crash "log.Fatal: Server forced to shutdown") (λ _. close_gateway out) d
        ≡ (ok tt, d')
      → d' ≡ record d { database = closed_again }
  closed_or_not (ok u) d d' h = λ i. (sym h i).1
  closed_or_not (err e) d d' h = absurd (cc)
  closed_or_not (panic why) d d' h = absurd (cc)

  -- A call whose error ends the process has succeeded where the rest has.
  pub not_fatal :
      (r : Result (Unit {0})) (why : String) (d d' : Daemon) (next : Exec Daemon (Unit {0}))
      → (attempt (lift r) (λ _. crash why) pure >> next) d ≡ (ok tt, d')
      → next d ≡ (ok tt, d')
  not_fatal (ok u) why d d' next h = h
  not_fatal (err e) why d d' next h = absurd (cc)
  not_fatal (panic w) why d d' next h = absurd (cc)

  -- A run that ends with no error has opened the key of the configured wallet with the password, and
  -- has served with it: the key and its wallet are what the rest of the program finds, and the prover
  -- works for the address of the same key with the validator of the configuration. The chain that was
  -- asked for is "local", "sepo" or "dev": the saved addresses are those of the contracts that are
  -- loaded for it. The gateway behind the server has the endpoint of that chain, the wallet, and the
  -- local process for tests where it was asked for, and the database is closed.
  pub run_cmd_lem :
      (fs : Files) (codec : Codec) (repo_path : Str) (files : fs.State) (conf : GatewayConfig)
      (test : Bool) (chain pw : Str) (d d' : Daemon)
      → run_cmd out fs codec repo_path files conf test chain pw d ≡ (ok tt, d')
      → (ki : KeyInfo) × (p : GridProver) × (e : Str) × (l : Contracts) × (get fs codec repo_path
            conf.wallet pw files
          ≡ ok ki)
        × (d'.sk ≡ sk_of ki)
        × (d'.cp ≡ conf.wallet)
        × (d'.password ≡ pw)
        × (d'.prover ≡ some p)
        × (out.address_of_key (sk_of ki) ≡ ok p.node.address)
        × (p.validator_url ≡ conf.validator_url)
        × IsChain chain e l
        × (d'.addresses ≡ some (save_addresses out l))
        × (d'.server ≡ some (conf.http_listen, gateway_of conf e test))
        × (d'.database ≡ closed_again)
  unfolding run_cmd serve_until_quit
  run_cmd_lem fs codec repo_path files conf test chain pw d d' h =
      let (ki, unlocked, h1) = lift->>=-eq-ok (get fs codec repo_path conf.wallet pw files) _ d h in
      let d1 : Daemon = record d { password = pw; cp = conf.wallet; sk = sk_of ki } in
      let h2 = not_printed out.check_version _ d1 h1 in
      let (_, d3, proving, h3) =
        >>=-eq-ok (start_prover out chain conf.validator_url (sk_of ki)) _ d1 h2 in
      let (p, made, prover) = start_prover_lem chain conf.validator_url (sk_of ki) d1 d3 proving in
      let (own_address, own_url) =
        new_grid_prover-made out.address_of_key chain conf.validator_url (sk_of ki) 1 p made in
      let (e, d4, chained, h4) = >>=-eq-ok (select_chain out chain) _ d3 h3 in
      let (l, known, read) = select_chain_lem chain e d3 d4 chained in
      let (gw, d5, making, h5) = >>=-eq-ok (open_gateway out conf e test) _ d4 h4 in
      let (same_gw, with_db) = open_gateway_lem conf e test gw d4 d5 making in
      let at_end =
        closed_or_not out.shutdown (record d5 { server = some (conf.http_listen, gw) }) d'
          (not_fatal (out.listen conf.http_listen) "log.Fatalf: fail to start serving" d5 d' _
            h5) in
      let before : d4 ≡ record d1 { prover = some p; addresses = some (save_addresses out l) } =
        read ∙ ap (λ (x : Daemon). record x { addresses = some (save_addresses out l) }) prover in
      let all =
        at_end
        ∙ (λ i. record (with_db i) {
          server = some (conf.http_listen, same_gw i);
          database = closed_again;
        })
        ∙ ap
            (λ (x : Daemon). record x {
              server = some (conf.http_listen, gateway_of conf e test);
              database = closed_again;
            })
            before in
      (
        ki,
        p,
        e,
        l,
        unlocked,
        ap (λ (x : Daemon). x.sk) all,
        ap (λ (x : Daemon). x.cp) all,
        ap (λ (x : Daemon). x.password) all,
        ap (λ (x : Daemon). x.prover) all,
        own_address,
        own_url,
        known,
        ap (λ (x : Daemon). x.addresses) all,
        ap (λ (x : Daemon). x.server) all,
        ap (λ (x : Daemon). x.database) all,
      )

  shut :
      (r : Result (Unit {0})) (d : Daemon)
      → r ≢ ok tt
      → (branch r (λ _. crash "log.Fatal: Server forced to shutdown") (λ _. close_gateway out) d).1
        ≡ d
  shut (ok u) d h = absurd (h refl)
  shut (err e) d h = refl
  shut (panic why) d h = refl

  -- Where the shutdown of a server fails that could listen, the daemon ends with the database as it
  -- was.
  serve_until_quit-forced :
      (listen : Str) (gw : Gateway) (d : Daemon)
      → out.listen listen ≡ ok tt
      → out.shutdown ≢ ok tt
      → (serve_until_quit out listen gw d).1 ≡ record d { server = some (listen, gw) }
  unfolding serve_until_quit
  serve_until_quit-forced listen gw d listening h =
      rw listening (shut out.shutdown (record d { server = some (listen, gw) }) h)
