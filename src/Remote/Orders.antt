-- ===== src/Remote/Orders.antt =====
-- What the remote operations read and send.
use mathlib.Core.Path.{subst}
use computing_api.Base.{
  >>=-eq-ok, Error, Exec, Option, Result, Str, ap, arith, branch, err, if◌then◌else◌,
  lift->>=-eq-ok, new, none, ok, panic, pure, raise, reads->>=-eq-ok, refl, rescue, some, wrap, ℕ,
  ◌==◌, ◌>>◌, ◌↔◌, ◌≡◌, ◌≢◌, ◌⊎◌,
}
use computing_api.Chain.{Chain, Order}
use computing_api.Utils.{string_to_uint64}
use computing_api.Remote.{confirm, extend, gas_of, get_order, order_check, reset, status_text}

module _ (ch : Chain) where
  order_of_check :
      (r : Result Order)
      → (rescue {B = Unit {0}} r
            (λ e. err (wrap "get order failed" e))
            (λ order.
              if order.status == 2
              then ok tt
              else err (wrap "only active order can get cookie" (new (status_text order.status))))
          ≡ ok tt)
        ↔ ((order : Order) × (r ≡ ok order) × (order.status ≡ 2))
  order_of_check (ok order) = (λ h. (order, refl, ground arith), λ (o, e, two). ground arith)
  order_of_check (err e) = (λ h. cc, λ (o, e', two). cc)
  order_of_check (panic why) = (λ h. cc, λ (o, e', two). cc)

  -- `OrderCheck` passes exactly the orders that can be read and are active.
  order_check_iff :
      (id : ℕ) (s : ch.State)
      → (order_check ch id s ≡ ok tt)
        ↔ ((order : Order) × (get_order ch id s ≡ ok order) × (order.status ≡ 2))
  unfolding order_check
  order_check_iff id s = order_of_check (get_order ch id s)

  -- What it takes to have sent a transaction and seen it through: the signer of the key, the call
  -- that sends it, and a check that ends well with a receipt.
  pub record Confirmed (sk : Str) (send : ch.Signer → Exec ch.State ch.Tx) (s s' : ch.State)
      : Type 0 where
    pub signer : ch.Signer
    pub tx : ch.Tx
    pub sent : ch.State
    pub gas : ℕ
    pub signed : ch.make_auth sk s ≡ ok signer
    pub sends : send signer s ≡ (ok tx, sent)
    pub checked : ch.check_tx tx sent ≡ (ok tt, s')
    pub receipt : ch.gas_used tx s' ≡ some gas

  gas_of_sound : (o : Option ℕ) (gas : ℕ) → gas_of o ≡ ok gas → o ≡ some gas
  gas_of_sound none gas h = cc
  gas_of_sound (some g) gas h = cc

  confirm_sound :
      (tx : ch.Tx) (s s' : ch.State) (gas : ℕ)
      → confirm ch tx s ≡ (ok gas, s')
      → (ch.check_tx tx s ≡ (ok tt, s')) × (ch.gas_used tx s' ≡ some gas)
  unfolding confirm
  confirm_sound tx s s' gas h =
      let (_, s1, checked, rest) = >>=-eq-ok (ch.check_tx tx) _ s h in
      let same : s1 ≡ s' = ap (λ r. r.1) rest in
      (rw (← same) checked, rw (← same) (gas_of_sound (ch.gas_used tx s1) gas (ap (λ r. r.0) rest)))

  open_market_sound :
      {B : Type 0} (r : Result (Unit {0})) (next : Unit {0} → Exec ch.State B) (s s' : ch.State)
      (b : B)
      → branch
          (branch r (λ e. raise (wrap "new contract instance failed" e)) pure s).0
          raise
          next
          (branch r (λ e. raise (wrap "new contract instance failed" e)) pure s).1
        ≡ (ok b, s')
      → next tt s ≡ (ok b, s')
  open_market_sound (ok tt) next s s' b h = h
  open_market_sound (err e) next s s' b h = cc
  open_market_sound (panic why) next s s' b h = cc

  Confirmed-of :
      {sk : Str} (send : ch.Signer → Exec ch.State ch.Tx) {s sent s' : ch.State}
      {signer : ch.Signer} {tx : ch.Tx}
      → ch.make_auth sk s ≡ ok signer
      → send signer s ≡ (ok tx, sent)
      → (confirm ch tx >> pure tt) sent ≡ (ok tt, s')
      → Confirmed sk send s s'
  Confirmed-of send {sent} {s'} {signer} {tx} signed sends h =
      let (gas, s2, seen, rest) = >>=-eq-ok (confirm ch tx) _ sent h in
      let (checked, receipt) = confirm_sound tx sent s2 gas seen in
      let same : s2 ≡ s' = ap (λ r. r.1) rest in
      record {
        signer = signer;
        tx = tx;
        sent = sent;
        gas = gas;
        signed = signed;
        sends = sends;
        checked = subst (λ z. ch.check_tx tx sent ≡ (ok tt, z)) same checked;
        receipt = subst (λ z. ch.gas_used tx z ≡ some gas) same receipt;
      }

  -- An `Extend` that succeeds has sent, with the key that it was given, one extension of the order by
  -- the number that the text of the duration holds, and the transaction was confirmed.
  pub extend_sound :
      (sk dur : Str) (id : ℕ) (s s' : ch.State)
      → extend ch sk id dur s ≡ (ok tt, s')
      → (n : ℕ) × (string_to_uint64 dur ≡ ok n)
        × Confirmed sk (λ signer. ch.send_extend signer id n) s s'
  unfolding extend
  extend_sound sk dur id s s' h =
      let h1 = open_market_sound (ch.new_market s) _ s s' tt h in
      let (signer, signed, h2) = reads->>=-eq-ok (ch.make_auth sk) _ s h1 in
      let (n, number, h3) = lift->>=-eq-ok (string_to_uint64 dur) _ s h2 in
      let (tx, sent, sends, h4) = >>=-eq-ok (ch.send_extend signer id n) _ s h3 in
      (n, number, Confirmed-of (λ signer'. ch.send_extend signer' id n) signed sends h4)

  -- A duration that is no number stops `Extend` before it sends anything: the chain is as it was.
  extend-bad_duration :
      (sk dur : Str) (id : ℕ) (s : ch.State) (e : Error)
      → string_to_uint64 dur ≡ err e
      → ((extend ch sk id dur s).1 ≡ s) × ((extend ch sk id dur s).0 ≢ ok tt)
  unfolding extend
  extend-bad_duration sk dur id s e h = ground arith

  -- So does a probation or a duration that is no number in `Reset`.
  reset-bad_number :
      (sk prob dur : Str) (id : ℕ) (s : ch.State) (e : Error)
      → (string_to_uint64 prob ≡ err e) ⊎ (string_to_uint64 dur ≡ err e)
      → ((reset ch sk id prob dur s).1 ≡ s) × ((reset ch sk id prob dur s).0 ≢ ok tt)
  unfolding reset
  reset-bad_number sk prob dur id s e h = ground arith
