-- ===== src/Client/History/Taken.antt =====
-- What a datagram leaves of the static variables of src/exosite.c.
use libexositecoap.Common.{
  subst, ℕ, zero, suc, ◌≡◌, ◌∙◌, List, [], ◌∷◌, length, Bool, true, false, arith, ok, inl, inr,
}
use libexositecoap.Memory.{write, poke, peek}
use libexositecoap.Memory.Local.{write-length, poke-length, peek-poke}
use libexositecoap.Coap.Pdu.{Pdu}
use libexositecoap.Pal.{Pal}
use libexositecoap.Client.State.{Client, cik_length}
use libexositecoap.Client.Op.{
  Op, RequestType, exo_null, exo_write, exo_read, exo_subscribe, exo_activate,
}
use libexositecoap.Client.Handlers.{
  claim, next_deadline, notified, on_content, on_observed, on_notify, on_read, subscribed,
  on_subscribe, on_activate, on_success, on_failure, on_answer, on_ack, on_reset,
}
use libexositecoap.Client.Receive.{
  on_datagram, take_message, scan_ops, reactivate, reject, receive_loop,
}
use libexositecoap.Client.History.Kept.{IsClient}
use libexositecoap.Client.Receive.Match.{take_message-cases, scan_ops-cases}
use libexositecoap.Client.Send.{send}
use mathlib.Core.Option.{some}

-- A key and a 0 in an array leave its length.
pub key-length :
    (array key written zeroed : List ℕ)
    → write array 0 key ≡ ok written
    → poke written cik_length 0 ≡ ok zeroed
    → length zeroed ≡ length array
key-length array key written zeroed e e' =
    poke-length written cik_length 0 zeroed e' ∙ write-length array 0 key written e

-- Behind the key stands the 0.
pub key-ended :
    (written zeroed : List ℕ) → poke written cik_length 0 ≡ ok zeroed → peek zeroed 40 ≡ ok 0
key-ended written zeroed e = peek-poke written cik_length 0 zeroed e

module _ {W : Type 0} (pal : Pal W) (c c' : Client W) (p : Pdu) (op op' : Op) (u : Bool)
    (h : IsClient c) where
  notified-IsClient :
      (v : List ℕ) (seq : ℕ) → notified pal p c op v seq ≡ ok (claim op' c' u) → IsClient c'
  unfolding notified next_deadline IsClient
  notified-IsClient v seq e = ground arith

  on_content-IsClient : on_content pal p c op ≡ ok (claim op' c' u) → IsClient c'
  unfolding on_content
  on_content-IsClient e = grind (arith, notified-IsClient)

  on_notify-IsClient : on_notify pal p c op ≡ ok (claim op' c' u) → IsClient c'
  unfolding on_notify on_observed
  on_notify-IsClient e = grind (arith, on_content-IsClient)

  on_read-IsClient : on_read pal p c op ≡ ok (claim op' c' u) → IsClient c'
  unfolding on_read
  on_read-IsClient e = ground arith

  subscribed-IsClient : (v : List ℕ) → subscribed pal p c op v ≡ ok (claim op' c' u) → IsClient c'
  unfolding subscribed next_deadline IsClient
  subscribed-IsClient v e = ground arith

  on_subscribe-IsClient : on_subscribe pal p c op ≡ ok (claim op' c' u) → IsClient c'
  unfolding on_subscribe
  on_subscribe-IsClient e = grind (arith, subscribed-IsClient)

  on_activate-IsClient : on_activate pal p c op ≡ ok (claim op' c' u) → IsClient c'
  unfolding on_activate IsClient
  on_activate-IsClient e = grind (arith, key-length, key-ended)

  on_success-IsClient :
      (t : RequestType) → on_success pal t p c op ≡ ok (claim op' c' u) → IsClient c'
  unfolding on_success
  on_success-IsClient exo_null e = cc
  on_success-IsClient exo_write e = ground arith
  on_success-IsClient exo_read e = on_read-IsClient e
  on_success-IsClient exo_subscribe e = on_subscribe-IsClient e
  on_success-IsClient exo_activate e = on_activate-IsClient e

  on_ack-IsClient : on_ack pal p c op ≡ ok (claim op' c' u) → IsClient c'
  unfolding on_ack on_answer on_failure IsClient
  on_ack-IsClient e = grind (arith, on_success-IsClient)

  on_reset-IsClient : on_reset pal p c op ≡ ok (claim op' c' u) → IsClient c'
  unfolding on_reset
  on_reset-IsClient e = ground arith

  pub on_datagram-IsClient :
      (mtype : ℕ) → on_datagram pal mtype p c op ≡ ok (claim op' c' u) → IsClient c'
  unfolding on_datagram
  on_datagram-IsClient mtype e =
      grind (arith, on_notify-IsClient, on_ack-IsClient, on_reset-IsClient)

module _ {W : Type 0} (pal : Pal W) where
  take_message-IsClient :
      (c c' : Client W) (p : Pdu) (mtype : ℕ) (ops ops' : List Op) (u : Bool)
      → take_message pal mtype p c ops ≡ ok (some (ops', c', u))
      → IsClient c
      → IsClient c'
  unfolding take_message
  take_message-IsClient c c' p mtype [] ops' u e h = absurd (ground arith)
  take_message-IsClient c c' p mtype (op ∷ ops) ops' u e h =
      elim (take_message-cases pal c c' p mtype op ops ops' u e) [
        | inl (op', taken, shape) ↦ on_datagram-IsClient pal c c' p op op' u h mtype taken
        | inr (rest, by, again, shape) ↦ take_message-IsClient c c' p mtype ops rest u again h
      ]

  reactivate-IsClient :
      (u : Bool) (c : Client W) (ops : List Op) → IsClient c → IsClient (reactivate pal u ops c).1
  unfolding reactivate IsClient
  reactivate-IsClient false c ops h = h
  reactivate-IsClient true c [] h = h
  reactivate-IsClient true c (op ∷ ops) h = ground arith

  reject-IsClient :
      (mtype : ℕ) (p : Pdu) (c c' : Client W)
      → reject pal mtype p c ≡ ok c'
      → IsClient c
      → IsClient c'
  unfolding reject send IsClient
  reject-IsClient mtype p c c' e h = ground arith

  scan_ops-IsClient :
      (c c' : Client W) (p : Pdu) (mtype : ℕ) (ops ops' : List Op)
      → scan_ops pal mtype p c ops ≡ ok (some (ops', c'))
      → IsClient c
      → IsClient c'
  scan_ops-IsClient c c' p mtype ops ops' e h =
      let (ops₁, c₁, u, taken, left) = scan_ops-cases pal c c' p mtype ops ops' e in
      subst (λ (r : List Op × Client W). IsClient r.1) left
        (reactivate-IsClient u c₁ ops₁ (take_message-IsClient c c₁ p mtype ops ops₁ u taken h))

  received-IsClient : (c : Client W) (w : W) → IsClient c → IsClient (record c { world = w })
  unfolding IsClient
  received-IsClient c w h = h

  pub receive_loop-IsClient :
      (fuel : ℕ) (c c' : Client W) (p : Pdu) (ops ops' : List Op)
      → receive_loop pal fuel c p ops ≡ ok (ops', c')
      → IsClient c
      → IsClient c'
  unfolding receive_loop
  receive_loop-IsClient zero c c' p ops ops' e h = absurd (ground arith)
  receive_loop-IsClient (suc fuel) c c' p ops ops' e h = grind (
    arith,
    scan_ops-IsClient,
    reject-IsClient,
    receive_loop-IsClient fuel,
    received-IsClient c (pal.exopal_udp_recv p.max c.world).1 h,
  )
