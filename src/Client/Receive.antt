-- ===== src/Client/Receive.antt =====
-- `exo_process_waiting_datagrams` of src/exosite.c. Every operation is an element of the list
-- `ops`; `op[0]` is its head.
pub mod Ends
pub mod Match
pub mod Denied
pub mod Failed
pub mod Taken
pub mod Values
pub mod Observed
pub mod Notified
pub mod Activated
pub mod Rejected
use libexositecoap.Common.{
  ℕ, zero, suc, ◌+◌, ◌*◌, ◌%◌, ◌^◌, bit_or, List, [], ◌∷◌, Bool, true, false, not, ◌&&◌, ◌||◌,
  length, ltb, ◌==◌, if◌then◌else◌, Exec, ok, fault, stuck, ◌>>=◌,
}
use libexositecoap.Memory.{peek, poke, read, write}
use libexositecoap.Coap.Pdu.{
  Pdu, Ptr, null, at, CoapOption, CoapPayload, CoapError, ce_none, ct_con, ct_non, ct_ack, ct_rst,
  cc_content, cc_unauthorized, cc_not_found, con_observe, con_max_age,
}
use libexositecoap.Coap.Fields.{
  coap_get_type, coap_get_tkl, coap_get_code, coap_get_code_class, coap_get_mid, coap_get_token,
}
use libexositecoap.Coap.Reader.{coap_validate_pkt, coap_get_option_by_num, coap_get_payload}
use libexositecoap.Pal.{Pal}
use libexositecoap.Client.State.{Client, good, cik_length}
use libexositecoap.Client.Op.{
  Op, RequestType, RequestState, exo_null, exo_write, exo_read, exo_subscribe, exo_activate,
  request_null, request_pending, request_subscribed, request_sub_ack, request_sub_ack_new,
  request_success, request_error, queue_activate, exo_op_init, is_null,
}
use libexositecoap.Client.Message.{exo_build_msg_rst}
use libexositecoap.Client.Send.{send, deadline}
use mathlib.Core.Option.{Option, none, some}
use libexositecoap.Client.Handlers.{Verdict, pass, claim, is_pending, on_notify, on_ack, on_reset}

module _ {W : Type 0} (pal : Pal W) where
  open pal use {exopal_udp_recv, exopal_get_time}

  -- The body of the loop over the operations, by the type of the message.
  unfoldable pub on_datagram : ℕ → Pdu → Client W → Op → Exec (Verdict W)
  unfolding on_notify on_ack on_reset
  on_datagram mtype p c op =
      if mtype == ct_con || mtype == ct_non
      then on_notify pal p c op
      else if mtype == ct_ack
      then on_ack pal p c op
      else if mtype == ct_rst
      then on_reset pal p c op
      else ok pass

  -- The operation that takes the message, and what it leaves; none if nobody takes it. The flag
  -- says that the answer was CC_UNAUTHORIZED.
  unfoldable pub take_message :
      ℕ → Pdu → Client W → List Op → Exec (Option (List Op × Client W × Bool))
  take_message mtype p c [] = ok none
  take_message mtype p c (op ∷ ops) = do
    verdict ← on_datagram mtype p c op
    elim verdict [
      | claim op' c' unauthorized ↦ ok (some (op' ∷ ops, c', unauthorized))
      | pass ↦ do
        rest ← take_message mtype p c ops
        elim rest [
          | none ↦ ok none
          | some (ops', c', unauthorized) ↦ ok (some (op ∷ ops', c', unauthorized))
        ]
    ]

  -- After CC_UNAUTHORIZED `op[0]` is to activate again, if it is free or has timed out.
  unfoldable pub reactivate : Bool → List Op → Client W → List Op × Client W
  unfolding queue_activate
  reactivate false ops c = (ops, c)
  reactivate true [] c = ([], c)
  reactivate true (op ∷ ops) c =
      let (now, w) = exopal_get_time c.world in
      if is_null op.type
      then (queue_activate op ∷ ops, c)
      else if ltb op.timeout now
      then (queue_activate op ∷ ops, record c { world = w })
      else (op ∷ ops, record c { world = w })

  -- A message that nobody takes: a confirmable one is answered by RST.
  unfoldable pub reject : ℕ → Pdu → Client W → Exec (Client W)
  reject mtype p c =
      if mtype == ct_con
      then (do
        mid ← coap_get_mid p
        token ← coap_get_token p
        tkl ← coap_get_tkl p
        (_, q) ← exo_build_msg_rst p mid token tkl
        (_, c') ← send pal c q
        ok c')
      else ok c

  -- The loop over the operations: none if it ends with `i == count`. CC_UNAUTHORIZED also makes
  -- `op[0]` activate again, which is the last thing before the loop is left.
  unfoldable pub scan_ops : ℕ → Pdu → Client W → List Op → Exec (Option (List Op × Client W))
  unfolding take_message reactivate
  scan_ops mtype p c ops = do
    taken ← take_message mtype p c ops
    elim taken [
      | none ↦ ok none
      | some (ops', c', unauthorized) ↦ ok (some (reactivate unauthorized ops' c'))
    ]

  -- The loop over the waiting datagrams, which a message that nobody takes ends.
  unfoldable pub receive_loop : ℕ → Client W → Pdu → List Op → Exec (List Op × Client W)
  receive_loop zero c p ops = stuck
  receive_loop (suc fuel) c p ops =
      let (received, w) = exopal_udp_recv p.max c.world in
      let c₁ = record c { world = w } in
      elim received [
        | none ↦ ok (ops, c₁)
        | some datagram ↦ do
          bs ← write p.bytes 0 datagram
          (err, q) ← coap_validate_pkt (record p { bytes = bs; len = length datagram })
          elim err [
            | ce_none ↦ do
              mtype ← coap_get_type q
              found ← scan_ops mtype q c₁ ops
              elim found [
                | none ↦ do c₂ ← reject mtype q c₁; ok (ops, c₂)
                | some (ops', c₂) ↦ receive_loop fuel c₂ q ops'
              ]
            | _ ↦ receive_loop fuel c₁ q ops
          ]
      ]
