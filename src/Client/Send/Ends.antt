-- ===== src/Client/Send/Ends.antt =====
-- The message builders and the sending pass of src/exosite.c come to an end.
use libexositecoap.Common.{ℕ, List, [], ◌∷◌, Stops, ok-Stops, fault-Stops, Stops-bind, Exec}
use libexositecoap.Memory.Ends.{memory_stops}
use libexositecoap.Coap.Pdu.{Pdu, CoapError}
use libexositecoap.Coap.Fields.Stops.{field_stops}
use libexositecoap.Coap.Writer.Stops.{add_option-Stops, set_payload-Stops}
use libexositecoap.Pal.{Pal}
use libexositecoap.Client.State.{Client, c_string, string_at}
use libexositecoap.Client.Op.{
  Op, RequestType, exo_null, exo_write, exo_read, exo_subscribe, exo_activate, RequestState,
  request_null, request_new, request_pending, request_subscribed, request_sub_ack,
  request_sub_ack_new, request_success, request_error,
}
use libexositecoap.Client.Message.{
  also, add_string, start, request, exo_build_msg_activate, exo_build_msg_read,
  exo_build_msg_observe, exo_build_msg_write, exo_build_msg_rst, exo_build_msg_ack,
}
use libexositecoap.Client.Send.{
  send, build_request, sent_request, send_new, sent_again, send_again, timed_out, check_timeout,
  send_ack, active_op, active_ops, exo_process_active_ops,
}
use mathlib.Core.Option.{Option, none, some}

c_string-Stops : (xs : List ℕ) → Stops (c_string xs)
unfolding c_string
c_string-Stops [] = fault-Stops
c_string-Stops (x ∷ xs) = search (memory_stops, c_string-Stops xs) depth 20

string_at-Stops : (s : Option (List ℕ)) → Stops (string_at s)
unfolding string_at
string_at-Stops none = fault-Stops
string_at-Stops (some xs) = c_string-Stops xs

also-Stops :
    (s : ℕ × Pdu) (f : Pdu → Exec (CoapError × Pdu)) → ((p : Pdu) → Stops (f p)) → Stops (also s f)
unfolding also
also-Stops (ret, p) f h = search (memory_stops, h) depth 20

add_string-Stops : (num : ℕ) (s : List ℕ) (p : Pdu) → Stops (add_string num s p)
unfolding add_string
add_string-Stops num s p = add_option-Stops p num s _

start-Stops : (p : Pdu) (mtype code mid : ℕ) → Stops (start p mtype code mid)
unfolding start
start-Stops p mtype code mid = search (field_stops, also-Stops) depth 30

pub build_msg_rst-Stops : (p : Pdu) (mid token tkl : ℕ) → Stops (exo_build_msg_rst p mid token tkl)
unfolding exo_build_msg_rst
build_msg_rst-Stops p mid token tkl = search (field_stops, also-Stops, start-Stops) depth 30

build_msg_ack-Stops : (p : Pdu) (mid : ℕ) → Stops (exo_build_msg_ack p mid)
unfolding exo_build_msg_ack
build_msg_ack-Stops p mid = search (field_stops, start-Stops) depth 30

module _ {W : Type 0} (pal : Pal W) where
  request-Stops : (c : Client W) (p : Pdu) (code : ℕ) → Stops (request pal c p code)
  unfolding request
  request-Stops c p code = search (field_stops, also-Stops, start-Stops) depth 30

  ruleset build_stops = (
    field_stops, also-Stops, request-Stops, string_at-Stops, add_string-Stops, add_option-Stops,
    set_payload-Stops,
  )

  build_msg_activate-Stops : (c : Client W) (p : Pdu) → Stops (exo_build_msg_activate pal c p)
  unfolding exo_build_msg_activate
  build_msg_activate-Stops c p = search build_stops depth 40

  build_msg_read-Stops :
      (c : Client W) (p : Pdu) (alias : Option (List ℕ)) → Stops (exo_build_msg_read pal c p alias)
  unfolding exo_build_msg_read
  build_msg_read-Stops c p alias = search build_stops depth 40

  build_msg_observe-Stops :
      (c : Client W) (p : Pdu) (alias : Option (List ℕ))
      → Stops (exo_build_msg_observe pal c p alias)
  unfolding exo_build_msg_observe
  build_msg_observe-Stops c p alias = search build_stops depth 40

  build_msg_write-Stops :
      (c : Client W) (p : Pdu) (alias value : Option (List ℕ))
      → Stops (exo_build_msg_write pal c p alias value)
  unfolding exo_build_msg_write
  build_msg_write-Stops c p alias value = search build_stops depth 40

  pub send-Stops : (c : Client W) (p : Pdu) → Stops (send pal c p)
  unfolding send
  send-Stops c p = search memory_stops depth 20

  build_request-Stops :
      (type : RequestType) (c : Client W) (p : Pdu) (op : Op)
      → Stops (build_request pal type c p op)
  unfolding build_request
  build_request-Stops exo_write c p op = build_msg_write-Stops c p op.alias op.value
  build_request-Stops exo_read c p op = build_msg_read-Stops c p op.alias
  build_request-Stops exo_subscribe c p op = build_msg_observe-Stops c p op.alias
  build_request-Stops exo_activate c p op = build_msg_activate-Stops c p
  build_request-Stops exo_null c p op = ok-Stops _

  module _ (c : Client W) (p : Pdu) (op : Op) where
    sent_request-Stops : (r : ℕ) → Stops (sent_request pal c p op r)
    unfolding sent_request
    sent_request-Stops r = search field_stops depth 20

    sent_again-Stops : (r : ℕ) → Stops (sent_again pal c p op r)
    unfolding sent_again
    sent_again-Stops r = search field_stops depth 20

  send_new-Stops :
      (type : RequestType) (c : Client W) (p : Pdu) (op : Op) → Stops (send_new pal type c p op)
  unfolding send_new
  send_new-Stops exo_null c p op = ok-Stops _
  send_new-Stops exo_write c p op =
      search (field_stops, build_request-Stops, send-Stops, sent_request-Stops) depth 20
  send_new-Stops exo_read c p op =
      search (field_stops, build_request-Stops, send-Stops, sent_request-Stops) depth 20
  send_new-Stops exo_subscribe c p op =
      search (field_stops, build_request-Stops, send-Stops, sent_request-Stops) depth 20
  send_new-Stops exo_activate c p op =
      search (field_stops, build_request-Stops, send-Stops, sent_request-Stops) depth 20

  send_again-Stops :
      (type : RequestType) (c : Client W) (p : Pdu) (op : Op) → Stops (send_again pal type c p op)
  unfolding send_again
  send_again-Stops type c p op =
      search (field_stops, build_request-Stops, send-Stops, sent_again-Stops) depth 30

  timed_out-Stops :
      (type : RequestType) (c : Client W) (p : Pdu) (op : Op) → Stops (timed_out pal type c p op)
  unfolding timed_out
  timed_out-Stops exo_null c p op = ok-Stops _
  timed_out-Stops exo_write c p op = send_again-Stops exo_write c p op
  timed_out-Stops exo_read c p op = send_again-Stops exo_read c p op
  timed_out-Stops exo_subscribe c p op = ok-Stops _
  timed_out-Stops exo_activate c p op = send_again-Stops exo_activate c p op

  check_timeout-Stops :
      (now : ℕ) (c : Client W) (p : Pdu) (op : Op) → Stops (check_timeout pal now c p op)
  unfolding check_timeout
  check_timeout-Stops now c p op = search (memory_stops, timed_out-Stops) depth 20

  send_ack-Stops :
      (next : RequestState) (c : Client W) (p : Pdu) (op : Op) → Stops (send_ack pal next c p op)
  unfolding send_ack
  send_ack-Stops next c p op = search (memory_stops, build_msg_ack-Stops, send-Stops) depth 20

  active_op-Stops :
      (state : RequestState) (now : ℕ) (c : Client W) (p : Pdu) (op : Op)
      → Stops (active_op pal state now c p op)
  unfolding active_op
  active_op-Stops request_new now c p op = send_new-Stops op.type c p op
  active_op-Stops request_subscribed now c p op = check_timeout-Stops now c p op
  active_op-Stops request_pending now c p op = check_timeout-Stops now c p op
  active_op-Stops request_sub_ack_new now c p op = send_ack-Stops _ c p op
  active_op-Stops request_sub_ack now c p op = send_ack-Stops _ c p op
  active_op-Stops request_null now c p op = ok-Stops _
  active_op-Stops request_success now c p op = ok-Stops _
  active_op-Stops request_error now c p op = ok-Stops _

  active_ops-Stops :
      (now : ℕ) (c : Client W) (p : Pdu) (ops : List Op) → Stops (active_ops pal now c p ops)
  unfolding active_ops
  active_ops-Stops now c p [] = ok-Stops _
  active_ops-Stops now c p (op ∷ ops) =
      Stops-bind _ _ (active_op-Stops op.state now c p op)
        (λ (op', p', c'). Stops-bind _ _ (active_ops-Stops now c' p' ops) (λ _. ok-Stops _))

  pub process_active_ops-Stops :
      (c : Client W) (p : Pdu) (ops : List Op) → Stops (exo_process_active_ops pal c p ops)
  unfolding exo_process_active_ops
  process_active_ops-Stops c p ops = active_ops-Stops _ _ p ops
