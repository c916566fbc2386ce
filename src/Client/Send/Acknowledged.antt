-- ===== src/Client/Send/Acknowledged.antt =====
-- What `exo_process_active_ops` of src/exosite.c gives to the platform for a notification.
use libexositecoap.Common.{ℕ, ◌<◌, ◌≡◌, refl, List, ◌==◌, if◌then◌else◌, ok}
use libexositecoap.Coap.Pdu.{Ptr, ct_ack, cc_empty}
use libexositecoap.Coap.Wire.{encode, holding}
use libexositecoap.Pal.{Pal}
use libexositecoap.Client.State.{Client}
use libexositecoap.Client.Op.{
  Op, RequestState, request_subscribed, request_sub_ack, request_sub_ack_new, request_success,
}
use libexositecoap.Client.Message.Answers.{blank, headed, build_msg_ack-holding}
use libexositecoap.Client.Send.{send_ack, active_op}
use libexositecoap.Client.Send.Wire.{send-holding}

module _ {W : Type 0} (pal : Pal W) (c : Client W) (base x y z w len : ℕ) (spare : List ℕ)
    (opt_ptr : Ptr) (op : Op) (mid_range : op.mid < 65536) where
  -- The answer of the platform to the acknowledgement, and the world behind it.
  abbrev acked : ℕ × W
  acked = pal.exopal_udp_send (encode (headed ct_ack cc_empty op.mid)) c.world

  send_ack-holding :
      (next : RequestState)
      → send_ack pal next c (blank base x y z w spare len opt_ptr) op
        ≡ ok (
          if acked.0 == 0 then record op { state = next } else op,
          holding base (headed ct_ack cc_empty op.mid) spare,
          record c { world = acked.1 },
        )
  unfolding send_ack
  send_ack-holding next =
      rw (build_msg_ack-holding base x y z w len spare opt_ptr op.mid mid_range)
        (rw (send-holding pal base (headed ct_ack cc_empty op.mid) spare c) refl)

  -- An operation that is to acknowledge a notification, with a message id of 16 bits and a buffer of
  -- 4 bytes or more, has a pass give the platform the empty ACK with that id. If the platform accepts
  -- it, an operation with a new value is a success and one with an old value is subscribed again;
  -- if not, the operation stays as it is.
  pub active_op-acknowledged :
      (now : ℕ)
      → (active_op pal request_sub_ack_new now c (blank base x y z w spare len opt_ptr) op
          ≡ ok (
            if acked.0 == 0 then record op { state = request_success } else op,
            holding base (headed ct_ack cc_empty op.mid) spare,
            record c { world = acked.1 },
          ))
        × (active_op pal request_sub_ack now c (blank base x y z w spare len opt_ptr) op
            ≡ ok (
              if acked.0 == 0 then record op { state = request_subscribed } else op,
              holding base (headed ct_ack cc_empty op.mid) spare,
              record c { world = acked.1 },
            ))
  unfolding active_op
  active_op-acknowledged now =
      (send_ack-holding request_success, send_ack-holding request_subscribed)
