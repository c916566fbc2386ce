-- ===== src/Client/Receive/Failed.antt =====
-- Answers that are errors, in `exo_process_waiting_datagrams` of src/exosite.c.
use libexositecoap.Common.{ℕ, ◌/◌, ◌≡◌, ◌≢◌, List, ◌==◌, if◌then◌else◌, arith, ok}
use libexositecoap.Coap.Pdu.{ct_ack, cc_unauthorized, cc_not_found}
use libexositecoap.Coap.Wire.{Message, IsEncodable, holding}
use libexositecoap.Coap.Fields.Laws.{get_mid-holding, get_code-holding, get_code_class-holding}
use libexositecoap.Pal.{Pal}
use libexositecoap.Client.State.{Client, good}
use libexositecoap.Client.Op.{Op, request_pending, request_error}
use libexositecoap.Client.Handlers.{claim, on_ack, on_answer, on_failure}
use libexositecoap.Client.Receive.{on_datagram}

-- An encodable ACK of another class than 2 with the message id of a pending operation of any type
-- makes the operation an error and changes nothing else of it, whatever the message carries. The
-- code 4.04 makes the device good; no other code changes the client, and the code 4.01 alone
-- makes the loop look at `op[0]` for an activation.
pub request_failed :
    {W : Type 0} (pal : Pal W) (c : Client W) (base : ℕ) (m : Message) (spare : List ℕ) (op : Op)
    → IsEncodable m
    → m.mtype ≡ ct_ack
    → op.state ≡ request_pending
    → op.mid ≡ m.mid
    → m.code / 32 ≢ 2
    → on_datagram pal m.mtype (holding base m spare) c op
      ≡ ok (
          claim
            (record op { state = request_error })
            (if m.code == cc_not_found then record c { device_state = good } else c)
            (m.code == cc_unauthorized))
unfolding on_datagram on_ack on_answer on_failure
request_failed pal c base m spare op valid ack waits mine class = ground (
  arith,
  get_mid-holding base m spare valid,
  get_code-holding base m spare valid,
  get_code_class-holding base m spare valid,
)
