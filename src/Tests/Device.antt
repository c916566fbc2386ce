-- ===== src/Tests/Device.antt =====
-- Runs of the client on a fixed platform.
use libexositecoap.Common.{ℕ, ◌+◌, ◌≡◌, ◌↔◌, refl, List, [], ◌∷◌, All, take, false, arith, ok}
use libexositecoap.Memory.{peek}
use libexositecoap.Coap.Pdu.{Pdu, null}
use libexositecoap.Coap.Wire.{Message, encode_body, encode, holding}
use libexositecoap.Coap.Fields.{coap_get_mid, coap_get_code, coap_get_code_class}
use libexositecoap.Coap.Pdu.{ct_ack, ct_rst, cc_empty, cc_unauthorized}
use libexositecoap.Coap.Fields.{le_bytes}
use libexositecoap.Coap.Fields.Token.{with_token, token_spare}
use libexositecoap.Client.State.{exo_ok}
use libexositecoap.Client.Message.{exo_build_msg_ack, exo_build_msg_rst}
use libexositecoap.Client.Message.Answers.{
  blank, headed, build_msg_ack-holding, build_msg_rst-holding,
}
use libexositecoap.Pal.{Pal}
use libexositecoap.Client.State.{Client, good}
use libexositecoap.Client.Op.{
  Op, exo_null, exo_write, exo_read, exo_subscribe, request_null, queue_activate, request_new,
  request_pending, request_subscribed, request_success, request_error,
}
use libexositecoap.Client.Send.{
  sent_again, send_again, timed_out, check_timeout, active_op, active_ops, exo_process_active_ops,
}
use libexositecoap.Client.Send.Steps.{Each, Passed, process_active_ops-Passed}
use libexositecoap.Client.Handlers.{claim, on_ack, on_answer, on_failure}
use libexositecoap.Client.Receive.{on_datagram, take_message, reactivate, scan_ops}
use libexositecoap.Client.Receive.Taken.{Scanned, scan_ops-Scanned}
use libexositecoap.Client.Receive.Values.{as_string, read_answer-fits, read_answer-too_long}
use libexositecoap.Client.Operate.{exo_util_is_ascii_hex}
use libexositecoap.Client.Operate.Answer.{IsHexDigit, util_is_ascii_hex_lem}
use libexositecoap.Tests.Samples.{sample, sample-IsEncodable, length-sample, room}
use mathlib.Core.Option.{some, none}

-- The world is a clock, no datagram waits and the random numbers are all 7.
abbrev pub clock : Pal ℕ
clock = record {
  exopal_init = λ w. (0, w);
  exopal_udp_sock = λ w. (0, w);
  exopal_retrieve_cik = λ w. (0, [], w);
  exopal_store_cik = λ cik w. (0, w);
  exopal_udp_send = λ bytes w. (0, w);
  exopal_udp_recv = λ max w. (none, w);
  exopal_get_time = λ w. (w, w + 1);
  seed = λ w. w;
  rand = λ w. (7, w);
}

abbrev pub device : Client ℕ
device = record {
  cik = [];
  vendor = none;
  model = none;
  serial = none;
  message_id_counter = 5;
  device_state = good;
  world = 1_000;
}

-- A write, a read with a buffer of four bytes, and a subscription, with the given states.
abbrev pub idle_op : Op
idle_op = record {
  type = exo_write;
  state = request_success;
  alias = none;
  value = none;
  value_max = 0;
  mid = 0x1234;
  obs_seq = 0;
  tkl = 0;
  token = 0xcdab;
  timeout = 0;
  retries = 0;
}

abbrev write_op : Op
write_op = record idle_op { state = request_pending; retries = 4 }

abbrev pub read_op : Op
read_op = record idle_op {
  type = exo_read;
  state = request_pending;
  value = some (1 ∷ 2 ∷ 3 ∷ 4 ∷ []);
  value_max = 4;
}

abbrev tight_op : Op
tight_op = record read_op { value = some (1 ∷ 2 ∷ []); value_max = 2 }

abbrev watch_op : Op
watch_op = record idle_op { type = exo_subscribe; state = request_subscribed }

-- The write is given up after four retries, and the subscription is to start again.
abbrev ops_before : List Op
ops_before = idle_op ∷ write_op ∷ watch_op ∷ []

abbrev ops_after : List Op
ops_after =
    idle_op
    ∷ (record write_op { state = request_error })
    ∷ (record watch_op { state = request_new })
    ∷ []

abbrev pub packet : Pdu
packet = record { base = 0; bytes = room; len = 0; max = 8; opt_ptr = null }

one_pass :
    exo_process_active_ops clock device packet ops_before
    ≡ ok (ops_after, record device { world = 1_001 })
unfolding exo_process_active_ops active_ops active_op check_timeout timed_out send_again sent_again
one_pass = refl

process_active_ops-Passed_example : Each Passed ops_before ops_after
process_active_ops-Passed_example =
    process_active_ops-Passed clock device (record device { world = 1_001 }) packet ops_before
      ops_after one_pass

-- The operation that `exo_op_init` leaves.
abbrev free_op : Op
free_op = record idle_op { type = exo_null; state = request_null; mid = 0; token = 0 }

-- The sample as an answer 4.01 to the write: the first operation is free, and is made to activate.
abbrev denied : Message
denied = record sample { code = cc_unauthorized }

abbrev ops_denied : List Op
ops_denied = queue_activate free_op ∷ (record write_op { state = request_error }) ∷ watch_op ∷ []

one_denied :
    scan_ops clock 2 (holding 0 denied room) device (free_op ∷ write_op ∷ watch_op ∷ [])
    ≡ ok (some (ops_denied, device))
unfolding scan_ops take_message reactivate on_datagram on_ack on_answer on_failure coap_get_mid
    coap_get_code coap_get_code_class holding encode encode_body peek
one_denied = refl

scan_ops-Scanned_example :
    Scanned clock device (holding 0 denied room) 2 (free_op ∷ write_op ∷ watch_op ∷ []) ops_denied
scan_ops-Scanned_example =
    scan_ops-Scanned clock device device (holding 0 denied room) 2
      (free_op ∷ write_op ∷ watch_op ∷ []) ops_denied one_denied

read_answer-fits_example :
    on_datagram clock sample.mtype (holding 0 sample room) device read_op
    ≡ ok (
        claim
          (record read_op {
            value = some (as_string (b'4' ∷ b'2' ∷ []) (1 ∷ 2 ∷ 3 ∷ 4 ∷ []));
            state = request_success;
          })
          device
          false)
read_answer-fits_example =
    read_answer-fits clock device 0 sample room read_op (b'4' ∷ b'2' ∷ []) (1 ∷ 2 ∷ 3 ∷ 4 ∷ [])
      sample-IsEncodable (omega (arith, length-sample)) refl refl refl refl refl (omega arith) refl
      refl (omega arith) (omega arith)

read_answer-too_long_example :
    on_datagram clock sample.mtype (holding 0 sample room) device tight_op
    ≡ ok (claim (record tight_op { state = request_error }) device false)
read_answer-too_long_example =
    read_answer-too_long clock device 0 sample room tight_op (b'4' ∷ b'2' ∷ []) (1 ∷ 2 ∷ [])
      sample-IsEncodable (omega (arith, length-sample)) refl refl refl refl refl (omega arith) refl
      refl (omega arith)

util_is_ascii_hex_lem_example :
    (exo_util_is_ascii_hex (b'0' ∷ b'f' ∷ b'G' ∷ []) 3 ≡ ok 0)
    ↔ All IsHexDigit (take 3 (b'0' ∷ b'f' ∷ b'G' ∷ []))
util_is_ascii_hex_lem_example = util_is_ascii_hex_lem (b'0' ∷ b'f' ∷ b'G' ∷ []) 3 (omega arith)

build_msg_ack-holding_example :
    exo_build_msg_ack (blank 0 9 9 9 9 room 3 null) 0x1234
    ≡ ok (exo_ok, holding 0 (headed ct_ack cc_empty 0x1234) room)
build_msg_ack-holding_example = build_msg_ack-holding 0 9 9 9 9 3 room null 0x1234 (omega arith)

build_msg_rst-holding_example :
    exo_build_msg_rst (blank 0 9 9 9 9 room 3 null) 0x1234 0xcdab 2
    ≡ ok (
      exo_ok,
      holding 0
          (with_token (headed ct_rst cc_empty 0x1234) (le_bytes 2 0xcdab))
          (token_spare (headed ct_rst cc_empty 0x1234) room 2),
    )
build_msg_rst-holding_example =
    build_msg_rst-holding 0 9 9 9 9 3 room null 0x1234 (omega arith) 0xcdab 2 (omega arith)
      (omega arith) (omega arith)
