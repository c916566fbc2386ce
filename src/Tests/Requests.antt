-- ===== src/Tests/Requests.antt =====
-- Runs of the requests, of the histories of the client and of the programs that use it.
use libexositecoap.Common.{
  ℕ, ◌+◌, ◌*◌, ◌≡◌, refl, List, [], ◌∷◌, ◌++◌, length, replicate, arith, ok,
}
use libexositecoap.Coap.Pdu.{Pdu, null, coap_probing_rate}
use libexositecoap.Coap.Wire.{
  Message, nibble, extension, option_header, encode_options, encode_payload, encode_body, encode,
}
use libexositecoap.Coap.Fields.{le_bytes, le_value}
use libexositecoap.Client.State.{Client, string_at, c_string, exo_ok, good}
use libexositecoap.Client.Op.{Op, request_new, request_pending, queue_write, exo_op_init}
use libexositecoap.Client.Message.Answers.{blank}
use libexositecoap.Client.Message.Fill.{Filled}
use libexositecoap.Client.Message.Wanted.{requested, write_request}
use libexositecoap.Client.Send.{deadline, deadline_of_request, build_request, active_op}
use libexositecoap.Client.Send.Asked.{Named, HasKey, Asks, asks_write, build_request-Filled}
use libexositecoap.Client.Send.Requested.{active_op-sent, active_op-sent_again}
use libexositecoap.Client.Send.GivenUp.{Moment}
use libexositecoap.Tests.Device.{clock}
use mathlib.Core.Option.{some, none}

-- A client with a CIK of 40 characters.
abbrev key : List ℕ
key = replicate 40 b'c'

abbrev client : Client ℕ
client = record {
  cik = key ++ (0 ∷ []);
  vendor = none;
  model = none;
  serial = none;
  message_id_counter = 5;
  device_state = good;
  world = 1_000;
}

-- A write of `1` to `t`.
abbrev asking : Op
asking = queue_write exo_op_init (some (b't' ∷ 0 ∷ [])) (some (b'1' ∷ 0 ∷ []))

abbrev space : List ℕ
space = replicate 80 0

abbrev asked : Message
asked = write_request 5 7 (b't' ∷ []) key (b'1' ∷ [])

t_Named : Named (some (b't' ∷ 0 ∷ [])) (b't' ∷ [])
t_Named = record { string = unfold string_at c_string in refl; short = omega arith }

key-HasKey : HasKey client key
key-HasKey = record { rest = 0 ∷ []; key_size = refl; cik = refl }

one_text : string_at (some (b'1' ∷ 0 ∷ [])) ≡ ok (b'1' ∷ [])
unfolding string_at c_string
one_text = refl

asking-Asks : Asks client 7 asking asked
unfolding queue_write
asking-Asks = asks_write asking refl key-HasKey t_Named one_text

length-asked : length (encode asked) ≡ 55
unfolding encode encode_body encode_options option_header nibble extension encode_payload le_bytes
length-asked = refl

length-asked_options : length (encode_options 0 asked.options ++ encode_payload asked.payload) ≡ 49
unfolding encode_options option_header nibble extension encode_payload
length-asked_options = refl

build_request-Filled_example :
    (q : Pdu) × (build_request clock asking.type client (blank 0 1 2 3 4 space 0 null) asking
      ≡ ok (exo_ok, q, requested clock client))
    × Filled 0 (4 + length space) asked q
build_request-Filled_example =
    build_request-Filled clock client 0 1 2 3 4 0 space null (omega arith) (omega arith) asking-Asks
      (omega (arith, length-asked))

active_op-sent_example :
    (p : Pdu) × (active_op clock request_new 2_000 client (blank 0 1 2 3 4 space 0 null) asking
      ≡ ok (
        record asking {
          state = request_pending;
          timeout = deadline_of_request 1_000;
          mid = 5;
          token = le_value (le_bytes 2 7);
        },
        p,
        record (requested clock client) { world = 1_001 },
      ))
active_op-sent_example =
    active_op-sent clock client 0 1 2 3 4 0 space null (omega arith) (omega arith) asking asked
      asking-Asks (omega (arith, length-asked)) 2_000

-- The request while it waits.
abbrev asked_op : Op
asked_op = record asking { state = request_pending; mid = 0x1234; token = 0xcdab; retries = 2 }

asked_op-Asks : Asks client 7 asked_op asked
unfolding queue_write
asked_op-Asks = asks_write asked_op refl key-HasKey t_Named one_text

active_op-sent_again_example :
    (p : Pdu) × (active_op clock request_pending 2_000 client
        (blank 0 1 2 3 4 space 0 null)
        asked_op
      ≡ ok (
        record asked_op { retries = 3; timeout = deadline 1_000 (3 * coap_probing_rate) 7 },
        p,
        record (requested clock client) { world = 1_001 },
      ))
unfolding queue_write exo_op_init
active_op-sent_again_example =
    active_op-sent_again clock client 0 1 2 3 4 0 space null (omega arith) (omega arith) asked_op
      asked asked_op-Asks (omega (arith, length-asked)) (omega arith) (omega arith)
      (omega (arith, length-asked_options)) 2_000 (λ e. cc) (omega arith) (omega arith)

-- Passes that come as soon as the request has timed out.
abbrev moments : Op → Moment ℕ
moments op = record {
  client = client;
  now = op.timeout;
  base = 0;
  first = 1;
  second = 2;
  third = 3;
  fourth = 4;
  spare = space;
  len = 0;
  opt_ptr = null;
}
