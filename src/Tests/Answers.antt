-- ===== src/Tests/Answers.antt =====
-- Runs of the answers to subscriptions and activations.
use libexositecoap.Common.{
  ℕ, ◌≡◌, ◌<◌, refl, List, [], ◌∷◌, length, length-append, replicate, false, arith, ok, inl,
}
use libexositecoap.Coap.Pdu.{con_observe, con_max_age, cc_not_found}
use libexositecoap.Coap.Wire.{
  Opt, Message, IsEncodable, IsOptions, nibble, extension, option_header, encode_options,
  encode_payload, encode_body, encode, holding,
}
use libexositecoap.Coap.Fields.{le_value}
use libexositecoap.Client.State.{Client, bad_cik, good}
use libexositecoap.Client.Op.{
  Op, exo_subscribe, exo_activate, request_pending, request_subscribed, request_sub_ack,
  request_sub_ack_new, request_success, request_error, exo_op_init,
}
use libexositecoap.Client.Handlers.{claim, next_deadline}
use libexositecoap.Client.Receive.{on_datagram}
use libexositecoap.Client.Receive.Values.{as_string}
use libexositecoap.Client.Receive.Notified.{notification_taken, subscription_answered}
use libexositecoap.Client.Receive.Failed.{request_failed}
use libexositecoap.Client.Receive.Activated.{activation_answered}
use libexositecoap.Coap.Pdu.{null, ct_ack, cc_empty}
use libexositecoap.Client.Message.Answers.{blank, headed}
use libexositecoap.Client.Send.{active_op}
use libexositecoap.Client.Send.Acknowledged.{active_op-acknowledged}
use libexositecoap.Client.Receive.{reject}
use libexositecoap.Client.Receive.Rejected.{reject-holding}
use libexositecoap.Tests.Samples.{sample, sample-IsEncodable, room}
use libexositecoap.Tests.Device.{clock, device, idle_op, read_op}
use mathlib.Core.Option.{Option, some}

-- A notification of the value 42 with the number 0x0102, and the answer to a subscription.
abbrev note : Message
note = record sample {
  mtype = 0;
  options =
      (record { num = con_observe; val = 1 ∷ 2 ∷ [] })
      ∷ (record { num = con_max_age; val = 60 ∷ [] })
      ∷ [];
}

abbrev first_note : Message
first_note = record note { mtype = 2 }

note-IsOptions : IsOptions 1 note.options
note-IsOptions =
    (omega arith, omega arith, omega arith, (omega arith, omega arith, omega arith, tt))

-- The sample with other options, another type and another payload.
sample-like :
    (mtype : ℕ) (options : List Opt) (payload : Option (List ℕ))
    → mtype < 4
    → IsOptions 0 options
    → IsEncodable (record sample { mtype = mtype; options = options; payload = payload })
sample-like mtype options payload small sorted = record {
  type_range = small;
  code_range = omega arith;
  mid_range = omega arith;
  token_range = omega arith;
  token_bytes = (omega arith, (omega arith, tt));
  options_sorted = sorted;
}

note-IsEncodable : IsEncodable note
note-IsEncodable =
    sample-like 0 note.options note.payload (omega arith)
      (omega arith, omega arith, omega arith, note-IsOptions.3)

first_note-IsEncodable : IsEncodable first_note
first_note-IsEncodable =
    sample-like 2 note.options note.payload (omega arith)
      (omega arith, omega arith, omega arith, note-IsOptions.3)

length-note : length (encode note) ≡ 14
unfolding encode encode_body encode_options option_header nibble extension encode_payload
length-note = refl

length-first_note : length (encode first_note) ≡ 14
unfolding encode encode_body encode_options option_header nibble extension encode_payload
length-first_note = refl

abbrev buffer : List ℕ
buffer = 1 ∷ 2 ∷ 3 ∷ 4 ∷ []

abbrev watching : Op
watching = record idle_op {
  type = exo_subscribe;
  state = request_subscribed;
  value = some buffer;
  value_max = 4;
  obs_seq = 5;
}

abbrev asking : Op
asking = record watching { state = request_pending; obs_seq = 0 }

note_token : le_value note.token ≡ watching.token
unfolding le_value
note_token = refl

notification_taken_example :
    on_datagram clock note.mtype (holding 0 note room) device watching
    ≡ ok (
        claim
          (record watching {
            value = some (as_string (b'4' ∷ b'2' ∷ []) buffer);
            mid = 0x1234;
            state = request_sub_ack_new;
            obs_seq = 0x0102;
            timeout = (next_deadline clock device 60).0;
          })
          (next_deadline clock device 60).1
          false)
notification_taken_example =
    notification_taken clock device 0 note room watching (b'4' ∷ b'2' ∷ []) buffer (1 ∷ 2 ∷ [])
      note-IsEncodable note-IsOptions (omega (arith, length-note)) refl (omega arith)
      (omega arith, (omega arith, tt)) refl (omega arith) refl (omega arith) (omega arith)
      (inl refl) refl note_token refl

subscription_answered_example :
    on_datagram clock first_note.mtype (holding 0 first_note room) device asking
    ≡ ok (
        claim
          (record asking {
            value = some (as_string (b'4' ∷ b'2' ∷ []) buffer);
            state = request_success;
            obs_seq = 0x0102;
            timeout = (next_deadline clock device 60).0;
          })
          (next_deadline clock device 60).1
          false)
subscription_answered_example =
    subscription_answered clock device 0 first_note room asking (b'4' ∷ b'2' ∷ []) buffer
      (1 ∷ 2 ∷ []) first_note-IsEncodable note-IsOptions (omega (arith, length-first_note)) refl
      (omega arith) (omega arith, (omega arith, tt)) refl (omega arith) refl (omega arith)
      (omega arith) refl refl refl refl refl refl

-- An answer with a key.
abbrev key : List ℕ
key = replicate 40 b'c'

abbrev granted : Message
granted = record sample { options = []; payload = some key }

granted-IsEncodable : IsEncodable granted
granted-IsEncodable = sample-like 2 [] (some key) (omega arith) tt

length-granted : length (encode granted) ≡ 47
unfolding encode encode_body encode_options encode_payload
length-granted = refl

abbrev fresh : Client ℕ
fresh = record device { cik = replicate 41 0; device_state = bad_cik }

abbrev activating : Op
activating = record idle_op { type = exo_activate; state = request_pending }

activation_answered_example :
    on_datagram clock granted.mtype (holding 0 granted room) fresh activating
    ≡ ok (
        claim exo_op_init
          (record fresh { cik = as_string key fresh.cik; device_state = good; world = 1_000 })
          false)
activation_answered_example =
    activation_answered clock fresh 0 granted room activating key granted-IsEncodable
      (omega (arith, length-granted)) refl (omega arith) refl refl refl refl refl

active_op-acknowledged_example :
    (active_op clock request_sub_ack_new 7 device (blank 0 1 2 3 4 room 0 null) watching
      ≡ ok (
        record watching { state = request_success },
        holding 0 (headed ct_ack cc_empty 0x1234) room,
        device,
      ))
    × (active_op clock request_sub_ack 7 device (blank 0 1 2 3 4 room 0 null) watching
        ≡ ok (
          record watching { state = request_subscribed },
          holding 0 (headed ct_ack cc_empty 0x1234) room,
          device,
        ))
active_op-acknowledged_example =
    active_op-acknowledged clock device 0 1 2 3 4 0 room null watching (omega arith) 7

reject-holding_example : reject clock note.mtype (holding 0 note room) device ≡ ok device
reject-holding_example =
    reject-holding clock device 0 note room note-IsEncodable
      (omega (arith, length-note, length-append (encode note) room))

-- The sample as an answer 4.04 to a read.
abbrev missing : Message
missing = record sample { code = cc_not_found }

missing-IsEncodable : IsEncodable missing
missing-IsEncodable = record {
  type_range = omega arith;
  code_range = omega arith;
  mid_range = omega arith;
  token_range = sample-IsEncodable.token_range;
  token_bytes = sample-IsEncodable.token_bytes;
  options_sorted = sample-IsEncodable.options_sorted;
}

request_failed_example :
    on_datagram clock missing.mtype
      (holding 0 missing room)
      (record device { device_state = bad_cik })
      read_op
    ≡ ok (claim (record read_op { state = request_error }) device false)
request_failed_example =
    request_failed clock (record device { device_state = bad_cik }) 0 missing room read_op
      missing-IsEncodable refl refl refl (omega arith)
