-- ===== src/Client/Receive/Notified.antt =====
-- Notifications and the answer to a subscription, in `exo_process_waiting_datagrams` of
-- src/exosite.c.
use libexositecoap.Common.{
  ℕ, ◌/◌, ◌^◌, ◌≤◌, ◌<◌, ◌≡◌, ◌⊎◌, refl, ap, ◌∙◌, List, length, All, ◌==◌, if◌then◌else◌, false,
  arith, ok,
}
use libexositecoap.Common.Bytes.{IsByte}
use libexositecoap.Coap.Pdu.{con_max_age, con_observe, ct_con, ct_non, ct_ack, cc_content}
use libexositecoap.Coap.Wire.{Message, IsEncodable, IsOptions, encode, holding}
use libexositecoap.Coap.Fields.{le_value}
use libexositecoap.Coap.Fields.Laws.{get_mid-holding, get_code-holding, get_code_class-holding}
use libexositecoap.Coap.Fields.TokenValue.{get_token-holding}
use libexositecoap.Coap.Reader.Options.{find_option}
use libexositecoap.Coap.Reader.Payload.{payload_at, get_payload-holding}
use libexositecoap.Pal.{Pal}
use libexositecoap.Client.State.{Client}
use libexositecoap.Client.Op.{
  Op, exo_subscribe, request_pending, request_subscribed, request_sub_ack, request_sub_ack_new,
  request_success,
}
use libexositecoap.Client.Handlers.{
  claim, next_deadline, notified, on_content, on_observed, on_notify, subscribed, on_subscribe,
  on_success,
}
use libexositecoap.Client.Payload.{stored, store_payload}
use libexositecoap.Client.Receive.{on_datagram}
use libexositecoap.Client.Receive.Values.{as_string, store_payload-stored, answer_here}
use libexositecoap.Client.Receive.Observed.{age_of, sequence, max_age-holding, observe-holding}
use mathlib.Core.Option.{some}

module _ {W : Type 0} (pal : Pal W) (c : Client W) (base : ℕ) (m : Message) (spare : List ℕ)
    (op : Op) (text buf value : List ℕ) (valid : IsEncodable m) (positive : IsOptions 1 m.options)
    (small : length (encode m) < 2 ^ 64)
    (observed : find_option con_observe 0 m.options ≡ some value) (short : length value ≤ 2)
    (some_bytes : All IsByte value) (carried : m.payload ≡ some text) (some_text : 0 < length text)
    (buffer : op.value ≡ some buf) (fits : length text < op.value_max)
    (room : op.value_max ≤ length buf) where
  abbrev age : ℕ
  age = age_of (find_option con_max_age 0 m.options)

  stored_here :
      store_payload
        (holding base m spare)
        (payload_at (length (encode m)) m.payload)
        op.value
        op.value_max
      ≡ ok (stored (as_string text buf))
  stored_here =
      ap
        (λ b.
          store_payload (holding base m spare) (payload_at (length (encode m)) m.payload) b
            op.value_max)
        buffer
      ∙ store_payload-stored base m text spare buf op.value_max carried some_text fits room

  on_content-sequence :
      on_content pal (holding base m spare) c op
      ≡ notified pal (holding base m spare) c op (as_string text buf) (sequence value)
  unfolding on_content
  on_content-sequence =
      let (r, got, seq) =
        observe-holding base m spare valid positive small value observed short some_bytes in
      rw got (rw seq (rw (get_payload-holding base m spare valid small) (rw stored_here refl)))

  notified-sequence :
      notified pal (holding base m spare) c op (as_string text buf) (sequence value)
      ≡ ok (
          claim
            (record op {
              value = some (as_string text buf);
              mid = m.mid;
              state = if op.obs_seq == sequence value then request_sub_ack else request_sub_ack_new;
              obs_seq = sequence value;
              timeout = (next_deadline pal c age).0;
            })
            (next_deadline pal c age).1
            false)
  unfolding notified
  notified-sequence =
      let either : (if op.obs_seq == sequence value then op.obs_seq else sequence value)
          ≡ sequence value =
        ground arith in
      rw (get_mid-holding base m spare valid)
        (rw (max_age-holding base m spare valid positive small) (rw either refl))

  -- Let an encodable message of less than 2^64 bytes carry a payload that is not empty and fits in
  -- the buffer of the operation with a 0 behind it, an Observe option of at most two bytes, and
  -- option numbers above 0. If it is a CON or a NON with the code 2.05 and the token of a subscribed
  -- operation, that takes it: the payload and a 0 are in its buffer, its id is the message's, its
  -- number is the one of the Observe option, its timeout is the value of a Max-Age option of one byte,
  -- and 120 seconds without one or with one of another length, and a random part away, and it is to acknowledge a new value if the number is another than before,
  -- and an old one otherwise.
  pub notification_taken :
      (m.mtype ≡ ct_con) ⊎ (m.mtype ≡ ct_non)
      → op.state ≡ request_subscribed
      → le_value m.token ≡ op.token
      → m.code ≡ cc_content
      → on_datagram pal m.mtype (holding base m spare) c op
        ≡ ok (
            claim
              (record op {
                value = some (as_string text buf);
                mid = m.mid;
                state =
                    if op.obs_seq == sequence value then request_sub_ack else request_sub_ack_new;
                obs_seq = sequence value;
                timeout = (next_deadline pal c age).0;
              })
              (next_deadline pal c age).1
              false)
  unfolding on_datagram on_notify on_observed
  notification_taken kind waits mine content =
      let same : on_datagram pal m.mtype (holding base m spare) c op
          ≡ on_content pal (holding base m spare) c op =
        grind (
          arith,
          get_token-holding base m spare valid,
          get_code-holding base m spare valid,
          get_code_class-holding base m spare valid,
        ) in
      same ∙ on_content-sequence ∙ notified-sequence

  -- The same message as an ACK of class 2 with the id of a pending subscription that has had no
  -- number yet: the payload and a 0 are in the buffer, the subscription is a success, and its number
  -- is the one of the Observe option, and its timeout is the value of a Max-Age option of one byte,
  -- and 120 seconds without one or with one of another length, and a random part away.
  pub subscription_answered :
      m.mtype ≡ ct_ack
      → op.type ≡ exo_subscribe
      → op.state ≡ request_pending
      → op.obs_seq ≡ 0
      → op.mid ≡ m.mid
      → m.code / 32 ≡ 2
      → on_datagram pal m.mtype (holding base m spare) c op
        ≡ ok (
            claim
              (record op {
                value = some (as_string text buf);
                state = request_success;
                obs_seq = sequence value;
                timeout = (next_deadline pal c age).0;
              })
              (next_deadline pal c age).1
              false)
  unfolding on_success on_subscribe subscribed
  subscription_answered kind watch waits fresh mine class =
      let (r, got, seq) =
        observe-holding base m spare valid positive small value observed short some_bytes in
      answer_here pal c base m spare op text buf valid small waits mine kind class carried some_text
        buffer
      ∙ rw watch (
          rw (get_payload-holding base m spare valid small) (
            rw stored_here (
              rw (max_age-holding base m spare valid positive small)
                (rw got (rw fresh (rw seq refl))))))
