-- ===== src/Client/Handlers.antt =====
-- What a datagram does at one operation: the branches of the loop over the operations in
-- `exo_process_waiting_datagrams` of src/exosite.c.
use libexositecoap.Common.{
  ℕ, List, Bool, true, false, ◌&&◌, ◌||◌, ◌==◌, if◌then◌else◌, Exec, ok, ◌>>=◌,
}
use libexositecoap.Memory.{poke, write}
use libexositecoap.Coap.Pdu.{Pdu, cc_content, cc_unauthorized, cc_not_found, con_observe}
use libexositecoap.Coap.Fields.{coap_get_code, coap_get_code_class, coap_get_mid, coap_get_token}
use libexositecoap.Coap.Reader.{coap_get_option_by_num, coap_get_payload}
use libexositecoap.Pal.{Pal}
use libexositecoap.Client.State.{Client, good, cik_length}
use libexositecoap.Client.Op.{
  Op, RequestType, RequestState, exo_null, exo_write, exo_read, exo_subscribe, exo_activate,
  request_pending, request_subscribed, request_sub_ack, request_sub_ack_new, request_success,
  request_error, exo_op_init,
}
use libexositecoap.Client.Send.{deadline}
use mathlib.Core.Option.{some}
use libexositecoap.Client.Payload.{
  bytes_at, emptied, refused, stored, store_payload, observe_bytes, max_age,
}

-- What a datagram does at one operation: nothing, so that the loop goes on, or it is taken, with
-- the flag that its answer was CC_UNAUTHORIZED.
pub data Verdict (W : Type 0) : Type 0 where
  pass : Verdict W
  claim : Op → Client W → Bool → Verdict W

abbrev pub is_subscribed : RequestState → Bool
is_subscribed request_subscribed = true
is_subscribed _ = false

abbrev pub is_pending : RequestState → Bool
is_pending request_pending = true
is_pending _ = false

module _ {W : Type 0} (pal : Pal W) where
  open pal use {exopal_get_time, exopal_store_cik, rand}

  -- Max-Age to Max-Age + 1.5 seconds from now.
  unfoldable pub next_deadline : Client W → ℕ → ℕ × Client W
  next_deadline c age =
      let (now, w₁) = exopal_get_time c.world in
      let (x, w₂) = rand w₁ in (deadline now age x, record c { world = w₂ })

  -- A notification with the value in the buffer.
  unfoldable pub notified : Pdu → Client W → Op → List ℕ → ℕ → Exec (Verdict W)
  unfolding next_deadline
  notified p c op value new_seq = do
    mid ← coap_get_mid p
    age ← max_age p
    let (t, c') = next_deadline c age
    ok (
        claim
          (record op {
            value = some value;
            mid = mid;
            state = if op.obs_seq == new_seq then request_sub_ack else request_sub_ack_new;
            obs_seq = if op.obs_seq == new_seq then op.obs_seq else new_seq;
            timeout = t;
          })
          c' false)

  -- CC_CONTENT for a subscription.
  unfoldable pub on_content : Pdu → Client W → Op → Exec (Verdict W)
  unfolding notified
  on_content p c op = do
    opt ← coap_get_option_by_num p con_observe 0
    new_seq ← observe_bytes opt.len 0 0 p opt.val
    payload ← coap_get_payload p
    done ← store_payload p payload op.value op.value_max
    elim done [
      | emptied bs ↦ ok (claim (record op { value = some bs }) c false)
      | refused ↦ ok (claim (record op { state = request_error }) c false)
      | stored bs ↦ notified p c op bs new_seq
    ]

  -- A message for a subscription.
  unfoldable pub on_observed : Pdu → Client W → Op → Exec (Verdict W)
  unfolding on_content
  on_observed p c op = do
    code ← coap_get_code p
    class ← coap_get_code_class p
    if code == cc_content
        then on_content p c op
        else if class == 2
        then ok (claim op c false)
        else ok (claim (record op { state = request_error }) c false)

  -- CT_CON and CT_NON
  unfoldable pub on_notify : Pdu → Client W → Op → Exec (Verdict W)
  unfolding on_observed
  on_notify p c op =
      if is_subscribed op.state
      then (do token ← coap_get_token p; if token == op.token then on_observed p c op else ok pass)
      else ok pass

  -- The answer to a read.
  unfoldable pub on_read : Pdu → Client W → Op → Exec (Verdict W)
  on_read p c op = do
    payload ← coap_get_payload p
    done ← store_payload p payload op.value op.value_max
    elim done [
      | emptied bs ↦ ok (claim (record op { value = some bs }) c false)
      | refused ↦ ok (claim (record op { state = request_error }) c false)
      | stored bs ↦ ok (claim (record op { value = some bs; state = request_success }) c false)
    ]

  -- The answer to a subscription, with the value in the buffer.
  unfoldable pub subscribed : Pdu → Client W → Op → List ℕ → Exec (Verdict W)
  unfolding next_deadline
  subscribed p c op value = do
    age ← max_age p
    opt ← coap_get_option_by_num p con_observe 0
    seq ← observe_bytes opt.len 0 op.obs_seq p opt.val
    let (t, c') = next_deadline c age
    ok (
        claim
          (record op { value = some value; state = request_success; obs_seq = seq; timeout = t }) c'
          false)

  unfoldable pub on_subscribe : Pdu → Client W → Op → Exec (Verdict W)
  unfolding subscribed
  on_subscribe p c op = do
    payload ← coap_get_payload p
    done ← store_payload p payload op.value op.value_max
    elim done [
      | emptied bs ↦ ok (claim (record op { value = some bs }) c false)
      | refused ↦ ok (claim (record op { state = request_error }) c false)
      | stored bs ↦ subscribed p c op bs
    ]

  -- The answer to an activation; the operation is done, whatever it says.
  unfoldable pub on_activate : Pdu → Client W → Op → Exec (Verdict W)
  unfolding exo_op_init
  on_activate p c op = do
    payload ← coap_get_payload p
    if payload.len == cik_length
        then (do
          key ← bytes_at p payload.val cik_length
          bs ← write c.cik 0 key
          cik ← poke bs cik_length 0
          let (_, w) = exopal_store_cik cik c.world
          ok (claim exo_op_init (record c { cik = cik; device_state = good; world = w }) false))
        else ok (claim exo_op_init c false)

  -- The switch over `op[i].type` for an answer of class 2.
  unfoldable pub on_success : RequestType → Pdu → Client W → Op → Exec (Verdict W)
  unfolding on_read on_subscribe on_activate
  on_success exo_write p c op = ok (claim (record op { state = request_success }) c false)
  on_success exo_read p c op = on_read p c op
  on_success exo_subscribe p c op = on_subscribe p c op
  on_success exo_activate p c op = on_activate p c op
  on_success exo_null p c op = ok pass

  -- An answer of another class.
  unfoldable pub on_failure : ℕ → Client W → Op → Verdict W
  on_failure code c op =
      let failed = record op { state = request_error } in
      if code == cc_unauthorized
      then claim failed c true
      else if code == cc_not_found
      then claim failed (record c { device_state = good }) false
      else claim failed c false

  -- The answer to a request.
  unfoldable pub on_answer : Pdu → Client W → Op → Exec (Verdict W)
  unfolding on_success on_failure
  on_answer p c op = do
    class ← coap_get_code_class p
    code ← coap_get_code p
    if class == 2 then on_success op.type p c op else ok (on_failure code c op)

  -- CT_ACK
  unfoldable pub on_ack : Pdu → Client W → Op → Exec (Verdict W)
  unfolding on_answer
  on_ack p c op =
      if is_pending op.state
      then (do mid ← coap_get_mid p; if op.mid == mid then on_answer p c op else ok pass)
      else ok pass

  -- CT_RST
  unfoldable pub on_reset : Pdu → Client W → Op → Exec (Verdict W)
  on_reset p c op =
      if is_pending op.state || is_subscribed op.state
      then (do
        mid ← coap_get_mid p
        token ← coap_get_token p
        if op.mid == mid && op.token == token
            then ok (claim (record op { state = request_error }) c false)
            else ok pass)
      else ok pass
