-- ===== src/Client/Send.antt =====
-- `exo_process_active_ops` of src/exosite.c.
pub mod Ends
pub mod Steps
pub mod Wire
pub mod Asked
pub mod Requested
pub mod GivenUp
pub mod Acknowledged
use libexositecoap.Common.{
  ℕ, ◌+◌, ◌*◌, ◌%◌, ◌^◌, List, [], ◌∷◌, ltb, leb, ◌==◌, if◌then◌else◌, u8, take, Exec, ok, ◌>>=◌,
}
use libexositecoap.Memory.{read}
use libexositecoap.Coap.Pdu.{Pdu, CoapError, coap_max_retransmit, coap_probing_rate}
use libexositecoap.Coap.Fields.{coap_get_mid, coap_get_token, coap_set_mid, coap_set_token}
use libexositecoap.Pal.{Pal}
use libexositecoap.Client.State.{Client, ExoError}
use libexositecoap.Client.Op.{
  Op, RequestType, RequestState, exo_null, exo_write, exo_read, exo_subscribe, exo_activate,
  request_null, request_new, request_pending, request_subscribed, request_sub_ack,
  request_sub_ack_new, request_success, request_error,
}
use libexositecoap.Client.Message.{
  exo_build_msg_activate, exo_build_msg_read, exo_build_msg_observe, exo_build_msg_write,
  exo_build_msg_ack,
}

-- `timeout` after `seconds`, with a random part of up to 1.5 seconds, on 64 bits.
abbrev pub deadline : ℕ → ℕ → ℕ → ℕ
deadline now seconds r = (now + seconds * 1_000_000 + r % 1_500_000) % 2 ^ 64

abbrev pub deadline_of_request : ℕ → ℕ
deadline_of_request now = (now + 4_000_000) % 2 ^ 64

module _ {W : Type 0} (pal : Pal W) where
  open pal use {exopal_udp_send, exopal_get_time, rand}

  -- The bytes of the message go to the platform: its answer is 0 or an error.
  unfoldable pub send : Client W → Pdu → Exec (ℕ × Client W)
  send c p = do
    bytes ← read p.bytes 0 p.len
    let (r, w) = exopal_udp_send bytes c.world
    ok (r, record c { world = w })

  -- The message of an operation; none for one that has no request. The builders' answers are not
  -- looked at.
  unfoldable pub build_request :
      RequestType → Client W → Pdu → Op → Exec (ExoError × Pdu × Client W)
  build_request exo_write c p op = exo_build_msg_write pal c p op.alias op.value
  build_request exo_read c p op = exo_build_msg_read pal c p op.alias
  build_request exo_subscribe c p op = exo_build_msg_observe pal c p op.alias
  build_request exo_activate c p op = exo_build_msg_activate pal c p
  build_request exo_null c p op = ok (ExoError.exo_ok, p, c)

  -- A request that was sent waits for its answer.
  unfoldable pub sent_request : Client W → Pdu → Op → ℕ → Exec (Op × Pdu × Client W)
  sent_request c p op r =
      if r == 0
      then (do
        let (now, w) = exopal_get_time c.world
        mid ← coap_get_mid p
        token ← coap_get_token p
        ok (
          record op {
            state = request_pending;
            timeout = deadline_of_request now;
            mid = mid;
            token = token;
          },
          p,
          record c { world = w },
        ))
      else ok (op, p, c)

  -- EXO_REQUEST_NEW
  unfoldable pub send_new : RequestType → Client W → Pdu → Op → Exec (Op × Pdu × Client W)
  unfolding sent_request
  send_new exo_null c p op = ok (record op { type = exo_null }, p, c)
  send_new type c p op = do
    (_, p₁, c₁) ← build_request type c p op
    (r, c₂) ← send c₁ p₁
    sent_request c₂ p₁ op r

  -- What a retransmission that was sent changes.
  unfoldable pub sent_again : Client W → Pdu → Op → ℕ → Exec (Op × Pdu × Client W)
  sent_again c p op r =
      if r == 0
      then (let retries = u8 (op.retries + 1) in
          let (now, w₁) = exopal_get_time c.world in
          let (x, w₂) = rand w₁ in
          ok (
            record op { retries = retries; timeout = deadline now (retries * coap_probing_rate) x },
            p,
            record c { world = w₂ },
          ))
      else ok (op, p, c)

  -- A request of the given type that has timed out; the old message id is used again, and the old
  -- token at the length in `tkl`.
  unfoldable pub send_again : RequestType → Client W → Pdu → Op → Exec (Op × Pdu × Client W)
  unfolding sent_again
  send_again type c p op =
      if ltb op.retries coap_max_retransmit
      then (do
        (_, p₁, c₁) ← build_request type c p op
        (_, p₂) ← coap_set_mid p₁ op.mid
        (_, p₃) ← coap_set_token p₂ op.token op.tkl
        (r, c₂) ← send c₁ p₃
        sent_again c₂ p₃ op r)
      else ok (record op { state = request_error }, p, c)

  -- EXO_REQUEST_SUBSCRIBED and EXO_REQUEST_PENDING, once the timeout is reached.
  unfoldable pub timed_out : RequestType → Client W → Pdu → Op → Exec (Op × Pdu × Client W)
  unfolding send_again
  timed_out exo_read c p op = send_again exo_read c p op
  timed_out exo_write c p op = send_again exo_write c p op
  timed_out exo_activate c p op = send_again exo_activate c p op
  timed_out exo_subscribe c p op = ok (record op { state = request_new }, p, c)
  timed_out exo_null c p op = ok (op, p, c)

  unfoldable pub check_timeout : ℕ → Client W → Pdu → Op → Exec (Op × Pdu × Client W)
  unfolding timed_out
  check_timeout now c p op = if leb op.timeout now then timed_out op.type c p op else ok (op, p, c)

  -- EXO_REQUEST_SUB_ACK_NEW and EXO_REQUEST_SUB_ACK: `next` is the state once the ack is sent.
  unfoldable pub send_ack : RequestState → Client W → Pdu → Op → Exec (Op × Pdu × Client W)
  send_ack next c p op = do
    (_, p₁) ← exo_build_msg_ack p op.mid
    (r, c₁) ← send c p₁
    ok (if r == 0 then record op { state = next } else op, p₁, c₁)

  -- The switch over `op[i].state`.
  unfoldable pub active_op : RequestState → ℕ → Client W → Pdu → Op → Exec (Op × Pdu × Client W)
  unfolding send_new check_timeout send_ack
  active_op request_new now c p op = send_new op.type c p op
  active_op request_subscribed now c p op = check_timeout now c p op
  active_op request_pending now c p op = check_timeout now c p op
  active_op request_sub_ack_new now c p op = send_ack request_success c p op
  active_op request_sub_ack now c p op = send_ack request_subscribed c p op
  active_op request_null now c p op = ok (op, p, c)
  active_op request_success now c p op = ok (op, p, c)
  active_op request_error now c p op = ok (op, p, c)

  -- The loop; `now` is read once, before it.
  unfoldable pub active_ops : ℕ → Client W → Pdu → List Op → Exec (List Op × Client W)
  active_ops now c p [] = ok ([], c)
  active_ops now c p (op ∷ ops) = do
    (op', p', c') ← active_op op.state now c p op
    (ops', c'') ← active_ops now c' p' ops
    ok (op' ∷ ops', c'')

  -- `pdu` is the local message, over an uninitialised array.
  unfoldable pub exo_process_active_ops : Client W → Pdu → List Op → Exec (List Op × Client W)
  exo_process_active_ops c pdu ops =
      let (now, w) = exopal_get_time c.world in active_ops now (record c { world = w }) pdu ops
