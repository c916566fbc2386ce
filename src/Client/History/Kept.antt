-- ===== src/Client/History/Kept.antt =====
-- What holds of the static variables of src/exosite.c in every history.
use libexositecoap.Common.{
  ℕ, ◌≡◌, ◌<◌, List, [], ◌∷◌, length, Bool, true, false, arith, ok, sym, ◌∙◌, ◌≢◌, >>=-eq-ok, ◌>>=◌,
  ltb, if◌then◌else◌,
}
use libexositecoap.Memory.{peek}
use libexositecoap.Coap.Pdu.{Pdu, coap_max_retransmit}
use libexositecoap.Coap.Fields.{coap_set_mid, coap_set_token}
use libexositecoap.Client.Send.Wire.{send_new-request}
use libexositecoap.Pal.{Pal}
use libexositecoap.Client.State.{Client, ExoError}
use libexositecoap.Client.Op.{
  Op, RequestType, RequestState, exo_null, exo_write, exo_read, exo_subscribe, exo_activate,
  request_null, request_new, request_pending, request_subscribed, request_sub_ack,
  request_sub_ack_new, request_success, request_error,
}
use libexositecoap.Client.Message.{
  request, exo_build_msg_ack, exo_build_msg_activate, exo_build_msg_read, exo_build_msg_observe,
  exo_build_msg_write,
}
use libexositecoap.Client.Send.{
  send, build_request, sent_request, send_new, sent_again, send_again, timed_out, check_timeout,
  send_ack, active_op, active_ops, exo_process_active_ops,
}

-- The array of the CIK has 41 bytes, of which the last is 0, and the counter 16 bits.
unfoldable pub IsClient : {W : Type 0} → Client W → Type 0
IsClient c = (length c.cik ≡ 41) × (peek c.cik 40 ≡ ok 0) × (c.message_id_counter < 65536)

module _ {W : Type 0} (pal : Pal W) (c c' : Client W) (p p' : Pdu) where
  request-IsClient :
      (code r : ℕ) → request pal c p code ≡ ok ((r, p'), c') → IsClient c → IsClient c'
  unfolding request IsClient
  request-IsClient code r e h = ground arith

module _ {W : Type 0} (pal : Pal W) (c c' : Client W) (p p' : Pdu) where
  build_request-IsClient :
      (t : RequestType) (op : Op) (e : ExoError)
      → build_request pal t c p op ≡ ok (e, p', c')
      → IsClient c
      → IsClient c'
  unfolding build_request exo_build_msg_read exo_build_msg_write exo_build_msg_observe
      exo_build_msg_activate
  build_request-IsClient exo_null op e run h = ground arith
  build_request-IsClient exo_write op e run h = grind (arith, request-IsClient pal c)
  build_request-IsClient exo_read op e run h = grind (arith, request-IsClient pal c)
  build_request-IsClient exo_subscribe op e run h = grind (arith, request-IsClient pal c)
  build_request-IsClient exo_activate op e run h = grind (arith, request-IsClient pal c)

module _ {W : Type 0} (pal : Pal W) (op op' : Op) (c' : Client W) (p' : Pdu) where
  send-IsClient :
      (c : Client W) (p : Pdu) (r : ℕ) → send pal c p ≡ ok (r, c') → IsClient c → IsClient c'
  unfolding send IsClient
  send-IsClient c p r e h = ground arith

  sent_request-IsClient :
      (c : Client W) (p : Pdu) (r : ℕ)
      → sent_request pal c p op r ≡ ok (op', p', c')
      → IsClient c
      → IsClient c'
  unfolding sent_request IsClient
  sent_request-IsClient c p r e h = ground arith

  sent_again-IsClient :
      (c : Client W) (p : Pdu) (r : ℕ)
      → sent_again pal c p op r ≡ ok (op', p', c')
      → IsClient c
      → IsClient c'
  unfolding sent_again IsClient
  sent_again-IsClient c p r e h = ground arith

module _ {W : Type 0} (pal : Pal W) (op op' : Op) (c' : Client W) (p' : Pdu) where
  send_some-IsClient :
      (t : RequestType) (c : Client W) (p : Pdu)
      → t ≢ exo_null
      → send_new pal t c p op ≡ ok (op', p', c')
      → IsClient c
      → IsClient c'
  send_some-IsClient t c p some_request e h =
      let ((err, p₁, c₁), built, e₁) =
        >>=-eq-ok (build_request pal t c p op) _
          (sym (send_new-request pal t c p op some_request) ∙ e) in
      let ((r, c₂), handed, e₂) = >>=-eq-ok (send pal c₁ p₁) _ e₁ in
      sent_request-IsClient pal op op' c' p' c₂ p₁ r e₂ (
        send-IsClient pal op op' c₂ p' c₁ p₁ r handed
          (build_request-IsClient pal c c₁ p p₁ t op err built h))

  send_new-IsClient :
      (t : RequestType) (c : Client W) (p : Pdu)
      → send_new pal t c p op ≡ ok (op', p', c')
      → IsClient c
      → IsClient c'
  send_new-IsClient exo_null c p e h = unfold send_new in ground arith
  send_new-IsClient exo_write c p e h = send_some-IsClient exo_write c p (λ w. cc) e h
  send_new-IsClient exo_read c p e h = send_some-IsClient exo_read c p (λ w. cc) e h
  send_new-IsClient exo_subscribe c p e h = send_some-IsClient exo_subscribe c p (λ w. cc) e h
  send_new-IsClient exo_activate c p e h = send_some-IsClient exo_activate c p (λ w. cc) e h

  send_rest-IsClient :
      (t : RequestType) (c c₁ : Client W) (p p₁ : Pdu) (err : ExoError)
      → build_request pal t c p op ≡ ok (err, p₁, c₁)
      → (do
        (_, p₂) ← coap_set_mid p₁ op.mid
        (_, p₃) ← coap_set_token p₂ op.token op.tkl
        (r, c₂) ← send pal c₁ p₃
        sent_again pal c₂ p₃ op r)
        ≡ ok (op', p', c')
      → IsClient c
      → IsClient c'
  send_rest-IsClient t c c₁ p p₁ err built e h =
      let ((err₁, p₂), set, e₁) = >>=-eq-ok (coap_set_mid p₁ op.mid) _ e in
      let ((err₂, p₃), set₁, e₂) = >>=-eq-ok (coap_set_token p₂ op.token op.tkl) _ e₁ in
      let ((r, c₂), handed, e₃) = >>=-eq-ok (send pal c₁ p₃) _ e₂ in
      sent_again-IsClient pal op op' c' p' c₂ p₃ r e₃ (
        send-IsClient pal op op' c₂ p' c₁ p₃ r handed
          (build_request-IsClient pal c c₁ p p₁ t op err built h))

  send_again-IsClient :
      (t : RequestType) (c : Client W) (p : Pdu)
      → send_again pal t c p op ≡ ok (op', p', c')
      → IsClient c
      → IsClient c'
  unfolding send_again
  send_again-IsClient t c p e h = by_left (ltb op.retries coap_max_retransmit) e
    where
      by_left :
          (left : Bool)
          → (if left
              then (do
                (_, p₁, c₁) ← build_request pal t c p op
                (_, p₂) ← coap_set_mid p₁ op.mid
                (_, p₃) ← coap_set_token p₂ op.token op.tkl
                (r, c₂) ← send pal c₁ p₃
                sent_again pal c₂ p₃ op r)
              else ok (record op { state = request_error }, p, c))
            ≡ ok (op', p', c')
          → IsClient c'
      by_left true w =
          let ((err, p₁, c₁), built, e₁) = >>=-eq-ok (build_request pal t c p op) _ w in
          send_rest-IsClient t c c₁ p p₁ err built e₁ h
      by_left false w = ground arith

  timed_out-IsClient :
      (t : RequestType) (c : Client W) (p : Pdu)
      → timed_out pal t c p op ≡ ok (op', p', c')
      → IsClient c
      → IsClient c'
  unfolding timed_out
  timed_out-IsClient exo_null c p e h = ground arith
  timed_out-IsClient exo_write c p e h = send_again-IsClient exo_write c p e h
  timed_out-IsClient exo_read c p e h = send_again-IsClient exo_read c p e h
  timed_out-IsClient exo_subscribe c p e h = ground arith
  timed_out-IsClient exo_activate c p e h = send_again-IsClient exo_activate c p e h

  check_timeout-IsClient :
      (now : ℕ) (c : Client W) (p : Pdu)
      → check_timeout pal now c p op ≡ ok (op', p', c')
      → IsClient c
      → IsClient c'
  unfolding check_timeout
  check_timeout-IsClient now c p e h = grind (arith, timed_out-IsClient op.type c p)

  send_ack-IsClient :
      (next : RequestState) (c : Client W) (p : Pdu)
      → send_ack pal next c p op ≡ ok (op', p', c')
      → IsClient c
      → IsClient c'
  unfolding send_ack
  send_ack-IsClient next c p e h =
      let ((err, p₁), built, e₁) = >>=-eq-ok (exo_build_msg_ack p op.mid) _ e in
      let ((r, c₁), handed, e₂) = >>=-eq-ok (send pal c p₁) _ e₁ in
      let kept = send-IsClient pal op op' c₁ p' c p₁ r handed h in ground (arith, kept)

  active_op-IsClient :
      (s : RequestState) (now : ℕ) (c : Client W) (p : Pdu)
      → active_op pal s now c p op ≡ ok (op', p', c')
      → IsClient c
      → IsClient c'
  unfolding active_op
  active_op-IsClient request_new now c p e h = send_new-IsClient op.type c p e h
  active_op-IsClient request_subscribed now c p e h = check_timeout-IsClient now c p e h
  active_op-IsClient request_pending now c p e h = check_timeout-IsClient now c p e h
  active_op-IsClient request_sub_ack_new now c p e h = send_ack-IsClient request_success c p e h
  active_op-IsClient request_sub_ack now c p e h = send_ack-IsClient request_subscribed c p e h
  active_op-IsClient request_null now c p e h = ground arith
  active_op-IsClient request_success now c p e h = ground arith
  active_op-IsClient request_error now c p e h = ground arith

module _ {W : Type 0} (pal : Pal W) where
  active_ops-IsClient :
      (now : ℕ) (c c' : Client W) (p : Pdu) (ops ops' : List Op)
      → active_ops pal now c p ops ≡ ok (ops', c')
      → IsClient c
      → IsClient c'
  unfolding active_ops
  active_ops-IsClient now c c' p [] ops' e h = ground arith
  active_ops-IsClient now c c' p (op ∷ ops) ops' e h =
      let ((op₁, p₁, c₁), e₁, e₂) = >>=-eq-ok (active_op pal op.state now c p op) _ e in
      let ((ops₂, c₂), e₃, e₄) = >>=-eq-ok (active_ops pal now c₁ p₁ ops) _ e₂ in
      let kept =
        active_ops-IsClient now c₁ c₂ p₁ ops ops₂ e₃
          (active_op-IsClient pal op op₁ c₁ p₁ op.state now c p e₁ h) in
      ground (arith, kept)

  pub process_active_ops-IsClient :
      (c c' : Client W) (p : Pdu) (ops ops' : List Op)
      → exo_process_active_ops pal c p ops ≡ ok (ops', c')
      → IsClient c
      → IsClient c'
  unfolding exo_process_active_ops IsClient
  process_active_ops-IsClient c c' p ops ops' e h = active_ops-IsClient _ _ c' p ops ops' e h
