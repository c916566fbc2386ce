-- ===== src/Client/Send/Requested.antt =====
-- A pass of `exo_process_active_ops` of src/exosite.c at a request that fits: from the operation to
-- the bytes that the platform gets.
use libexositecoap.Common.{
  ℕ, ◌+◌, ◌*◌, ◌^◌, ◌≤◌, ◌<◌, ◌≡◌, ◌≢◌, ap, ◌∙◌, List, ◌++◌, length, ◌==◌, if◌then◌else◌, arith, ok,
}
use libexositecoap.Coap.Pdu.{Pdu, Ptr, coap_max_retransmit, coap_probing_rate}
use libexositecoap.Coap.Wire.{Message, encode, encode_options, encode_payload, holding}
use libexositecoap.Coap.Fields.{le_value}
use libexositecoap.Coap.Fields.Token.{token_spare}
use libexositecoap.Pal.{Pal}
use libexositecoap.Client.State.{Client, exo_ok}
use libexositecoap.Client.Op.{Op, exo_null, exo_subscribe, request_new, request_pending}
use libexositecoap.Client.Message.Answers.{blank}
use libexositecoap.Client.Message.Wanted.{requested}
use libexositecoap.Client.Send.{
  deadline, deadline_of_request, send_again, timed_out, check_timeout, active_op,
}
use libexositecoap.Client.Send.Asked.{Asks, Asks-IsEncodable, Asks-not_null, build_request-Filled}
use libexositecoap.Client.Send.Wire.{repeated, send_new-holding, send_again-sent}

-- A late request that is no subscription is sent again.
pub check_timeout-again :
    {W : Type 0} (pal : Pal W) (now : ℕ) (c : Client W) (p : Pdu) (op : Op)
    → op.type ≢ exo_null
    → op.type ≢ exo_subscribe
    → op.timeout ≤ now
    → check_timeout pal now c p op ≡ send_again pal op.type c p op
unfolding check_timeout timed_out
check_timeout-again pal now c p op some_request other late = ground arith

module _ {W : Type 0} (pal : Pal W) (c : Client W) (base x y z w len : ℕ) (spare : List ℕ)
    (opt_ptr : Ptr) (counter : c.message_id_counter < 65536) (top : 4 + length spare < 2 ^ 63)
    (op : Op) (m : Message) (asks : Asks c (pal.rand c.world).0 op m)
    (room : length (encode m) ≤ 4 + length spare) where
  -- The answer of the platform to the bytes of a message, and the world behind it.
  abbrev sent_to : Message → ℕ × W
  sent_to m' = pal.exopal_udp_send (encode m') (requested pal c).world

  -- For a new operation that asks for a message, with a counter of 16 bits and a buffer of 4 bytes
  -- or more and less than 2^63 that the message fits in, a pass gives the bytes of the message to
  -- the platform. If that accepts them the operation is pending, with the message's id and token
  -- and a timeout of 4 seconds; if not, it stays as it is and new.
  pub active_op-sent :
      (now : ℕ)
      → let (r, w₁) = sent_to m in
        let (sent_at, w₂) = pal.exopal_get_time w₁ in
        (p : Pdu) × (active_op pal request_new now c (blank base x y z w spare len opt_ptr) op
          ≡ ok (
            if r == 0
                then record op {
                  state = request_pending;
                  timeout = deadline_of_request sent_at;
                  mid = m.mid;
                  token = le_value m.token;
                }
                else op,
            p,
            record (requested pal c) { world = if r == 0 then w₂ else w₁ },
          ))
  unfolding active_op
  active_op-sent now =
      let (q, built, filled) =
        build_request-Filled pal c base x y z w len spare opt_ptr counter top asks room in
      (
        holding base m filled.spare,
        send_new-holding pal base m filled.spare (Asks-IsEncodable c _ counter asks) op.type c
            (requested pal c) (blank base x y z w spare len opt_ptr) op exo_ok
            (built ∙ ap (λ t. ok (exo_ok, t, requested pal c)) filled.shape) (Asks-not_null asks),
      )

  module _ (mid_range : op.mid < 65536) (tkl_range : op.tkl ≤ 8)
      (fits : 4 + op.tkl + length (encode_options 0 m.options ++ encode_payload m.payload)
        ≤ 4 + length spare) where
    -- For a pending operation that is no subscription, asks for a message under the same conditions,
    -- has timed out and was sent again less than 4 times, a pass gives the platform the message
    -- with the operation's own id and the low `tkl` bytes of its token, if `tkl` is at most 8 and
    -- that fits too. If the platform accepts it the retries are one more and the timeout moves on
    -- by that many probing intervals and a random part; if not, the operation stays as it is.
    pub active_op-sent_again :
        (now : ℕ)
        → op.type ≢ exo_subscribe
        → op.timeout ≤ now
        → op.retries < coap_max_retransmit
        → let (r, w₁) = sent_to (repeated m op) in
          let (sent_at, w₂) = pal.exopal_get_time w₁ in
          let (random, w₃) = pal.rand w₂ in
          (p : Pdu) × (active_op pal request_pending now c (blank base x y z w spare len opt_ptr) op
            ≡ ok (
              if r == 0
                  then record op {
                    retries = op.retries + 1;
                    timeout = deadline sent_at ((op.retries + 1) * coap_probing_rate) random;
                  }
                  else op,
              p,
              record (requested pal c) { world = if r == 0 then w₃ else w₁ },
            ))
    unfolding active_op
    active_op-sent_again now other late left =
        let (q, built, filled) =
          build_request-Filled pal c base x y z w len spare opt_ptr counter top asks room in
        (
          holding base (repeated m op)
              (token_spare (record m { mid = op.mid }) filled.spare op.tkl),
          check_timeout-again pal now c _ op (Asks-not_null asks) other late
              ∙ send_again-sent pal base m filled.spare (Asks-IsEncodable c _ counter asks) op.type
                  c (requested pal c) (blank base x y z w spare len opt_ptr) op exo_ok
                  (built ∙ ap (λ t. ok (exo_ok, t, requested pal c)) filled.shape) mid_range
                  tkl_range (omega (arith, filled.size)) (omega (arith, filled.size)) left,
        )
