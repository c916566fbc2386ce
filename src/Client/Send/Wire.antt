-- ===== src/Client/Send/Wire.antt =====
-- The bytes that `exo_process_active_ops` of src/exosite.c gives to the platform for a request.
use libexositecoap.Common.{
  ℕ, ◌+◌, ◌*◌, ◌^◌, ◌≤◌, ◌<◌, ◌≡◌, ◌≢◌, refl, ◌∙◌, List, ◌++◌, length, ltb, ◌==◌, if◌then◌else◌,
  true, u8, arith, ok, ◌>>=◌,
}
use libexositecoap.Memory.Local.{read_prefix}
use libexositecoap.Coap.Pdu.{Pdu, coap_max_retransmit, coap_probing_rate}
use libexositecoap.Coap.Wire.{Message, IsEncodable, encode, encode_options, encode_payload, holding}
use libexositecoap.Coap.Fields.{le_bytes, le_value}
use libexositecoap.Coap.Fields.Laws.{get_mid-holding, set_mid-holding}
use libexositecoap.Coap.Fields.Token.{token_spare, set_token-holding}
use libexositecoap.Coap.Fields.TokenValue.{get_token-holding, length-le_bytes, le_bytes-IsByte}
use libexositecoap.Pal.{Pal}
use libexositecoap.Client.State.{Client, ExoError}
use libexositecoap.Client.Op.{
  Op, RequestType, exo_null, exo_write, exo_read, exo_subscribe, exo_activate, request_pending,
}
use libexositecoap.Client.Send.{
  deadline, deadline_of_request, send, build_request, sent_request, send_new, sent_again,
  send_again,
}

-- The message with the id of a request and the low bytes of its token.
abbrev pub repeated : Message → Op → Message
repeated m op = record m { mid = op.mid; token = le_bytes op.tkl op.token }

module _ {W : Type 0} (pal : Pal W) where
  pub send-holding :
      (base : ℕ) (m : Message) (spare : List ℕ) (c : Client W)
      → send pal c (holding base m spare)
        ≡ ok (
          (pal.exopal_udp_send (encode m) c.world).0,
          record c { world = (pal.exopal_udp_send (encode m) c.world).1 },
        )
  unfolding send holding
  send-holding base m spare c = rw (read_prefix (encode m) spare)

  -- An operation with a request is built and sent.
  pub send_new-request :
      (t : RequestType) (c : Client W) (p : Pdu) (op : Op)
      → t ≢ exo_null
      → send_new pal t c p op ≡ (do
        (e, p₁, c₁) ← build_request pal t c p op
        (r, c₂) ← send pal c₁ p₁
        sent_request pal c₂ p₁ op r)
  unfolding send_new
  send_new-request exo_null c p op h = absurd (h refl)
  send_new-request exo_write c p op h = refl
  send_new-request exo_read c p op h = refl
  send_new-request exo_subscribe c p op h = refl
  send_new-request exo_activate c p op h = refl

  -- What the answer of the platform to a new request makes of the operation.
  sent_request-holding :
      (base : ℕ) (m : Message) (spare : List ℕ) (c : Client W) (op : Op) (r : ℕ)
      → IsEncodable m
      → sent_request pal c (holding base m spare) op r
        ≡ ok (
          if r == 0
              then record op {
                state = request_pending;
                timeout = deadline_of_request (pal.exopal_get_time c.world).0;
                mid = m.mid;
                token = le_value m.token;
              }
              else op,
          holding base m spare,
          record c { world = if r == 0 then (pal.exopal_get_time c.world).1 else c.world },
        )
  unfolding sent_request
  sent_request-holding base m spare c op r v =
      ground (arith, get_mid-holding base m spare v, get_token-holding base m spare v)

length-renumbered :
    (m : Message) (mid : ℕ) (spare : List ℕ)
    → length (encode (record m { mid = mid }) ++ spare) ≡ length (encode m ++ spare)
unfolding encode
length-renumbered m mid spare = refl

repeated-IsEncodable :
    (m : Message) (op : Op)
    → IsEncodable m
    → op.mid < 65536
    → op.tkl ≤ 8
    → IsEncodable (repeated m op)
repeated-IsEncodable m op v mid_range tkl_range = record {
  type_range = v.type_range;
  code_range = v.code_range;
  mid_range = mid_range;
  token_range = omega (arith, length-le_bytes op.tkl op.token);
  token_bytes = le_bytes-IsByte op.tkl op.token;
  options_sorted = v.options_sorted;
}

-- A request of the type `t` that the builder has put into the buffer.
module _ {W : Type 0} (pal : Pal W) (base : ℕ) (m : Message) (spare : List ℕ) (v : IsEncodable m)
    (t : RequestType) (c c₁ : Client W) (p : Pdu) (op : Op) (e : ExoError)
    (built : build_request pal t c p op ≡ ok (e, holding base m spare, c₁)) where
  abbrev platform_answer : ℕ
  platform_answer = (pal.exopal_udp_send (encode m) c₁.world).0

  abbrev handed : Client W
  handed = record c₁ { world = (pal.exopal_udp_send (encode m) c₁.world).1 }

  pub send_new-holding :
      t ≢ exo_null
      → send_new pal t c p op
        ≡ ok (
          if platform_answer == 0
              then record op {
                state = request_pending;
                timeout = deadline_of_request (pal.exopal_get_time handed.world).0;
                mid = m.mid;
                token = le_value m.token;
              }
              else op,
          holding base m spare,
          record c₁ {
            world =
                if platform_answer == 0 then (pal.exopal_get_time handed.world).1 else handed.world;
          },
        )
  send_new-holding some_request =
      send_new-request pal t c p op some_request
      ∙ rw built (
          rw (send-holding pal base m spare c₁)
            (sent_request-holding pal base m spare handed op platform_answer v))

  module _ (mid_range : op.mid < 65536) (tkl_range : op.tkl ≤ 8)
      (small : length (encode m ++ spare) < 2 ^ 63)
      (fits : 4 + op.tkl + length (encode_options 0 m.options ++ encode_payload m.payload)
        ≤ length (encode m ++ spare)) where
    abbrev again_spare : List ℕ
    again_spare = token_spare (record m { mid = op.mid }) spare op.tkl

    abbrev platform_answer_again : ℕ
    platform_answer_again = (pal.exopal_udp_send (encode (repeated m op)) c₁.world).0

    abbrev handed_again : Client W
    handed_again = record c₁ { world = (pal.exopal_udp_send (encode (repeated m op)) c₁.world).1 }

    send_again-holding :
        op.retries < coap_max_retransmit
        → send_again pal t c p op
          ≡ sent_again pal handed_again
              (holding base (repeated m op) again_spare)
              op
              platform_answer_again
    unfolding send_again
    send_again-holding left =
        let moved : IsEncodable (record m { mid = op.mid }) = record {
          type_range = v.type_range;
          code_range = v.code_range;
          mid_range = mid_range;
          token_range = v.token_range;
          token_bytes = v.token_bytes;
          options_sorted = v.options_sorted;
        } in
        let test : ltb op.retries coap_max_retransmit ≡ true = ground arith in
        rw test (
          rw built (
            rw (set_mid-holding base m spare v op.mid mid_range) (
              rw
                (set_token-holding base (record m { mid = op.mid }) spare op.token op.tkl moved
                  tkl_range (omega (arith, length-renumbered m op.mid spare))
                  (omega (arith, length-renumbered m op.mid spare)))
                (rw (send-holding pal base (repeated m op) again_spare c₁)))))

    -- The answer of the platform to a retransmission.
    pub send_again-sent :
        op.retries < coap_max_retransmit
        → let (now, w) = pal.exopal_get_time handed_again.world in
          let (x, w') = pal.rand w in
          send_again pal t c p op
          ≡ ok (
            if platform_answer_again == 0
                then record op {
                  retries = op.retries + 1;
                  timeout = deadline now ((op.retries + 1) * coap_probing_rate) x;
                }
                else op,
            holding base (repeated m op) again_spare,
            record c₁ { world = if platform_answer_again == 0 then w' else handed_again.world },
          )
    unfolding sent_again
    send_again-sent left =
        let count : u8 (op.retries + 1) ≡ op.retries + 1 = omega arith in
        send_again-holding left ∙ rw count (ground arith)
