-- ===== src/Client/Receive/Rejected.antt =====
-- A message that no operation takes, in `exo_process_waiting_datagrams` of src/exosite.c.
use libexositecoap.Common.{
  ℕ, ◌+◌, ◌*◌, ◌/◌, ◌%◌, ◌^◌, ◌<◌, ◌≡◌, refl, ap, ◌∙◌, List, [], ◌∷◌, All, ◌++◌, length, ◌==◌,
  if◌then◌else◌, length-append, arith, ok,
}
use libexositecoap.Common.Bytes.{IsByte}
use libexositecoap.Coap.Pdu.{null, ct_con, ct_rst, cc_empty}
use libexositecoap.Coap.Wire.{
  Message, IsEncodable, encode, encode_body, encode_options, encode_payload, holding,
}
use libexositecoap.Coap.Fields.{le_bytes, le_value}
use libexositecoap.Coap.Fields.Laws.{get_mid-holding, get_tkl-holding}
use libexositecoap.Coap.Fields.Token.{with_token, token_spare}
use libexositecoap.Coap.Fields.TokenValue.{get_token-holding}
use libexositecoap.Pal.{Pal}
use libexositecoap.Client.State.{Client, exo_ok}
use libexositecoap.Client.Message.{exo_build_msg_rst}
use libexositecoap.Client.Message.Answers.{headed, build_msg_rst-holding}
use libexositecoap.Client.Send.Wire.{send-holding}
use libexositecoap.Client.Receive.{reject}

-- The bytes of a number that bytes make are these bytes.
le_bytes-le_value : (bs : List ℕ) → All IsByte bs → le_bytes (length bs) (le_value bs) ≡ bs
unfolding le_bytes le_value
le_bytes-le_value [] h = refl
le_bytes-le_value (b ∷ bs) (byte, others) =
    let low : (b + 256 * le_value bs) % 256 ≡ b = omega arith in
    let high : (b + 256 * le_value bs) / 256 ≡ le_value bs = omega arith in
    rw (low, high, le_bytes-le_value bs others)

-- The reset of a message.
abbrev pub reset_of : Message → Message
reset_of m = with_token (headed ct_rst cc_empty m.mid) m.token

module _ {W : Type 0} (pal : Pal W) (c : Client W) (base : ℕ) (m : Message) (spare : List ℕ)
    (v : IsEncodable m) (top : length (encode m ++ spare) < 2 ^ 63) where
  abbrev behind : List ℕ
  behind = encode_body m.token m.options m.payload ++ spare

  built :
      exo_build_msg_rst (holding base m spare) m.mid (le_value m.token) (length m.token)
      ≡ ok (
        exo_ok,
        holding base
            (reset_of m)
            (token_spare (headed ct_rst cc_empty m.mid) behind (length m.token)),
      )
  unfolding holding encode
  built =
      let rest : List ℕ = encode_options 0 m.options ++ encode_payload m.payload in
      let size : length behind ≡ length m.token + length rest + length spare =
        unfold encode_body in
        omega (arith, length-append (m.token ++ rest) spare, length-append m.token rest) in
      let token = le_bytes-le_value m.token v.token_bytes in
      build_msg_rst-holding base (64 + m.mtype * 16 + length m.token) m.code (m.mid / 256)
        (m.mid % 256) (length (encode m)) behind null m.mid v.mid_range (le_value m.token)
        (length m.token) v.token_range (omega arith) (omega arith)
      ∙ ap
          (λ (t : List ℕ). ok (
            exo_ok,
            holding base (with_token (headed ct_rst cc_empty m.mid) t)
                (token_spare (headed ct_rst cc_empty m.mid) behind (length m.token)),
          ))
          token

  -- An encodable confirmable message that no operation takes is answered by the empty RST with its id
  -- and its token, whatever the platform says to that; another message is dropped. The buffer is of
  -- less than 2^63 bytes, and the client is otherwise what it was.
  pub reject-holding :
      reject pal m.mtype (holding base m spare) c
      ≡ ok (record c {
        world =
            if m.mtype == ct_con
            then (pal.exopal_udp_send (encode (reset_of m)) c.world).1
            else c.world;
      })
  unfolding reject
  reject-holding = ground (
    arith,
    get_mid-holding base m spare v,
    get_token-holding base m spare v,
    get_tkl-holding base m spare v,
    built,
    send-holding pal base (reset_of m)
        (token_spare (headed ct_rst cc_empty m.mid) behind (length m.token)) c,
  )
