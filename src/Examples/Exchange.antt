-- ===== src/Examples/Exchange.antt =====
-- `main` of picocoap/examples/posix/client.c from the first round of its endless loop on; the socket
-- is the record `Net`.
pub mod Built
pub mod Sent
use libexositecoap.Common.{
  ℕ, ◌+◌, List, [], ◌∷◌, ◌++◌, Bool, true, false, ◌&&◌, length, ◌==◌, if◌then◌else◌, u16, Exec, ok,
  ◌>>=◌,
}
use libexositecoap.Memory.{read, write}
use libexositecoap.Coap.Pdu.{
  Pdu, coap_v1, ct_con, cc_get, con_uri_path, con_uri_query, CoapError, ce_none,
}
use libexositecoap.Coap.Fields.{
  coap_init_pdu, coap_set_version, coap_set_type, coap_set_code, coap_set_mid, coap_set_token,
  coap_get_mid, coap_get_token,
}
use libexositecoap.Coap.Reader.{coap_validate_pkt}
use libexositecoap.Coap.Writer.{coap_add_option}
use libexositecoap.Client.Message.{str_1a}
use libexositecoap.Examples.Print.{Line, coap_pretty_print, hex_dump}
use mathlib.Core.Option.{Option, none, some}

abbrev pub temp : List ℕ
temp = b't' ∷ b'e' ∷ b'm' ∷ b'p' ∷ []

abbrev pub cik_text : List ℕ
cik_text =
    b'a' ∷ b'3' ∷ b'2' ∷ b'c' ∷ b'8' ∷ b'5' ∷ b'b' ∷ b'a' ∷ b'9' ∷ b'd' ∷ b'd' ∷ b'a' ∷ b'4' ∷ b'5'
    ∷ b'8' ∷ b'2' ∷ b'3' ∷ b'b' ∷ b'e' ∷ b'4' ∷ b'1' ∷ b'6' ∷ b'2' ∷ b'4' ∷ b'6' ∷ b'c' ∷ b'f'
    ∷ b'8' ∷ b'b' ∷ b'4' ∷ b'3' ∷ b'3' ∷ b'b' ∷ b'a' ∷ b'a' ∷ b'0' ∷ b'6' ∷ b'8' ∷ b'd' ∷ b'7' ∷ []

-- What the functions of the system return: whether the message was sent, a datagram for a buffer of
-- the given size or an error, and a random number.
pub record Net (W : Type 0) : Type 0 where
  pub sendto : List ℕ → W → Bool × W
  pub recvfrom : ℕ → W → Option (List ℕ) × W
  pub rand : W → ℕ × W

-- What a round prints.
pub data Output : Type 0 where
  sent_message : List Line → Output
  valid_answer : Output
  answer_to_last : List Line → Output
  not_coap : ℕ → List Line → Output

-- The calls that build the message; their errors are not looked at.
unfoldable pub build_get : Pdu → ℕ → ℕ → Exec Pdu
build_get msg mid token = do
  (_, p₁) ← coap_init_pdu msg
  (_, p₂) ← coap_set_version p₁ coap_v1
  (_, p₃) ← coap_set_type p₂ ct_con
  (_, p₄) ← coap_set_code p₃ cc_get
  (_, p₅) ← coap_set_mid p₄ mid
  (_, p₆) ← coap_set_token p₅ token 2
  (_, p₇) ← coap_add_option p₆ con_uri_path str_1a 2
  (_, p₈) ← coap_add_option p₇ con_uri_path temp 4
  (_, p₉) ← coap_add_option p₈ con_uri_query cik_text 40
  ok p₉

-- What is printed for a datagram in the buffer; `fuel` is that of the loops over the options.
unfoldable pub answer_output : ℕ → Pdu → Pdu → Exec (List Output)
answer_output fuel msg_send msg_recv = do
  (err, q) ← coap_validate_pkt msg_recv
  elim err [
    | ce_none ↦ do
      mid ← coap_get_mid q
      mid_sent ← coap_get_mid msg_send
      token ← coap_get_token q
      token_sent ← coap_get_token msg_send
      if mid == mid_sent && token == token_sent
          then (do lines ← coap_pretty_print fuel q; ok (valid_answer ∷ answer_to_last lines ∷ []))
          else ok (valid_answer ∷ [])
    | _ ↦ do rows ← hex_dump q.bytes q.len; ok (not_coap q.len rows ∷ [])
  ]

-- The variables of the loop.
pub record Peer (W : Type 0) : Type 0 where
  pub msg_send : Pdu
  pub msg_recv : Pdu
  pub message_id_counter : ℕ
  pub world : W

module _ {W : Type 0} (net : Net W) where
  open net use {sendto, recvfrom, rand}

  -- A round; none if the program ends.
  unfoldable pub exchange : ℕ → Peer W → Exec (List Output × Option (Peer W))
  unfolding build_get answer_output
  exchange fuel s = do
    let (token, w₁) = rand s.world
    msg ← build_get s.msg_send s.message_id_counter token
    bytes ← read msg.bytes 0 msg.len
    let (was_sent, w₂) = sendto bytes w₁
    if was_sent
        then (do
          lines ← coap_pretty_print fuel msg
          let (datagram, w₃) = recvfrom s.msg_recv.max w₂
          elim datagram [
            | none ↦ ok (sent_message lines ∷ [], none)
            | some received ↦ do
              bs ← write s.msg_recv.bytes 0 received
              let msg_recv = record s.msg_recv { bytes = bs; len = length received }
              output ← answer_output fuel msg msg_recv
              ok (
                sent_message lines ∷ output,
                some (record {
                  msg_send = msg;
                  msg_recv = msg_recv;
                  message_id_counter = u16 (s.message_id_counter + 1);
                  world = w₃;
                }),
              )
          ])
        else ok ([], none)
