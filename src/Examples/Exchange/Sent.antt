-- ===== src/Examples/Exchange/Sent.antt =====
-- A round of picocoap/examples/posix/client.c that gets an answer.
use libexositecoap.Common.{
  ℕ, ◌+◌, ◌/◌, ◌%◌, ◌^◌, ◌≤◌, ◌<◌, ◌≡◌, refl, sym, ap, ◌∙◌, List, [], ◌∷◌, ◌++◌, length, drop,
  length-append, length-drop, ◌==◌, ◌&&◌, if◌then◌else◌, true, u16, arith, ok,
}
use libexositecoap.Memory.{read, write}
use libexositecoap.Memory.Local.{read_prefix, write_front_lem}
use libexositecoap.Coap.Pdu.{Pdu, Ptr, ce_none}
use libexositecoap.Coap.Wire.{Message, IsEncodable, IsOptions, encode, holding}
use libexositecoap.Coap.Fields.{le_value}
use libexositecoap.Coap.Fields.Laws.{get_mid-holding}
use libexositecoap.Coap.Fields.TokenValue.{get_token-holding}
use libexositecoap.Coap.Reader.{coap_validate_pkt}
use libexositecoap.Coap.Reader.Validate.{validate_pkt-message}
use libexositecoap.Client.Message.Answers.{blank}
use libexositecoap.Examples.Print.{Line, valid_packet, type_line, code_line, mid_line, token_line}
use libexositecoap.Examples.Print.Options.{option_lines, payload_lines}
use libexositecoap.Examples.Print.Message.{pretty_print-holding}
use libexositecoap.Examples.Exchange.{
  Net, sent_message, valid_answer, answer_to_last, answer_output, Peer, exchange,
}
use libexositecoap.Examples.Exchange.Built.{
  asked_size, build_get-Filled, asked_message, asked-IsEncodable,
}
use mathlib.Core.Option.{some}

-- The lines that are printed for a message.
abbrev pub printed_lines : Message → List Line
printed_lines m =
    valid_packet (length (encode m))
    ∷ type_line m.mtype
    ∷ code_line (m.code / 32) (m.code % 32)
    ∷ mid_line m.mid
    ∷ token_line (le_value m.token)
    ∷ (option_lines m.options ++ payload_lines m.options m.payload)

module _ (fuel base : ℕ) (m : Message) (rest : List ℕ) (opt_ptr : Ptr) (v : IsEncodable m)
    (positive : IsOptions 1 m.options) (small : length (encode m) < 2 ^ 31)
    (enough : length m.options < fuel) where
  abbrev arrived : Pdu
  arrived = record (holding base m rest) { opt_ptr = opt_ptr }

  validate-arrived : coap_validate_pkt arrived ≡ ok (ce_none, holding base m rest)
  validate-arrived =
      let same : coap_validate_pkt arrived ≡ coap_validate_pkt (holding base m rest) =
        unfold coap_validate_pkt holding in refl in
      same ∙ validate_pkt-message base m rest v (omega arith)

  -- What is printed for it, by whether it belongs to the message that was sent.
  answer_output-holding :
      (sent_base : ℕ) (sent : Message) (spare : List ℕ)
      → IsEncodable sent
      → answer_output fuel (holding sent_base sent spare) arrived
        ≡ ok (
            valid_answer
            ∷ (if m.mid == sent.mid && le_value m.token == le_value sent.token
                then answer_to_last (printed_lines m) ∷ []
                else []))
  unfolding answer_output
  answer_output-holding sent_base sent spare vs = ground (
    arith,
    validate-arrived,
    get_mid-holding base m rest v,
    get_mid-holding sent_base sent spare vs,
    get_token-holding base m rest v,
    get_token-holding sent_base sent spare vs,
    pretty_print-holding base m rest fuel v positive small enough,
  )

answer_received :
    (fuel base : ℕ) (m : Message) (rest : List ℕ) (opt_ptr : Ptr) (max : ℕ)
    → IsEncodable m
    → IsOptions 1 m.options
    → length (encode m) < 2 ^ 31
    → length m.options < fuel
    → max ≡ length (encode m ++ rest)
    → (sent_base : ℕ) (sent : Message) (spare : List ℕ) → IsEncodable sent
    → answer_output fuel (holding sent_base sent spare) (record {
      base = base;
      bytes = encode m ++ rest;
      len = length (encode m);
      max = max;
      opt_ptr = opt_ptr;
    })
      ≡ ok (
          valid_answer
          ∷ (if m.mid == sent.mid && le_value m.token == le_value sent.token
              then answer_to_last (printed_lines m) ∷ []
              else []))
unfolding holding
answer_received fuel base m rest opt_ptr max v positive small enough size sent_base sent spare vs =
    ap
      (λ (k : ℕ). answer_output fuel (holding sent_base sent spare) (record {
        base = base;
        bytes = encode m ++ rest;
        len = length (encode m);
        max = k;
        opt_ptr = opt_ptr;
      }))
      size
    ∙ answer_output-holding fuel base m rest opt_ptr v positive small enough sent_base sent spare vs

read-holding :
    (base : ℕ) (m : Message) (spare : List ℕ)
    → read (holding base m spare).bytes 0 (holding base m spare).len ≡ ok (encode m)
unfolding holding
read-holding base m spare = read_prefix (encode m) spare

-- A datagram that fits goes to the front of the array.
datagram_lem :
    (m : Message) (array : List ℕ)
    → length (encode m) ≤ length array
    → write array 0 (encode m) ≡ ok (encode m ++ drop (length (encode m)) array)
unfolding write
datagram_lem m array fits = write_front_lem array (encode m) fits

module _ {W : Type 0} (net : Net W) (fuel base x y z w len : ℕ) (spare : List ℕ) (opt_ptr : Ptr)
    (counter : ℕ) (in_range : counter < 65536) (top : 4 + length spare < 2 ^ 31)
    (room : 56 ≤ 4 + length spare) (recv_base recv_len : ℕ) (array : List ℕ) (recv_ptr : Ptr)
    (world : W) where
  -- The program at the start of a round.
  abbrev pub peer : Peer W
  peer = record {
    msg_send = blank base x y z w spare len opt_ptr;
    msg_recv = record {
      base = recv_base;
      bytes = array;
      len = recv_len;
      max = length array;
      opt_ptr = recv_ptr;
    };
    message_id_counter = counter;
    world = world;
  }

  abbrev asked : Message
  asked = asked_message counter (net.rand world).0

  abbrev world_sent : W
  world_sent = (net.sendto (encode asked) (net.rand world).1).1

  -- With a send buffer of 56 bytes or more and less than 2^31, if the message is sent and the answer
  -- is an encodable message of less than 2^31 bytes that fits in the receive buffer and has option
  -- numbers above 0, with fuel for its options and for the three of the request, a round goes on to
  -- the next one: it sends the confirmable GET of `1a/temp` with the CIK as the query, prints it,
  -- and says that the answer is valid; it prints the answer if and only if the message ids are the
  -- same and the tokens are, read as numbers with the lowest byte first: the lengths of the tokens
  -- are not compared, so that a token with zeros behind it counts as the same.
  pub exchange-answered :
      (m : Message)
      → IsEncodable m
      → IsOptions 1 m.options
      → length (encode m) < 2 ^ 31
      → length (encode m) ≤ length array
      → length m.options < fuel
      → 3 < fuel
      → (net.sendto (encode asked) (net.rand world).1).0 ≡ true
      → (net.recvfrom (length array) world_sent).0 ≡ some (encode m)
      → (next : Peer W) × (exchange net fuel peer
          ≡ ok (
            sent_message (printed_lines asked)
                ∷ valid_answer
                ∷ (if m.mid == counter && le_value m.token == le_value asked.token
                    then answer_to_last (printed_lines m) ∷ []
                    else []),
            some next,
          ))
  unfolding exchange
  exchange-answered m v positive small fits enough more_fuel was_sent received =
      let (q, built, filled) =
        build_get-Filled base x y z w len spare opt_ptr counter (net.rand world).0 in_range
          (omega arith) room in
      let rest : List ℕ = drop (length (encode m)) array in
      let size : length (encode m ++ rest) ≡ length array =
        omega (arith, length-append (encode m) rest, length-drop (length (encode m)) array) in
      let printed =
        pretty_print-holding base asked filled.spare fuel (asked-IsEncodable counter _ in_range)
          (ground arith)
          (omega (
            arith,
            asked_size base x y z w len spare opt_ptr counter _ in_range (omega arith) room,
          ))
          (omega arith) in
      let answer =
        answer_received fuel recv_base m rest recv_ptr (length array) v positive small enough
          (sym size) base asked filled.spare (asked-IsEncodable counter _ in_range) in
      (
        record {
          msg_send = holding base asked filled.spare;
          msg_recv = record {
            base = recv_base;
            bytes = encode m ++ rest;
            len = length (encode m);
            max = length array;
            opt_ptr = recv_ptr;
          };
          message_id_counter = u16 (counter + 1);
          world = (net.recvfrom (length array) world_sent).1;
        },
        rw (built ∙ ap (λ (t : Pdu). ok t) filled.shape) (
            rw (read-holding base asked filled.spare) (
              rw was_sent
                (rw printed (rw received (rw (datagram_lem m array fits) (rw answer refl)))))),
      )
