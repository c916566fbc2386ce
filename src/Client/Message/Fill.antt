-- ===== src/Client/Message/Fill.antt =====
-- The steps of the builders of src/exosite.c on a buffer that holds a part of the message.
use libexositecoap.Common.{
  ℕ, ◌+◌, ◌-◌, ◌^◌, ◌≤◌, ◌<◌, ◌≡◌, refl, sym, ap, ◌∙◌, List, [], ◌∷◌, ◌++◌, length, All, leb, true,
  append-nil, length-append, length-drop, drop, arith, ok, suc, u16,
}
use libexositecoap.Coap.Pdu.{Pdu}
use libexositecoap.Coap.Wire.{
  Opt, Message, IsEncodable, encode, encode_body, encode_options, encode_payload, holding,
}
use libexositecoap.Coap.Fields.{coap_set_token, le_bytes}
use libexositecoap.Coap.Fields.Token.{with_token, token_spare, set_token-holding}
use libexositecoap.Coap.Fields.TokenValue.{le_bytes-IsByte, length-le_bytes}
use libexositecoap.Coap.Writer.{coap_add_option, coap_set_payload}
use libexositecoap.Coap.Writer.AddOption.{added, add_option-holding}
use libexositecoap.Coap.Writer.Insert.{with_option, encode-with_option}
use libexositecoap.Coap.Writer.Append.{add_option-append, with_option-IsEncodable}
use libexositecoap.Coap.Writer.SetPayload.{with_payload, set_payload-holding, encode-with_payload}
use libexositecoap.Client.Message.{also, add_string}
use libexositecoap.Client.Message.Answers.{headed, headed-IsEncodable}
use mathlib.Core.Option.{none}

-- A buffer of `n` bytes at `base` that holds the message.
pub record Filled (base n : ℕ) (m : Message) (p : Pdu) : Type 0 where
  pub spare : List ℕ
  pub shape : p ≡ holding base m spare
  pub size : length (encode m ++ spare) ≡ n

-- The message may get more options: it is encodable and has no payload.
pub record IsOpen (m : Message) : Type 0 where
  pub valid : IsEncodable m
  pub no_payload : m.payload ≡ none

-- The length of a message with one more option.
pub length-with_option :
    (m : Message) (o : Opt)
    → m.payload ≡ none
    → length (encode (with_option m o)) ≡ length (encode m) + length (added m o)
length-with_option m o no_payload =
    ap (length {A = ℕ}) (encode-with_option m o no_payload) ∙ length-append (encode m) (added m o)

pub length-with_payload :
    (m : Message) (text : List ℕ)
    → m.payload ≡ none
    → length (encode (with_payload m text)) ≡ length (encode m) + suc (length text)
length-with_payload m text no_payload =
    ap (length {A = ℕ}) (encode-with_payload m text no_payload)
    ∙ length-append (encode m) (0xff ∷ text)

pub length-headed :
    (mtype code mid : ℕ) (spare : List ℕ)
    → length (encode (headed mtype code mid) ++ spare) ≡ 4 + length spare
unfolding encode encode_body encode_options encode_payload
length-headed mtype code mid spare = omega arith

length-tokened :
    (mtype code mid : ℕ) (token spare : List ℕ)
    → length (encode (with_token (headed mtype code mid) token) ++ spare)
      ≡ 4 + length token + length spare
unfolding encode encode_body encode_options encode_payload
length-tokened mtype code mid token spare =
    omega (arith, length-append (token ++ []) spare, length-append {A = ℕ} token [])

length-token_spare :
    (mtype code mid : ℕ) (spare : List ℕ)
    → length (token_spare (headed mtype code mid) spare 2) ≡ length spare - 2
unfolding encode_options encode_payload
length-token_spare mtype code mid spare = length-drop 2 spare

pub length-encode-tokened :
    (mtype code mid token : ℕ)
    → length (encode (with_token (headed mtype code mid) (le_bytes 2 token))) ≡ 6
length-encode-tokened mtype code mid token = omega (
  arith,
  length-tokened mtype code mid (le_bytes 2 token) [],
  length-append (encode (with_token (headed mtype code mid) (le_bytes 2 token))) [],
  length-le_bytes 2 token,
)

pub tokened-IsOpen :
    (mtype code mid token : ℕ)
    → mtype < 4
    → code < 256
    → mid < 65536
    → IsOpen (with_token (headed mtype code mid) (le_bytes 2 token))
tokened-IsOpen mtype code mid token a b c = record {
  valid = record {
    type_range = a;
    code_range = b;
    mid_range = c;
    token_range = omega (arith, length-le_bytes 2 token);
    token_bytes = le_bytes-IsByte 2 token;
    options_sorted = tt;
  };
  no_payload = refl;
}

module _ (base n : ℕ) (top : n < 2 ^ 63) where
  -- The token of two bytes goes into a message of a fixed header.
  pub token_step :
      (mtype code mid token : ℕ) (p : Pdu)
      → mtype < 4
      → code < 256
      → mid < 65536
      → 6 ≤ n
      → Filled base n (headed mtype code mid) p
      → (q : Pdu) × (also (0, p) (λ r. coap_set_token r token 2) ≡ ok (0, q))
        × Filled base n (with_token (headed mtype code mid) (le_bytes 2 token)) q
  unfolding also
  token_step mtype code mid token p a b c room f =
      let m : Message = headed mtype code mid in
      let total : length (encode m ++ f.spare) ≡ 4 + length f.spare =
        length-headed mtype code mid f.spare in
      let all = f.size in
      let empty : length (encode_options 0 [] ++ encode_payload m.payload) ≡ 0 =
        unfold encode_options encode_payload in refl in
      let left : List ℕ = token_spare m f.spare 2 in
      (
        holding base (with_token m (le_bytes 2 token)) left,
        rw (
          f.shape,
          set_token-holding base m f.spare token 2 (headed-IsEncodable mtype code mid a b c)
              (omega arith) (omega arith) (omega arith),
        ),
        record {
          spare = left;
          shape = refl;
          size = omega (
            arith,
            length-tokened mtype code mid (le_bytes 2 token) left,
            length-le_bytes 2 token,
            length-token_spare mtype code mid f.spare,
          );
        },
      )

  -- One more option, whose value may stand in front of other bytes.
  pub option_step :
      (m : Message) (p : Pdu) (o : Opt) (value rest : List ℕ) (len : ℕ)
      → value ≡ o.val ++ rest
      → len ≡ length o.val
      → IsOpen m
      → Filled base n m p
      → All (λ (q : Opt). leb q.num o.num ≡ true) m.options
      → o.num < 65536
      → length o.val < 65536
      → length (encode (with_option m o)) ≤ n
      → (q : Pdu) × (also (0, p) (λ r. coap_add_option r o.num value len) ≡ ok (0, q))
        × Filled base n (with_option m o) q
        × IsOpen (with_option m o)
  unfolding also
  option_step m p o value rest len ev el v f below rn rl fits =
      let grown = length-with_option m o v.no_payload in
      let split : length (encode m ++ f.spare) ≡ length (encode m) + length f.spare =
        length-append (encode m) f.spare in
      let left : List ℕ = drop (length (added m o)) f.spare in
      let sum = f.size in
      (
        holding base (with_option m o) left,
        rw (
          ev,
          el,
          f.shape,
          add_option-append (holding base m f.spare) o.num o.val rest,
          add_option-holding base m f.spare o v.valid v.no_payload below (omega arith) rn rl
              (omega arith),
        ),
        record {
          spare = left;
          shape = refl;
          size = omega (
            arith,
            length-append (encode (with_option m o)) left,
            length-drop (length (added m o)) f.spare,
          );
        },
        record {
          valid = with_option-IsEncodable m o v.valid below rn rl;
          no_payload = v.no_payload;
        },
      )

  pub string_step :
      (m : Message) (p : Pdu) (o : Opt)
      → IsOpen m
      → Filled base n m p
      → All (λ (q : Opt). leb q.num o.num ≡ true) m.options
      → o.num < 65536
      → length o.val < 65536
      → length (encode (with_option m o)) ≤ n
      → (q : Pdu) × (also (0, p) (add_string o.num o.val) ≡ ok (0, q))
        × Filled base n (with_option m o) q
        × IsOpen (with_option m o)
  unfolding add_string
  string_step m p o v f below rn rl fits =
      option_step m p o o.val [] (u16 (length o.val)) (sym (append-nil o.val)) (omega arith) v f
        below rn rl fits

  pub payload_step :
      (m : Message) (p : Pdu) (text : List ℕ)
      → IsOpen m
      → Filled base n m p
      → length (encode (with_payload m text)) ≤ n
      → (q : Pdu) × (also (0, p) (λ r. coap_set_payload r text (length text)) ≡ ok (0, q))
        × Filled base n (with_payload m text) q
  unfolding also
  payload_step m p text v f fits =
      let grown = length-with_payload m text v.no_payload in
      let split : length (encode m ++ f.spare) ≡ length (encode m) + length f.spare =
        length-append (encode m) f.spare in
      let left : List ℕ = drop (suc (length text)) f.spare in
      let sum = f.size in
      (
        holding base (with_payload m text) left,
        rw (
          f.shape,
          set_payload-holding base m text v.valid v.no_payload (omega arith) f.spare (omega arith),
        ),
        record {
          spare = left;
          shape = refl;
          size = omega (
            arith,
            length-append (encode (with_payload m text)) left,
            length-drop (suc (length text)) f.spare,
          );
        },
      )
