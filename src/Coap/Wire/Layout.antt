-- ===== src/Coap/Wire/Layout.antt =====
-- Where the parts of an encoded message lie, and what `coap_decode_option` yields at each.
use libexositecoap.Common.{
  ℕ, suc, ◌+◌, ◌-◌, ◌*◌, ◌/◌, ◌%◌, ◌≤◌, ◌<◌, ◌≡◌, refl, sym, ap, ◌∙◌, List, [], ◌∷◌, ◌++◌, length,
  length-append, append_assoc, arith, ok,
}
use libexositecoap.Memory.{read}
use libexositecoap.Memory.Local.{read_here}
use libexositecoap.Coap.Pdu.{CoapError, ce_none, ce_found_payload_marker, ce_end_of_packet}
use libexositecoap.Coap.Wire.{
  Opt, Message, IsOptions, option_header, encode_options, encode_payload, encode_body, encode,
  holding,
}
use libexositecoap.Coap.Header.{OptVars, coap_decode_option}
use libexositecoap.Coap.Header.Decode.{
  decode_option-header, decode_option_end, decode_option_marker,
}
use libexositecoap.Coap.Header.Build.{option_header_bounds}
use mathlib.Core.Option.{Option, some, none}

-- One option, header and value, behind the option number `last`.
unfoldable pub encode_option : ℕ → Opt → List ℕ
encode_option last o = option_header (o.num - last) (length o.val) ++ o.val

pub length-encode_option :
    (last : ℕ) (o : Opt)
    → length (encode_option last o)
      ≡ length (option_header (o.num - last) (length o.val)) + length o.val
unfolding encode_option
length-encode_option last o = length-append (option_header (o.num - last) (length o.val)) o.val

pub encode_options-cons :
    (last : ℕ) (o : Opt) (os : List Opt)
    → encode_options last (o ∷ os) ≡ encode_option last o ++ encode_options o.num os
unfolding encode_options encode_option
encode_options-cons last o os =
    sym (append_assoc (option_header (o.num - last) (length o.val)) o.val (encode_options o.num os))

pub length-encode_options-cons :
    (last : ℕ) (o : Opt) (os : List Opt)
    → length (encode_options last (o ∷ os))
      ≡ length (encode_option last o) + length (encode_options o.num os)
length-encode_options-cons last o os =
    ap (length {A = ℕ}) (encode_options-cons last o os)
    ∙ length-append (encode_option last o) (encode_options o.num os)

-- The bytes before an option's successors, as a prefix of the buffer.
pub past_option :
    (pre : List ℕ) (last : ℕ) (o : Opt) (os : List Opt) (tail : List ℕ)
    → pre ++ (encode_options last (o ∷ os) ++ tail)
      ≡ (pre ++ encode_option last o) ++ (encode_options o.num os ++ tail)
past_option pre last o os tail =
    ap (λ (t : List ℕ). pre ++ (t ++ tail)) (encode_options-cons last o os)
    ∙ ap (λ (t : List ℕ). pre ++ t)
        (append_assoc (encode_option last o) (encode_options o.num os) tail)
    ∙ sym (append_assoc pre (encode_option last o) (encode_options o.num os ++ tail))

-- Every option takes a byte at least.
pub length-le-encode_options :
    (last : ℕ) (os : List Opt) → length os ≤ length (encode_options last os)
length-le-encode_options last [] = omega arith
length-le-encode_options last (o ∷ os) = omega (
  arith,
  length-encode_options-cons last o os,
  length-encode_option last o,
  option_header_bounds (o.num - last) (length o.val),
  length-le-encode_options o.num os,
)

-- At an option.
pub decode_option-option :
    (pre : List ℕ) (last : ℕ) (o : Opt) (os : List Opt) (tail : List ℕ) (ptr pkt_len : ℕ)
    (vars : OptVars)
    → ptr ≡ length pre
    → 0 < pkt_len
    → IsOptions last (o ∷ os)
    → coap_decode_option (pre ++ (encode_options last (o ∷ os) ++ tail)) ptr pkt_len vars
      ≡ ok (
        ce_none,
        record {
          num = (vars.num + (o.num - last)) % 65536;
          len = length o.val;
          val = ptr + length (option_header (o.num - last) (length o.val));
        },
      )
unfolding encode_options
decode_option-option pre last o os tail ptr pkt_len vars here some_left sorted =
    rw
      (append_assoc (option_header (o.num - last) (length o.val)) (o.val ++ encode_options o.num os)
        tail)
      (decode_option-header pre ((o.val ++ encode_options o.num os) ++ tail) ptr pkt_len
        (o.num - last) (length o.val) vars here some_left (omega arith) (omega arith))

-- Its value stands behind its header.
pub read_value :
    (pre : List ℕ) (last : ℕ) (o : Opt) (os : List Opt) (tail : List ℕ) (i : ℕ)
    → i ≡ length pre + length (option_header (o.num - last) (length o.val))
    → read (pre ++ (encode_options last (o ∷ os) ++ tail)) i (length o.val) ≡ ok o.val
unfolding encode_options
read_value pre last o os tail i here =
    let head : List ℕ = option_header (o.num - last) (length o.val) in
    let rest : List ℕ = encode_options o.num os in
    let shape : pre ++ ((head ++ (o.val ++ rest)) ++ tail)
        ≡ (pre ++ head) ++ (o.val ++ (rest ++ tail)) =
      simp append_assoc in
    rw shape (read_here (pre ++ head) i (here ∙ sym (length-append pre head)) o.val (rest ++ tail))

-- What ends the options of a message.
unfoldable pub end_error : Option (List ℕ) → CoapError
end_error none = ce_end_of_packet
end_error (some v) = ce_found_payload_marker

pub decode_option-payload :
    (pre : List ℕ) (pl : Option (List ℕ)) (spare : List ℕ) (ptr : ℕ) (vars : OptVars)
    → ptr ≡ length pre
    → coap_decode_option (pre ++ (encode_payload pl ++ spare)) ptr (length (encode_payload pl)) vars
      ≡ ok (end_error pl, vars)
unfolding encode_payload end_error
decode_option-payload pre none spare ptr vars here = decode_option_end (pre ++ spare) ptr vars
decode_option-payload pre (some v) spare ptr vars here =
    decode_option_marker pre (v ++ spare) ptr (suc (length v)) vars here (omega arith)

-- The fixed header and the token, in front of the options.
unfoldable pub preamble : Message → List ℕ
unfolding encode
preamble m = (64 + m.mtype * 16 + length m.token) ∷ m.code ∷ (m.mid / 256) ∷ (m.mid % 256) ∷ m.token

pub length-preamble : (m : Message) → length (preamble m) ≡ 4 + length m.token
unfolding preamble
length-preamble m = omega arith

pub encode-preamble :
    (m : Message) (spare : List ℕ)
    → encode m ++ spare
      ≡ preamble m ++ (encode_options 0 m.options ++ (encode_payload m.payload ++ spare))
unfolding encode encode_body preamble
encode-preamble m spare =
    ap
      (λ (t : List ℕ).
        (64 + m.mtype * 16 + length m.token) ∷ m.code ∷ (m.mid / 256) ∷ (m.mid % 256) ∷ t)
      (append_assoc m.token (encode_options 0 m.options ++ encode_payload m.payload) spare
        ∙ ap (λ (t : List ℕ). m.token ++ t)
            (append_assoc (encode_options 0 m.options) (encode_payload m.payload) spare))

pub length-encode :
    (m : Message)
    → length (encode m)
      ≡ length (preamble m)
        + length (encode_options 0 m.options)
        + length (encode_payload m.payload)
unfolding encode encode_body preamble
length-encode m = omega (
  arith,
  length-append m.token (encode_options 0 m.options ++ encode_payload m.payload),
  length-append (encode_options 0 m.options) (encode_payload m.payload),
)

-- The buffer that holds a message, by its parts.
pub holding-bytes :
    (base : ℕ) (m : Message) (spare : List ℕ)
    → (holding base m spare).bytes
      ≡ preamble m ++ (encode_options 0 m.options ++ (encode_payload m.payload ++ spare))
unfolding holding
holding-bytes base m spare = encode-preamble m spare

pub holding-len :
    (base : ℕ) (m : Message) (spare : List ℕ) → (holding base m spare).len ≡ length (encode m)
unfolding holding
holding-len base m spare = refl
