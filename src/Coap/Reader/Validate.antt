-- ===== src/Coap/Reader/Validate.antt =====
-- `coap_validate_pkt` of picocoap/src/coap.c.
use libexositecoap.Common.{
  ℕ, suc, ◌∙◌, ◌+◌, ◌*◌, ◌^◌, ◌≤◌, ◌<◌, ◌≡◌, refl, sym, ap, List, [], ◌∷◌, ◌++◌, length,
  length-append, arith, ok, sub64,
}
use libexositecoap.Common.Bytes.{low_nibble}
use libexositecoap.Coap.Pdu.{
  Pdu, CoapError, null, ce_none, ce_found_payload_marker, ce_end_of_packet,
}
use libexositecoap.Coap.Wire.{
  Opt, Message, IsEncodable, IsOptions, encode_options, encode_payload, encode, holding,
}
use libexositecoap.Coap.Wire.Layout.{
  length-le-encode_options, decode_option-option, preamble, length-preamble, length-encode,
  holding-bytes,
}
use libexositecoap.Coap.Fields.{coap_get_version, coap_get_tkl}
use libexositecoap.Coap.Fields.Laws.{get_tkl-holding, get_version-holding}
use libexositecoap.Coap.Header.{OptVars, coap_decode_option}
use libexositecoap.Coap.Header.Decode.{decode_option_end, decode_option_marker}
use libexositecoap.Coap.Reader.{validate_end, validate_options, coap_validate_pkt}
use mathlib.Core.Option.{Option, some, none}

-- If `coap_validate_pkt` accepts a packet, it has a whole fixed header, it lies in the buffer, its
-- version is 1 and its token length is at most 8; and the call changed `opt_ptr` only.
pub validate_pkt_accepts :
    (p q : Pdu)
    → coap_validate_pkt p ≡ ok (ce_none, q)
    → (q ≡ record p { opt_ptr = null })
      × (4 ≤ p.len)
      × (p.len ≤ p.max)
      × (coap_get_version p ≡ ok 1)
      × ((tkl : ℕ) → coap_get_tkl p ≡ ok tkl → tkl ≤ 8)
unfolding coap_validate_pkt coap_get_version coap_get_tkl
validate_pkt_accepts p q e = ground arith

-- Behind a fixed header that is right, the answer is that of the first option.
validate_pkt-holding :
    (base : ℕ) (m : Message) (spare : List ℕ) (o : OptVars) (err : CoapError)
    → IsEncodable m
    → length (encode m) < 2 ^ 64
    → coap_decode_option
        (holding base m spare).bytes
        (4 + length m.token)
        (sub64 (length (encode m)) (4 + length m.token))
        (record { num = 0; len = 0; val = 4 + length m.token })
      ≡ ok (err, o)
    → coap_validate_pkt (holding base m spare)
      ≡ ok (validate_end (length (encode m)) err (o.val + o.len), holding base m spare)
unfolding coap_validate_pkt validate_options holding
validate_pkt-holding base m spare o err v small e = ground (
  arith,
  get_version-holding base m spare v,
  get_tkl-holding base m spare v,
  e,
  v.token_range,
  length-append (encode m) spare,
  length-encode m,
  length-preamble m,
)

-- The first thing behind the token of a message, an option or the end of the options, is accepted.
first_accepted :
    (pre : List ℕ) (os : List Opt) (pl : Option (List ℕ)) (spare : List ℕ) (len start : ℕ)
    → start ≡ length pre
    → len ≡ length pre + length (encode_options 0 os) + length (encode_payload pl)
    → len < 2 ^ 64
    → IsOptions 0 os
    → (err : CoapError) × (o : OptVars) × (coap_decode_option
          (pre ++ (encode_options 0 os ++ (encode_payload pl ++ spare)))
          start
          (sub64 len start)
          (record { num = 0; len = 0; val = start })
        ≡ ok (err, o))
      × (validate_end len err (o.val + o.len) ≡ ce_none)
unfolding encode_options validate_end
first_accepted pre [] none spare len start here whole small sorted =
    let vars : OptVars = record { num = 0; len = 0; val = start } in
    let left : sub64 len start ≡ 0 = unfold encode_payload in omega arith in
    (
      ce_end_of_packet,
      vars,
      rw left (unfold encode_payload in decode_option_end (pre ++ spare) start vars),
      refl,
    )
first_accepted pre [] (some v) spare len start here whole small sorted =
    let vars : OptVars = record { num = 0; len = 0; val = start } in
    let left : sub64 len start ≡ suc (length v) = unfold encode_payload in omega arith in
    let size : len ≡ suc (length pre + length v) = unfold encode_payload in omega arith in
    (
      ce_found_payload_marker,
      vars,
      rw left (
          unfold encode_payload in
          decode_option_marker pre (v ++ spare) start (suc (length v)) vars here (omega arith)),
      ground arith,
    )
first_accepted pre (o ∷ os) pl spare len start here whole small sorted =
    let vars : OptVars = record { num = 0; len = 0; val = start } in
    (
      ce_none,
      _,
      decode_option-option pre 0 o os (encode_payload pl ++ spare) start (sub64 len start) vars here
          (omega (arith, length-le-encode_options 0 (o ∷ os))) sorted,
      refl,
    )

-- Every encodable message of less than 2^64 bytes is accepted, whatever bytes stand behind it, and
-- nothing changes. This takes in the messages that end in a payload marker with no payload behind
-- it, which RFC 7252 (section 3) calls malformed and the code means to reject.
pub validate_pkt-message :
    (base : ℕ) (m : Message) (spare : List ℕ)
    → IsEncodable m
    → length (encode m) < 2 ^ 64
    → coap_validate_pkt (holding base m spare) ≡ ok (ce_none, holding base m spare)
validate_pkt-message base m spare v small =
    let (err, o, got, accepted) =
      first_accepted (preamble m) m.options m.payload spare (length (encode m)) (4 + length m.token)
        (sym (length-preamble m)) (length-encode m) small v.options_sorted in
    validate_pkt-holding base m spare o err v small (rw (holding-bytes base m spare) got)
    ∙ ap (λ (e : CoapError). ok (e, holding base m spare)) accepted

-- Nothing behind the header of the first option is looked at: behind the fixed header and the
-- token of an encodable message and one option, any bytes are accepted, up to 2^64 in all.
pub validate_pkt_first_only :
    (base : ℕ) (m : Message) (o : Opt) (rest : List ℕ)
    → IsEncodable m
    → IsOptions 0 (o ∷ [])
    → length (preamble m ++ (encode_options 0 (o ∷ []) ++ rest)) < 2 ^ 64
    → let p : Pdu = record {
      base = base;
      bytes = preamble m ++ (encode_options 0 (o ∷ []) ++ rest);
      len = length (preamble m ++ (encode_options 0 (o ∷ []) ++ rest));
      max = length (preamble m ++ (encode_options 0 (o ∷ []) ++ rest));
      opt_ptr = null;
    } in
      coap_validate_pkt p ≡ ok (ce_none, p)
unfolding coap_validate_pkt validate_options validate_end coap_get_version coap_get_tkl preamble
validate_pkt_first_only base m o rest v sorted small =
    let start : ℕ = 4 + length m.token in
    let all : List ℕ = encode_options 0 (o ∷ []) ++ rest in
    ground (
      arith,
      low_nibble (64 + m.mtype * 16 + length m.token),
      v.type_range,
      v.token_range,
      length-append (preamble m) all,
      length-append (encode_options 0 (o ∷ [])) rest,
      length-preamble m,
      length-le-encode_options 0 (o ∷ []),
      decode_option-option (preamble m) 0 o [] rest start (sub64 (length (preamble m ++ all)) start)
          (record { num = 0; len = 0; val = start }) (sym (length-preamble m)),
    )
