-- ===== src/Client/Message/Answers.antt =====
-- `exo_build_msg_ack` and `exo_build_msg_rst` of src/exosite.c, the messages without options.
use libexositecoap.Common.{ℕ, ◌+◌, ◌^◌, ◌≤◌, ◌<◌, ◌≡◌, refl, List, [], ◌∷◌, ◌++◌, length, arith, ok}
use libexositecoap.Coap.Pdu.{Pdu, Ptr, ct_ack, ct_rst, cc_empty}
use libexositecoap.Coap.Wire.{
  Message, IsEncodable, reset_message, encode, encode_body, encode_options, encode_payload, holding,
}
use libexositecoap.Coap.Fields.{le_bytes}
use libexositecoap.Coap.Fields.Laws.{
  init_pdu-blank, set_version-holding, set_type-holding, set_code-holding, set_mid-holding,
}
use libexositecoap.Coap.Fields.Token.{set_token-holding, with_token, token_spare}
use libexositecoap.Client.State.{exo_ok}
use libexositecoap.Client.Message.{also, start, exo_build_msg_ack, exo_build_msg_rst}

-- A buffer of at least 4 bytes, with anything in it.
abbrev pub blank : ℕ → ℕ → ℕ → ℕ → ℕ → List ℕ → ℕ → Ptr → Pdu
blank base x y z w spare len opt_ptr = record {
  base = base;
  bytes = x ∷ y ∷ z ∷ w ∷ spare;
  len = len;
  max = length (x ∷ y ∷ z ∷ w ∷ spare);
  opt_ptr = opt_ptr;
}

-- A message of a fixed header only.
abbrev pub headed : ℕ → ℕ → ℕ → Message
headed mtype code mid = record reset_message { mtype = mtype; code = code; mid = mid }

pub headed-IsEncodable :
    (mtype code mid : ℕ)
    → mtype < 4
    → code < 256
    → mid < 65536
    → IsEncodable (headed mtype code mid)
headed-IsEncodable mtype code mid a b c = record {
  type_range = a;
  code_range = b;
  mid_range = c;
  token_range = omega arith;
  token_bytes = tt;
  options_sorted = tt;
}

module _ (base x y z w len : ℕ) (spare : List ℕ) (opt_ptr : Ptr) (mid : ℕ)
    (small : mid < 65536) where
  pub start_lem :
      (mtype code : ℕ)
      → mtype < 4
      → code < 256
      → start (blank base x y z w spare len opt_ptr) mtype code mid
        ≡ ok (0, holding base (headed mtype code mid) spare)
  unfolding start also
  start_lem mtype code a b = rw (
    init_pdu-blank base x y z w len opt_ptr spare,
    set_version-holding base reset_message spare
        (headed-IsEncodable 3 0 0 (omega arith) (omega arith) (omega arith)),
    set_type-holding base reset_message spare
        (headed-IsEncodable 3 0 0 (omega arith) (omega arith) (omega arith)) mtype a,
    set_code-holding base (headed mtype 0 0) spare
        (headed-IsEncodable mtype 0 0 a (omega arith) (omega arith)) code b,
    set_mid-holding base (headed mtype code 0) spare
        (headed-IsEncodable mtype code 0 a b (omega arith)) mid small,
  )

  -- On a buffer of 4 bytes or more `exo_build_msg_ack` of a message id of 16 bits answers EXO_OK and
  -- leaves the empty ACK with that message id.
  pub build_msg_ack-holding :
      exo_build_msg_ack (blank base x y z w spare len opt_ptr) mid
      ≡ ok (exo_ok, holding base (headed ct_ack cc_empty mid) spare)
  unfolding exo_build_msg_ack
  build_msg_ack-holding = rw (start_lem ct_ack cc_empty (omega arith) (omega arith))

  -- On a buffer of less than 2^63 bytes with room for 4 bytes and a token of at most 8,
  -- `exo_build_msg_rst` of a message id of 16 bits answers EXO_OK and leaves the empty RST with that
  -- message id and the low bytes of `token`.
  pub build_msg_rst-holding :
      (token tkl : ℕ)
      → tkl ≤ 8
      → tkl ≤ length spare
      → 4 + length spare < 2 ^ 63
      → exo_build_msg_rst (blank base x y z w spare len opt_ptr) mid token tkl
        ≡ ok (
          exo_ok,
          holding base
              (with_token (headed ct_rst cc_empty mid) (le_bytes tkl token))
              (token_spare (headed ct_rst cc_empty mid) spare tkl),
        )
  unfolding exo_build_msg_rst also
  build_msg_rst-holding token tkl most room top =
      let size : length (encode (headed ct_rst cc_empty mid) ++ spare) ≡ 4 + length spare =
        unfold encode encode_body encode_options encode_payload in omega arith in
      let behind : length
            (encode_options 0 [] ++ encode_payload (headed ct_rst cc_empty mid).payload)
          ≡ 0 =
        unfold encode_options encode_payload in refl in
      rw (
        start_lem ct_rst cc_empty (omega arith) (omega arith),
        set_token-holding base (headed ct_rst cc_empty mid) spare token tkl
            (headed-IsEncodable ct_rst cc_empty mid (omega arith) (omega arith) small) most
            (omega arith) (omega arith),
      )
