-- ===== src/Tests/Samples.antt =====
-- A message, its buffer, a platform and operations for the runs.
use libexositecoap.Common.{ℕ, ◌≡◌, refl, List, [], ◌∷◌, length, arith}
use libexositecoap.Coap.Wire.{
  Opt, Message, IsEncodable, nibble, extension, option_header, encode_options, encode_payload,
  encode_body, encode,
}
use mathlib.Core.Option.{some, none}

-- Two Uri-Path options and a Max-Age option; the second value is long enough for an extension.
abbrev pub options_of_sample : List Opt
options_of_sample =
    (record { num = 11; val = 0x31 ∷ 0x61 ∷ [] })
    ∷ (record {
      num = 11;
      val =
          b'a' ∷ b'b' ∷ b'c' ∷ b'd' ∷ b'e' ∷ b'f' ∷ b'g' ∷ b'h' ∷ b'i' ∷ b'j' ∷ b'k' ∷ b'l' ∷ b'm'
          ∷ b'n' ∷ [];
    })
    ∷ (record { num = 14; val = 60 ∷ [] })
    ∷ []

-- An answer 2.05 Content of type ACK.
abbrev pub sample : Message
sample = record {
  mtype = 2;
  code = 69;
  mid = 0x1234;
  token = 0xab ∷ 0xcd ∷ [];
  options = options_of_sample;
  payload = some (b'4' ∷ b'2' ∷ []);
}

-- The same without a payload.
abbrev pub bare : Message
bare = record sample { payload = none }

pub sample-IsEncodable : IsEncodable sample
sample-IsEncodable = record {
  type_range = omega arith;
  code_range = omega arith;
  mid_range = omega arith;
  token_range = omega arith;
  token_bytes = (omega arith, (omega arith, tt));
  options_sorted = (
    omega arith,
    omega arith,
    omega arith,
    (omega arith, omega arith, omega arith, (omega arith, omega arith, omega arith, tt)),
  );
}

pub bare-IsEncodable : IsEncodable bare
bare-IsEncodable = record {
  type_range = omega arith;
  code_range = omega arith;
  mid_range = omega arith;
  token_range = omega arith;
  token_bytes = (omega arith, (omega arith, tt));
  options_sorted = sample-IsEncodable.options_sorted;
}

pub length-sample : length (encode sample) ≡ 30
unfolding encode encode_body encode_options option_header nibble extension encode_payload
length-sample = refl

pub length-bare : length (encode bare) ≡ 27
unfolding encode encode_body encode_options option_header nibble extension encode_payload
length-bare = refl

abbrev pub room : List ℕ
room = 1 ∷ 2 ∷ 3 ∷ 4 ∷ 5 ∷ 6 ∷ 7 ∷ 8 ∷ []
