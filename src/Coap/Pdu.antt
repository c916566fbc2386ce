-- ===== src/Coap/Pdu.antt =====
-- The data types and constants of picocoap/src/coap.h.
use libexositecoap.Common.{ℕ, ◌+◌, List, sub64}

pub data CoapError : Type 0 where
  ce_none : CoapError
  ce_invalid_packet : CoapError
  ce_bad_version : CoapError
  ce_token_length_out_of_range : CoapError
  ce_unknown_code : CoapError
  ce_too_many_options : CoapError
  ce_out_of_order_options_list : CoapError
  ce_insufficient_buffer : CoapError
  ce_found_payload_marker : CoapError
  ce_end_of_packet : CoapError

-- The number of the C enumeration, which callers combine by `|`.
abbrev pub error_number : CoapError → ℕ
error_number ce_none = 0
error_number ce_invalid_packet = 1
error_number ce_bad_version = 2
error_number ce_token_length_out_of_range = 3
error_number ce_unknown_code = 4
error_number ce_too_many_options = 5
error_number ce_out_of_order_options_list = 6
error_number ce_insufficient_buffer = 7
error_number ce_found_payload_marker = 8
error_number ce_end_of_packet = 9

abbrev pub coap_max_retransmit : ℕ
coap_max_retransmit = 4

abbrev pub coap_probing_rate : ℕ
coap_probing_rate = 1

abbrev pub coap_v1 : ℕ
coap_v1 = 1

-- `coap_type`
abbrev pub ct_con : ℕ
ct_con = 0

abbrev pub ct_non : ℕ
ct_non = 1

abbrev pub ct_ack : ℕ
ct_ack = 2

abbrev pub ct_rst : ℕ
ct_rst = 3

-- `coap_code`: the codes that the library's own code names.
abbrev pub cc_empty : ℕ
cc_empty = 0

abbrev pub cc_get : ℕ
cc_get = 1

abbrev pub cc_post : ℕ
cc_post = 2

abbrev pub cc_content : ℕ
cc_content = 69

abbrev pub cc_unauthorized : ℕ
cc_unauthorized = 129

abbrev pub cc_not_found : ℕ
cc_not_found = 132

-- `coap_option_number`: the options that the library's own code names.
abbrev pub con_observe : ℕ
con_observe = 6

abbrev pub con_uri_path : ℕ
con_uri_path = 11

abbrev pub con_max_age : ℕ
con_max_age = 14

abbrev pub con_uri_query : ℕ
con_uri_query = 15

-- A `uint8_t *`: NULL, or the place at an index of the message buffer.
pub data Ptr : Type 0 where
  null : Ptr
  at : ℕ → Ptr

-- `coap_pdu`. `bytes` is the whole array behind `buf` and `base` its address, which matters only
-- where the code subtracts `buf` from NULL.
pub record Pdu : Type 0 where
  pub base : ℕ
  pub bytes : List ℕ
  pub len : ℕ
  pub max : ℕ
  pub opt_ptr : Ptr

-- `coap_option`
pub record CoapOption : Type 0 where
  pub num : ℕ
  pub len : ℕ
  pub val : Ptr

-- `coap_payload`
pub record CoapPayload : Type 0 where
  pub len : ℕ
  pub val : Ptr

-- `p + n`, and `p - pdu->buf` as a 64-bit number.
abbrev pub advance : Ptr → ℕ → Ptr
advance null n = null
advance (at i) n = at (i + n)

abbrev pub offset_of : Pdu → Ptr → ℕ
offset_of p null = sub64 0 p.base
offset_of p (at i) = i
