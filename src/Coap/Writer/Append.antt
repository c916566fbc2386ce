-- ===== src/Coap/Writer/Append.antt =====
-- A message that gets one more option behind the others, and an option whose value stands in front
-- of other bytes.
use libexositecoap.Common.{ℕ, ◌≤◌, ◌<◌, ◌≡◌, List, [], ◌∷◌, ◌++◌, length, All, leb, true, arith}
use libexositecoap.Memory.Local.{read_prefix, read_whole}
use libexositecoap.Coap.Pdu.{Pdu}
use libexositecoap.Coap.Wire.{Opt, Message, IsEncodable, IsOptions}
use libexositecoap.Coap.Writer.{insert_option, add_option_at, coap_add_option}
use libexositecoap.Coap.Writer.Insert.{with_option}

-- An option behind the others, none of which has a greater number.
pub IsOptions-append :
    (last : ℕ) (os : List Opt) (o : Opt)
    → IsOptions last os
    → All (λ (q : Opt). leb q.num o.num ≡ true) os
    → last ≤ o.num
    → o.num < 65536
    → length o.val < 65536
    → IsOptions last (os ++ (o ∷ []))
IsOptions-append last [] o sorted below first rn rl = (first, rn, rl, tt)
IsOptions-append last (q ∷ os) o (a, b, c, sorted) (le, below) first rn rl =
    (a, b, c, IsOptions-append q.num os o sorted below (ground arith) rn rl)

pub with_option-IsEncodable :
    (m : Message) (o : Opt)
    → IsEncodable m
    → All (λ (q : Opt). leb q.num o.num ≡ true) m.options
    → o.num < 65536
    → length o.val < 65536
    → IsEncodable (with_option m o)
with_option-IsEncodable m o v below rn rl = record {
  type_range = v.type_range;
  code_range = v.code_range;
  mid_range = v.mid_range;
  token_range = v.token_range;
  token_bytes = v.token_bytes;
  options_sorted = IsOptions-append 0 m.options o v.options_sorted below (omega arith) rn rl;
}

-- Bytes behind the length that is given are not looked at.
insert_option-append :
    (bytes : List ℕ) (pkt_ptr nopt_hdr_len delta : ℕ) (value rest : List ℕ)
    → insert_option bytes pkt_ptr nopt_hdr_len delta (value ++ rest) (length value)
      ≡ insert_option bytes pkt_ptr nopt_hdr_len delta value (length value)
unfolding insert_option
insert_option-append bytes pkt_ptr nopt_hdr_len delta value rest =
    rw (read_prefix value rest, read_whole value)

pub add_option-append :
    (p : Pdu) (num : ℕ) (value rest : List ℕ)
    → coap_add_option p num (value ++ rest) (length value)
      ≡ coap_add_option p num value (length value)
unfolding coap_add_option add_option_at
add_option-append p num value rest = simp (insert_option-append)
