-- ===== src/Coap/Writer/Stops.antt =====
-- The writers of picocoap/src/coap.c end on every packet, whatever it holds.
use libexositecoap.Common.{
  ℕ, ◌+◌, List, Bool, length, arith, Exec, Ends-Stops, Stops, Stops-if, ok-Stops,
}
use libexositecoap.Memory.Ends.{memory_stops}
use libexositecoap.Coap.Pdu.{Pdu, CoapError, ce_found_payload_marker, ce_end_of_packet}
use libexositecoap.Coap.Header.{coap_build_option_header}
use libexositecoap.Coap.Fields.Stops.{get_tkl-Stops}
use libexositecoap.Coap.Writer.{
  Place, is_fatal, find_place, insert_option, make_room, add_option_at, coap_add_option,
  put_payload, set_payload_at, coap_set_payload, coap_adjust_option_deltas, zeroth,
}
use libexositecoap.Coap.Writer.Ends.{
  build_option_header-Ends, find_place-Ends, coap_adjust_option_deltas-Ends,
}

build_option_header-Stops :
    (bytes : List ℕ) (buf max_len d l : ℕ) → Stops (coap_build_option_header bytes buf max_len d l)
build_option_header-Stops bytes buf max_len d l =
    Ends-Stops _ (build_option_header-Ends bytes buf max_len d l)

adjust_option_deltas-Stops :
    (bytes : List ℕ) (start opts_len max_len offset : ℕ)
    → Stops (coap_adjust_option_deltas bytes start opts_len max_len offset)
adjust_option_deltas-Stops bytes start opts_len max_len offset =
    Ends-Stops _ (coap_adjust_option_deltas-Ends bytes start opts_len max_len offset)

find_place-Stops :
    (goes_on : ℕ → Bool) (bytes : List ℕ) (len start : ℕ)
    → Stops (find_place (length bytes + 1) goes_on bytes len (zeroth start))
find_place-Stops goes_on bytes len start =
    find_place-Ends (length bytes + 1) goes_on bytes len (zeroth start) (omega arith) (omega arith)

ruleset place_stops = (
  memory_stops, get_tkl-Stops, build_option_header-Stops, adjust_option_deltas-Stops,
  find_place-Stops,
)

insert_option-Stops :
    (bytes : List ℕ) (pkt_ptr hdr_len delta : ℕ) (value : List ℕ) (opt_len : ℕ)
    → Stops (insert_option bytes pkt_ptr hdr_len delta value opt_len)
unfolding insert_option
insert_option-Stops bytes pkt_ptr hdr_len delta value opt_len = search place_stops depth 20

make_room-Stops : (p : Pdu) (pkt_ptr room offset : ℕ) → Stops (make_room p pkt_ptr room offset)
unfolding make_room
make_room-Stops p pkt_ptr room offset = search place_stops depth 20

add_option_at-Stops :
    (p : Pdu) (num : ℕ) (value : List ℕ) (len : ℕ) (place : Place)
    → Stops (add_option_at p num value len place)
unfolding add_option_at
add_option_at-Stops p num value len place =
    search (place_stops, insert_option-Stops, make_room-Stops) depth 20

pub add_option-Stops :
    (p : Pdu) (num : ℕ) (value : List ℕ) (len : ℕ) → Stops (coap_add_option p num value len)
unfolding coap_add_option
add_option-Stops p num value len = search (place_stops, add_option_at-Stops) depth 20

put_payload-Stops :
    (p : Pdu) (bytes : List ℕ) (pkt_ptr : ℕ) (payload : List ℕ) (len : ℕ)
    → Stops (put_payload p bytes pkt_ptr payload len)
unfolding put_payload
put_payload-Stops p bytes pkt_ptr payload len = search place_stops depth 20

payload_place :
    {R : Type 0} (err : CoapError) (end marker other : Exec R)
    → Stops end
    → Stops marker
    → Stops other
    → Stops (elim err [ ce_end_of_packet ↦ end | ce_found_payload_marker ↦ marker | _ ↦ other ])
payload_place ce_end_of_packet end marker other h k l = h
payload_place ce_found_payload_marker end marker other h k l = k
payload_place err end marker other h k l = l

set_payload_at-Stops :
    (p : Pdu) (payload : List ℕ) (len : ℕ) (place : Place)
    → Stops (set_payload_at p payload len place)
unfolding set_payload_at
set_payload_at-Stops p payload len place = Stops-if (is_fatal place.err) _ _ (ok-Stops _) (
    payload_place place.err _ _ _ (search (place_stops, put_payload-Stops) depth 20)
      (search (place_stops, put_payload-Stops) depth 20)
      (put_payload-Stops p p.bytes place.pkt_ptr payload len))

pub set_payload-Stops :
    (p : Pdu) (payload : List ℕ) (len : ℕ) → Stops (coap_set_payload p payload len)
unfolding coap_set_payload
set_payload-Stops p payload len = search (place_stops, set_payload_at-Stops) depth 20
