-- ===== src/Tests/Endings.antt =====
-- Runs that end, on packets that are not well-formed and with datagrams waiting.
use libexositecoap.Common.{
  ℕ, ◌≡◌, ◌≢◌, refl, List, [], ◌∷◌, length, replicate, arith, ok, ◌<◌, stuck,
}
use libexositecoap.Coap.Pdu.{Pdu, null, at}
use libexositecoap.Coap.Wire.{encode}
use libexositecoap.Coap.Fields.{coap_get_tkl}
use libexositecoap.Coap.Header.{coap_decode_option}
use libexositecoap.Coap.Reader.{
  coap_get_option_by_num, by_num_loop, coap_get_option, first_option, by_num_round,
}
use libexositecoap.Coap.Reader.Passes.{get_option_by_num-ne-stuck}
use libexositecoap.Pal.{Pal, IsBacklog}
use libexositecoap.Client.State.{Client, good}
use libexositecoap.Client.Operate.{exo_operate}
use libexositecoap.Client.Operate.Ends.{exo_operate-ne-stuck}
use libexositecoap.Tests.Samples.{sample}
use libexositecoap.Tests.Device.{read_op}
use mathlib.Core.Option.{Option, some, none}

-- An option with the number 1 and a length of 5, of which one byte is in the packet: each pass starts
-- again at it and adds 1 to the number.
abbrev cut_option : Pdu
cut_option = record {
  base = 4_096;
  bytes = 0x40 ∷ 1 ∷ 0 ∷ 0 ∷ 0x15 ∷ b'a' ∷ [];
  len = 6;
  max = 6;
  opt_ptr = null;
}

cut_option_found :
    coap_get_option_by_num cut_option 6 0 ≡ ok (record { num = 6; len = 5; val = at 5 })
unfolding coap_get_option_by_num by_num_loop coap_get_option first_option coap_get_tkl
    coap_decode_option by_num_round
cut_option_found = refl

get_option_by_num-ne-stuck_example : coap_get_option_by_num cut_option 6 0 ≢ stuck
get_option_by_num-ne-stuck_example =
    get_option_by_num-ne-stuck cut_option 6 0 (omega arith) (omega arith)

abbrev deliver : List (List ℕ) → Option (List ℕ) × List (List ℕ)
deliver [] = (none, [])
deliver (datagram ∷ rest) = (some datagram, rest)

-- The world is what waits to be received.
abbrev mailbox : Pal (List (List ℕ))
mailbox = record {
  exopal_init = λ w. (0, w);
  exopal_udp_sock = λ w. (0, w);
  exopal_retrieve_cik = λ w. (0, [], w);
  exopal_store_cik = λ cik w. (0, w);
  exopal_udp_send = λ bytes w. (0, w);
  exopal_udp_recv = λ max w. deliver w;
  exopal_get_time = λ w. (1_000, w);
  seed = λ w. w;
  rand = λ w. (7, w);
}

mailbox_received :
    (w : List (List ℕ)) (datagram : List ℕ)
    → (deliver w).0 ≡ some datagram
    → length (deliver w).1 < length w
mailbox_received [] datagram e = cc
mailbox_received (d ∷ w) datagram e = omega arith

mailbox-IsBacklog : IsBacklog mailbox (λ w. length w)
mailbox-IsBacklog = record {
  received = λ max w datagram e. mailbox_received w datagram e;
  time_read = λ w. omega arith;
  drawn = λ w. omega arith;
  cik_stored = λ cik w. omega arith;
}

-- A device with a message to nobody, and one that is none, in its mailbox.
abbrev busy_device : Client (List (List ℕ))
busy_device = record {
  cik = [];
  vendor = none;
  model = none;
  serial = none;
  message_id_counter = 5;
  device_state = good;
  world = (0 ∷ []) ∷ encode sample ∷ [];
}

exo_operate-ne-stuck_example :
    exo_operate mailbox 3
      (record { base = 4_096; bytes = replicate 64 0; len = 0; max = 64; opt_ptr = null })
      busy_device
      (read_op ∷ [])
    ≢ stuck
exo_operate-ne-stuck_example =
    exo_operate-ne-stuck mailbox (λ w. length w) 3
      (record { base = 4_096; bytes = replicate 64 0; len = 0; max = 64; opt_ptr = null })
      busy_device (read_op ∷ []) mailbox-IsBacklog (omega arith)
