-- ===== src/Tests/Dtls.antt =====
-- Runs of the DTLS example over fixed libraries.
use libexositecoap.Common.{
  ℕ, ◌+◌, ◌≡◌, refl, List, [], ◌∷◌, ◌++◌, length, replicate, true, false, arith, ok,
}
use libexositecoap.Examples.Dtls.{Libs, BlockOption, select_timeout, test_write, DtlsProgram}
use libexositecoap.Examples.Dtls.Request.{
  get_pdu_write1p, pdu_of, join_strings, get_pdu, options_of, insert_segments, new_option_node,
  insert_block, with_context, get_context, first_context, coap_new_request, add_options, add_body,
}
use libexositecoap.Examples.Dtls.Handler.{response_content}
use libexositecoap.Examples.Dtls.Loop.{goes_on, loop_rounds, next_request}
use libexositecoap.Examples.Dtls.Unanswered.{write_lost, asked, waited, in_world}
use libexositecoap.Examples.Dtls.GivesUp.{HasGivenUp, gives_up}
use mathlib.Core.Option.{Option, some, none}

-- A message, and a world with a clock and the last file that was written.
record Packet : Type 0 where
  code : ℕ
  token : List ℕ
  block : Option BlockOption
  text : List ℕ
  behind : List ℕ

record World : Type 0 where
  clock : ℕ
  file : List ℕ
  written : List (List ℕ)

abbrev empty_packet : Packet
empty_packet = record { code = 0; token = []; block = none; text = []; behind = [] }

-- Nothing is received, and `select` waits two seconds.
abbrev lone : Libs Packet World
lone = record {
  coap_new_pdu = λ w. (some empty_packet, w);
  coap_new_message_id = λ ctx w. (1, w);
  set_header = λ type id code tkl m. record m { code = code };
  coap_add_token = λ bytes m. record m { token = bytes };
  coap_add_option = λ key value m. m;
  coap_add_block = λ bytes num szx m. m;
  coap_add_data = λ bytes m. record m { text = bytes };
  coap_malloc = λ n w. (true, w);
  coap_new_listnode = λ w. (true, w);
  coap_insert = λ nodes node order. nodes;
  coap_split_uri = λ url. (url, []);
  coap_split_path = λ path. path ∷ [];
  coap_split_query = λ query. query ∷ [];
  coap_encode_var_bytes = λ n. n ∷ [];
  coap_more_blocks = λ len num szx. false;
  getaddrinfo = λ node port w. (some [], w);
  sizeof_addr = 128;
  coap_new_context = λ addr w. (none, w);
  wire = λ m. m.token;
  code = λ m. m.code;
  token = λ m. m.token;
  coap_option_next = λ m. m.block;
  coap_get_data = λ m. (length m.text, some (m.text ++ (m.behind ++ (0 ∷ []))));
  coap_pdu_parse = λ bytes m. some m;
  dtls_write = λ bytes w. record w { written = bytes ∷ w.written };
  dtls_event_connected = 0x01de;
  dtls_handle_message = λ bytes w. ([], w);
  recvfrom = λ size w. (none, w);
  select = λ w. (select_timeout, record w { clock = w.clock + 2 });
  fd_isset = λ sock w. false;
  time = λ w. (w.clock, w);
  fopen_write = λ w. (true, w);
  fwrite = λ bytes w. record w { file = bytes };
}

abbrev connected : DtlsProgram Packet World
connected = record {
  sock = some 3;
  alias = b't' ∷ [];
  cik = b'c' ∷ [];
  value_to_write = b'5' ∷ b'6' ∷ [];
  vendor = b'v' ∷ [];
  model = b'm' ∷ [];
  content_id = b'i' ∷ [];
  client_model_cik = b'k' ∷ [];
  file_data = [];
  the_token = 7 ∷ [];
  dtls_connected = true;
  ready_to_recv = false;
  last_sent = record { out = 0; ack = 0; message = []; retry = 0 };
  sent_pdu = none;
  block_flag = false;
  block_num = 0;
  block_szx = 5;
  download_size = 0;
  download_content = replicate 8 0;
  test_cases = 6;
  system = record { coap_ctx = none; world = record { clock = 100; file = []; written = [] } };
}

abbrev asking : DtlsProgram Packet World
asking = record connected {
  ready_to_recv = true;
  last_sent = record { out = 100; ack = 0; message = 7 ∷ []; retry = 1 };
  sent_pdu = some (record empty_packet { token = 7 ∷ [] });
}

gives_up_example :
    HasGivenUp lone (λ w. w.written) 15 3 asking (record empty_packet { token = 7 ∷ [] })
gives_up_example =
    gives_up lone (λ w. w.clock) (λ w. w.written) 15 asking (record empty_packet { token = 7 ∷ [] })
      (record {
        silent = λ w. refl;
        waits = λ w. omega arith;
        reads = λ w. refl;
        read_after = λ w. omega arith;
        write_after = λ bytes w. omega arith;
      })
      (record { selected = λ w. refl; time_read = λ w. refl; written = λ bytes w. refl })
      (record { noted = omega arith; not_acked = refl; awaited = refl; sent = refl; same = refl })
      (omega arith) (omega arith)

-- The text in two blocks: in memory one more character stands behind the first, and takes the place
-- of the second in the file.
abbrev first_block : Packet
first_block = record {
  code = response_content;
  token = 7 ∷ [];
  block = some (record { more = true; num = 0; szx = 5 });
  text = b'a' ∷ b'b' ∷ [];
  behind = b'x' ∷ [];
}

abbrev last_block : Packet
last_block = record first_block {
  block = some (record { more = false; num = 1; szx = 5 });
  text = b'c' ∷ [];
  behind = [];
}

abbrev write_message : Packet
write_message = record {
  code = 2;
  token = 7 ∷ [];
  block = none;
  text = b'5' ∷ b'6' ∷ [];
  behind = [];
}

write_made :
    get_pdu_write1p lone connected connected.cik connected.alias connected.value_to_write
    ≡ ok (some write_message, connected)
unfolding get_pdu_write1p pdu_of join_strings get_pdu options_of insert_segments new_option_node
    insert_block with_context get_context first_context coap_new_request add_options add_body
write_made = refl

write_lost_example :
    (next_request lone connected ≡ ok (goes_on (asked lone write_message test_write connected)))
    × (loop_rounds lone 9 (asked lone write_message test_write connected)
        ≡ ok (
            goes_on (
              in_world
                (asked lone write_message test_write connected)
                (waited lone 9 (asked lone write_message test_write connected).system.world))))
write_lost_example =
    write_lost lone (λ w. refl) connected connected write_message 9 refl refl refl refl write_made
