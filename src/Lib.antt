-- ===== src/Lib.antt =====
-- The CoAP codec and the Exosite client of libexositecoap.
--
-- The program has two parts. `picocoap/src/coap.c` with `picocoap/src/coap.h` reads and writes CoAP
-- messages in a buffer that the caller owns: a `coap_pdu` is a pointer to the buffer with the length
-- of the message and the size of the buffer. `src/exosite.c` with `src/exosite.h` is the client: the
-- application queues operations in an array (`exo_write`, `exo_read`, `exo_subscribe`) and calls
-- `exo_operate` again and again; each call takes the waiting datagrams in, which change the
-- operations that they belong to, and then sends what the operations have to send. The client
-- reaches the network, the clock and the store of the key (CIK) through the functions of `pal/`.
--
-- How it is modelled:
--   Memory      A C array of bytes is a list; an access outside of it is the result `fault`.
--   */Ends, */Stops    That a run comes to an end: `Ends P` says that it is not out of fuel and that
--               its value, if it has one, is a `P`; `Stops` leaves the value open. One rule for each
--               way to put runs together makes the rulesets `memory_stops` and `field_stops`.
--   Coap/Pdu    The types and constants of coap.h. `bytes` is the whole array of a `coap_pdu`, a
--               pointer into it is its index, and `base` is its address, which one
--               difference of pointers in `coap_get_option` depends on.
--   Coap/Fields The getters and setters of the fixed header, the token and `coap_init_pdu`.
--   Coap/Header `coap_decode_option`, `coap_build_option_header` and
--               `coap_compute_option_header_len`.
--   Coap/Reader `coap_validate_pkt`, `coap_get_option`, `coap_get_option_by_num` and
--               `coap_get_payload`.
--   Coap/Writer `coap_add_option`, `coap_adjust_option_deltas` and `coap_set_payload`.
--   Coap/Wire   The description that these are compared with: a message as a record with a list of
--               options, its bytes `encode`, and `holding`, a buffer with these bytes in front. It is
--               encodable (`IsEncodable`) if its fields are in range; so is one with a payload marker
--               and no payload, which RFC 7252 calls malformed.
--   Coap/Lookup Writers and readers together.
--   Pal         The functions of the platform, as a parameter over a state of the world; Pal/Posix and
--               Pal/Template are the layers of `pal/`, the first over the system's functions.
--   Client/Op, Client/State       `exo_op` with its functions, and the static variables.
--   Client/Message                The `exo_build_msg_` functions.
--   Client/Send, Client/Receive   The two passes of `exo_operate` over the operations;
--                                 Client/Handlers is what a datagram does at one of them,
--                                 Client/Payload what it takes out of the message.
--   Client/History                `exo_init`, calls of the application and passes of `exo_operate`,
--                                 in any order.
--   Client/Operate                `exo_init`, `exo_operate` and `exo_util_is_ascii_hex`.
--   Examples/Print, Examples/Exchange    picocoap/examples/posix/client.c: `coap_pretty_print` with
--               `hex_dump`, and the rounds of `main`.
--   Examples/Subscribe                   `main` of examples/subscribe.c. What a program prints is a
--               list.
--   Examples/Dtls                        picocoap/examples/posix/client_dtls.c, its lines 170 to 774:
--               Dtls/Setup the start, Dtls/Request the functions `get_pdu*`, Dtls/Handler
--               `message_handler`, Dtls/Loop the callbacks and the loop of `main`. libcoap, tinyDTLS
--               and the system are the records `Libs` and `Starter`; the variables that it uses and
--               does not declare (`the_token`, `block`, `test_cases` and so on) are fields of
--               `DtlsProgram`, with those that it does. Its loop has no bound, so `loop_rounds` is
--               a number of rounds.
--   Common, Tests                 Shared definitions and lemmas; runs on fixed inputs.
--
-- Functions keep their C names, but `exo_write`, `exo_read`, `exo_subscribe` and `exo_activate` are
-- `queue_write` and so on, since the request types have these names; a function that stands for a
-- part of one is named for what it does. A function that writes returns the changed buffer, client
-- or operations next to its result. Numbers are unbounded with the conversions of C written out:
-- `u8`, `u16`, `sub64` for a difference of `size_t`, and `% 2 ^ w`. The host is little-endian, which `memcpy` to and from the token shows.
-- An operation's buffer is the list in its field, so no two operations share one.
--
-- Bounds: a loop over the options of a packet has fuel for as many rounds as the array has bytes,
-- and one more; every round moves on by a byte at least. `coap_get_option_by_num` may start over, so
-- its fuel is that number of rounds for each number up to the one looked for. Without fuel the
-- result is `stuck`, which is no result of the program. The loop over datagrams has fuel that the
-- caller gives, since it depends on the network how many there are (`IsBacklog` of Pal says what a
-- count of them is); so do
-- the calls of `exo_operate` that examples/subscribe.c makes until it is idle. The loop over the
-- options in `coap_pretty_print` has the caller's fuel too; one round more than there are options is
-- enough.
--
-- Not modelled: the system's sockets, files and clock, which are the parameter `Os` of Pal/Posix; the
-- resolution of the host in picocoap/examples/posix/client.c; in client_dtls.c beside it the first
-- `main` and `coap_pretty_print`, which call an older coap.c that is not in the repository, `hex_dump`, which
-- is that of client.c, and the lines behind a `return`; the tests; `tests/cmocka`, which is
-- another project's; `exo_do_activate` and `exopal_set_time`, which do nothing; constants that no
-- function here reads.
pub mod Common
pub mod Memory
pub mod Coap
pub mod Pal
pub mod Client
pub mod Examples
pub mod Tests
