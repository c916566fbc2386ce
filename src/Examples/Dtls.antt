-- ===== src/Examples/Dtls.antt =====
-- picocoap/examples/posix/client_dtls.c: the client over DTLS. Its libraries (libcoap, tinyDTLS) and
-- the calls of the system are the record `Libs`; the variables that it uses and that libcoap's
-- example client declares (`the_token`, `block`, `test_cases` and others) are fields of `DtlsProgram`.
pub mod Setup
pub mod Request
pub mod Handler
pub mod Loop
pub mod Unanswered
pub mod GivesUp
pub mod Blocks
pub mod Download
use libexositecoap.Common.{ℕ, List, Bool}
use mathlib.Core.Option.{Option}

-- A `coap_option` of libcoap. Its length is that of its value.
pub record DtlsOption : Type 0 where
  pub key : ℕ
  pub value : List ℕ

-- The result of an order function of `coap_insert`: -1, 0 or 1.
pub data Sign : Type 0 where
  minus_one : Sign
  none_of_both : Sign
  one : Sign

-- A Block1 or Block2 option: the M bit, the block's number and the exponent of its size.
pub record BlockOption : Type 0 where
  pub more : Bool
  pub num : ℕ
  pub szx : ℕ

-- The answer of `select`.
pub data Selected : Type 0 where
  select_error : Selected
  select_timeout : Selected
  select_ready : Selected

-- A callback of tinyDTLS: an event with its code, or the data of a record that was decrypted.
pub data Callback : Type 0 where
  event_callback : ℕ → Callback
  read_callback : List ℕ → Callback

-- What the functions called return: `M` is a `coap_pdu_t`, and `W` the state of the world.
pub record Libs (M W : Type 0) : Type 0 where
  pub coap_new_pdu : W → Option M × W
  pub coap_new_message_id : Option ℕ → W → ℕ × W
  -- The fields `type`, `id`, `code` and `token_length` of `hdr` set.
  pub set_header : ℕ → ℕ → ℕ → ℕ → M → M
  pub coap_add_token : List ℕ → M → M
  pub coap_add_option : ℕ → List ℕ → M → M
  pub coap_add_block : List ℕ → ℕ → ℕ → M → M
  pub coap_add_data : List ℕ → M → M
  -- Whether there was memory.
  pub coap_malloc : ℕ → W → Bool × W
  pub coap_new_listnode : W → Bool × W
  -- A list sorted by an order function, with one more node; none is a node that is NULL.
  pub coap_insert :
      List DtlsOption
      → Option DtlsOption
      → (Option DtlsOption → Option DtlsOption → Sign)
      → List DtlsOption
  -- The path and the query of a URI, and the segments of each.
  pub coap_split_uri : List ℕ → List ℕ × List ℕ
  pub coap_split_path : List ℕ → List (List ℕ)
  pub coap_split_query : List ℕ → List (List ℕ)
  pub coap_encode_var_bytes : ℕ → List ℕ
  pub coap_more_blocks : ℕ → ℕ → ℕ → Bool
  -- `getaddrinfo`: the addresses with their lengths, or none for an error.
  pub getaddrinfo : List ℕ → List ℕ → W → Option (List (ℕ × ℕ)) × W
  -- `sizeof(addr.addr)`, and a context for an address; none is NULL.
  pub sizeof_addr : ℕ
  pub coap_new_context : ℕ → W → Option ℕ × W
  -- Of a message: the bytes from `hdr` on, the code, the token, the first Block1 or Block2 option, and
  -- the payload's length with the memory from it on, or none for NULL.
  pub wire : M → List ℕ
  pub code : M → ℕ
  pub token : M → List ℕ
  pub coap_option_next : M → Option BlockOption
  pub coap_get_data : M → ℕ × Option (List ℕ)
  -- A message that holds what was parsed, or none if it is invalid.
  pub coap_pdu_parse : List ℕ → M → Option M
  pub dtls_write : List ℕ → W → W
  -- `DTLS_EVENT_CONNECTED`, and the callbacks that a datagram leads to.
  pub dtls_event_connected : ℕ
  pub dtls_handle_message : List ℕ → W → List Callback × W
  -- `recvfrom` into a buffer of the given size; none is -1.
  pub recvfrom : ℕ → W → Option (List ℕ) × W
  pub select : W → Selected × W
  -- `FD_ISSET` of a descriptor, in the set that `select` left.
  pub fd_isset : Option ℕ → W → Bool
  -- `(int)time(NULL)`
  pub time : W → ℕ × W
  -- `fopen` for writing, and `fwrite` with `fclose`.
  pub fopen_write : W → Bool × W
  pub fwrite : List ℕ → W → W

abbrev pub buf_size : ℕ
buf_size = 2_048

abbrev pub max_retry : ℕ
max_retry = 3

abbrev pub timeout_seconds : ℕ
timeout_seconds = 5

abbrev pub test_read : ℕ
test_read = 0x02

abbrev pub test_write : ℕ
test_write = 0x04

-- `trans_data`; `message` is what the pointer `data` shows.
pub record TransData : Type 0 where
  pub out : ℕ
  pub ack : ℕ
  pub message : List ℕ
  pub retry : ℕ

-- `coap_ctx`, a pointer that may be NULL, and the world.
pub record System (W : Type 0) : Type 0 where
  pub coap_ctx : Option ℕ
  pub world : W

-- The variables of the program. Strings are their characters, without the 0; `download_content` is
-- an array.
pub record DtlsProgram (M W : Type 0) : Type 0 where
  -- `sock` of `main`, the application data of the context; none is -1.
  pub sock : Option ℕ
  pub alias : List ℕ
  pub cik : List ℕ
  pub value_to_write : List ℕ
  pub vendor : List ℕ
  pub model : List ℕ
  pub content_id : List ℕ
  pub client_model_cik : List ℕ
  pub file_data : List ℕ
  pub the_token : List ℕ
  pub dtls_connected : Bool
  pub ready_to_recv : Bool
  pub last_sent : TransData
  pub sent_pdu : Option M
  pub block_flag : Bool
  pub block_num : ℕ
  pub block_szx : ℕ
  pub download_size : ℕ
  pub download_content : List ℕ
  pub test_cases : ℕ
  pub system : System W
