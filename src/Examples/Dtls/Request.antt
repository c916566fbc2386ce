-- ===== src/Examples/Dtls/Request.antt =====
-- The requests of picocoap/examples/posix/client_dtls.c: `order_opts`, `new_option_node`,
-- `coap_new_request`, `get_context` and the functions `get_pdu*`.
use libexositecoap.Common.{
  ℕ, ◌*◌, List, [], ◌∷◌, ◌++◌, true, length, ltb, leb, ◌==◌, if◌then◌else◌, bit_or, not, Exec, ok,
  fault, ◌>>=◌,
}
use libexositecoap.Examples.Dtls.{
  Libs, DtlsOption, Sign, minus_one, none_of_both, one, System, DtlsProgram, buf_size,
}
use mathlib.Core.Option.{Option, none, some}

-- Methods and option numbers of libcoap.
abbrev pub request_get : ℕ
request_get = 1

abbrev pub request_post : ℕ
request_post = 2

abbrev pub request_put : ℕ
request_put = 3

abbrev option_uri_path : ℕ
option_uri_path = 11

abbrev option_uri_query : ℕ
option_uri_query = 15

abbrev option_block2 : ℕ
option_block2 = 23

abbrev option_block1 : ℕ
option_block1 = 27

abbrev any_address : List ℕ
any_address = b'0' ∷ b'.' ∷ b'0' ∷ b'.' ∷ b'0' ∷ b'.' ∷ b'0' ∷ []

abbrev any_port : List ℕ
any_port = b'0' ∷ []

abbrev activate_url : List ℕ
activate_url =
    b'c' ∷ b'o' ∷ b'a' ∷ b'p' ∷ b':' ∷ b'/' ∷ b'/' ∷ b'0' ∷ b'.' ∷ b'0' ∷ b'.' ∷ b'0' ∷ b'.' ∷ b'0'
    ∷ b'/' ∷ b'p' ∷ b'r' ∷ b'o' ∷ b'v' ∷ b'i' ∷ b's' ∷ b'i' ∷ b'o' ∷ b'n' ∷ b'/' ∷ b'a' ∷ b'c'
    ∷ b't' ∷ b'i' ∷ b'v' ∷ b'a' ∷ b't' ∷ b'e' ∷ b'/' ∷ []

abbrev pub download_url : List ℕ
download_url =
    b'c' ∷ b'o' ∷ b'a' ∷ b'p' ∷ b':' ∷ b'/' ∷ b'/' ∷ b'0' ∷ b'.' ∷ b'0' ∷ b'.' ∷ b'0' ∷ b'.' ∷ b'0'
    ∷ b'/' ∷ b'p' ∷ b'r' ∷ b'o' ∷ b'v' ∷ b'i' ∷ b's' ∷ b'i' ∷ b'o' ∷ b'n' ∷ b'/' ∷ b'd' ∷ b'o'
    ∷ b'w' ∷ b'n' ∷ b'l' ∷ b'o' ∷ b'a' ∷ b'd' ∷ b'/' ∷ []

abbrev pub data_url : List ℕ
data_url =
    b'c' ∷ b'o' ∷ b'a' ∷ b'p' ∷ b':' ∷ b'/' ∷ b'/' ∷ b'0' ∷ b'.' ∷ b'0' ∷ b'.' ∷ b'0' ∷ b'.' ∷ b'0'
    ∷ b'/' ∷ b'1' ∷ b'a' ∷ b'/' ∷ []

-- A slash and a question mark between the parts.
abbrev pub slash : List ℕ
slash = b'/' ∷ []

abbrev pub ask : List ℕ
ask = b'?' ∷ []

-- Pointers are compared first: NULL is below the others.
unfoldable pub order_opts : Option DtlsOption → Option DtlsOption → Sign
order_opts none (some b) = minus_one
order_opts none none = one
order_opts (some a) none = one
order_opts (some a) (some b) =
    if ltb a.key b.key then minus_one else if a.key == b.key then one else none_of_both

-- `strcpy(dest, first)` and `strcat(dest, part)` for each part, in an array of 2048 bytes.
unfoldable pub join_strings : List ℕ → List (List ℕ) → Exec (List ℕ)
join_strings dest [] = if ltb (length dest) buf_size then ok dest else fault
join_strings dest (part ∷ parts) =
    let rest = join_strings (dest ++ part) parts in
    if ltb (length dest) buf_size then rest else fault

module _ {M W : Type 0} (libs : Libs M W) where
  open libs use {
    coap_new_pdu, coap_new_message_id, set_header, coap_add_token, coap_add_option, coap_add_block,
    coap_add_data, coap_malloc, coap_new_listnode, coap_insert, coap_split_uri, coap_split_path,
    coap_split_query, coap_encode_var_bytes, coap_more_blocks, getaddrinfo, sizeof_addr,
    coap_new_context,
  }

  unfoldable pub new_option_node : ℕ → List ℕ → W → Option DtlsOption × W
  new_option_node key value w =
      let (room, w₁) = coap_malloc (length value) w in
      if not room
      then (none, w₁)
      else let (linked, w₂) = coap_new_listnode w₁ in
        (if linked then some (record { key = key; value = value }) else none, w₂)

  -- The loops over the segments of a path or a query.
  unfoldable pub insert_segments : ℕ → List (List ℕ) → List DtlsOption → W → List DtlsOption × W
  insert_segments key [] optlist w = (optlist, w)
  insert_segments key (segment ∷ segments) optlist w =
      let (node, w₁) = new_option_node key segment w in
      insert_segments key segments (coap_insert optlist node order_opts) w₁

  -- The loop over the options.
  unfoldable pub add_options : List DtlsOption → M → M
  add_options [] pdu = pdu
  add_options (opt ∷ rest) pdu = add_options rest (coap_add_option opt.key opt.value pdu)

  unfoldable pub add_body : DtlsProgram M W → List ℕ → M → M
  add_body s payload pdu =
      if length payload == 0
      then pdu
      else if s.block_flag
      then coap_add_block payload s.block_num s.block_szx pdu
      else coap_add_data payload pdu

  -- A confirmable request; none for NULL.
  unfoldable pub coap_new_request :
      DtlsProgram M W → ℕ → List DtlsOption → List ℕ → System W → Option M × System W
  unfolding add_options add_body
  coap_new_request s method options payload sys =
      let (made, w₁) = coap_new_pdu sys.world in
      elim made [
        | none ↦ (none, record sys { world = w₁ })
        | some pdu ↦
            let (mid, w₂) = coap_new_message_id sys.coap_ctx w₁ in
            let headed = set_header 0 mid method (length s.the_token) pdu in
            let full = add_options options (coap_add_token s.the_token headed) in
            (some (add_body s payload full), record sys { world = w₂ })
      ]

  -- The loop over the addresses: the first context there is.
  unfoldable pub first_context : List (ℕ × ℕ) → W → Option ℕ × W
  first_context [] w = (none, w)
  first_context ((addr, addrlen) ∷ rest) w =
      if leb addrlen sizeof_addr
      then (let (ctx, w₁) = coap_new_context addr w in
          elim ctx [ some c ↦ (some c, w₁) | none ↦ first_context rest w₁ ])
      else first_context rest w

  unfoldable pub get_context : List ℕ → List ℕ → W → Option ℕ × W
  unfolding first_context
  get_context node port w =
      let (found, w₁) = getaddrinfo node port w in
      elim found [ none ↦ (none, w₁) | some addrs ↦ first_context addrs w₁ ]

  -- The context of the program, made once there is none.
  unfoldable pub with_context : System W → System W
  unfolding get_context
  with_context sys = elim sys.coap_ctx [
    | some c ↦ sys
    | none ↦
        let (ctx, w) = get_context any_address any_port sys.world in
        record { coap_ctx = ctx; world = w }
  ]

  -- The Block option of a request for a block, or with one.
  unfoldable pub insert_block :
      DtlsProgram M W → ℕ → List ℕ → List DtlsOption → W → List DtlsOption × W
  insert_block s method payload optlist w =
      if s.block_flag
      then (let more =
            if coap_more_blocks (length payload) s.block_num s.block_szx then 0x08 else 0 in
          let (node, w₁) =
            new_option_node (if method == request_get then option_block2 else option_block1)
              (coap_encode_var_bytes (bit_or (bit_or (s.block_num * 16) s.block_szx) more)) w in
          (coap_insert optlist node order_opts, w₁))
      else (optlist, w)

  -- A path or a query that is empty has no segments.
  abbrev segments_of : (List ℕ → List (List ℕ)) → List ℕ → List (List ℕ)
  segments_of split [] = []
  segments_of split (x ∷ xs) = split (x ∷ xs)

  -- The options of a request, in `optlist`, with the context.
  unfoldable pub options_of : DtlsProgram M W → List ℕ → ℕ → List ℕ → List DtlsOption × System W
  unfolding insert_segments insert_block with_context
  options_of s url method payload =
      let (path, query) = coap_split_uri url in
      let (opts₁, w₁) =
        insert_segments option_uri_path (segments_of coap_split_path path) [] s.system.world in
      let (opts₂, w₂) =
        insert_segments option_uri_query (segments_of coap_split_query query) opts₁ w₁ in
      let sys = with_context (record s.system { world = w₂ }) in
      let (opts₃, w₃) = insert_block s method payload opts₂ sys.world in
      (opts₃, record sys { world = w₃ })

  unfoldable pub get_pdu : DtlsProgram M W → List ℕ → ℕ → List ℕ → Option M × System W
  unfolding options_of coap_new_request
  get_pdu s url method payload =
      let (options, sys) = options_of s url method payload in
      coap_new_request s method options payload sys

  -- The message of `get_pdu` for a URL of parts, with what else changes.
  unfoldable pub pdu_of :
      DtlsProgram M W → List ℕ → List (List ℕ) → ℕ → List ℕ → Exec (Option M × DtlsProgram M W)
  unfolding join_strings
  pdu_of s first parts method payload = do
    dest ← join_strings first parts
    let (pdu, sys) = get_pdu s dest method payload
    ok (pdu, record s { system = sys })

  unfoldable pub get_pdu_activate :
      DtlsProgram M W → List ℕ → List ℕ → List ℕ → Exec (Option M × DtlsProgram M W)
  unfolding pdu_of
  get_pdu_activate s vendor model serial_number =
      pdu_of s activate_url (vendor ∷ slash ∷ model ∷ slash ∷ serial_number ∷ []) request_post []

  unfoldable pub get_pdu_download_content : DtlsProgram M W → Exec (Option M × DtlsProgram M W)
  unfolding pdu_of
  get_pdu_download_content s =
      pdu_of (record s { block_flag = true }) download_url
        (s.vendor ∷ slash ∷ s.model ∷ slash ∷ s.content_id ∷ ask ∷ s.client_model_cik ∷ [])
        request_get []

  unfoldable pub get_pdu_read1p :
      DtlsProgram M W → List ℕ → List ℕ → Exec (Option M × DtlsProgram M W)
  unfolding pdu_of
  get_pdu_read1p s cik alias = pdu_of s data_url (alias ∷ ask ∷ cik ∷ []) request_get []

  unfoldable pub get_pdu_write1p :
      DtlsProgram M W → List ℕ → List ℕ → List ℕ → Exec (Option M × DtlsProgram M W)
  unfolding pdu_of
  get_pdu_write1p s cik alias value = pdu_of s data_url (alias ∷ ask ∷ cik ∷ []) request_post value

  unfoldable pub get_pdu_block_upload :
      DtlsProgram M W → List ℕ → List ℕ → List ℕ → Exec (Option M × DtlsProgram M W)
  unfolding pdu_of
  get_pdu_block_upload s cik alias content =
      pdu_of (record s { block_flag = true }) data_url (alias ∷ ask ∷ cik ∷ []) request_put content
