-- ===== src/Examples/Dtls/Handler.antt =====
-- The messages that picocoap/examples/posix/client_dtls.c receives: `check_token` and
-- `message_handler`, with the macros that note the time.
use libexositecoap.Common.{
  ℕ, ◌+◌, List, [], ◌∷◌, ◌++◌, Bool, true, false, length, ◌&&◌, ◌==◌, if◌then◌else◌, Exec, ok,
  fault, ◌>>=◌,
}
use libexositecoap.Memory.{read, write}
use libexositecoap.Client.State.{c_string}
use libexositecoap.Examples.Dtls.{Libs, BlockOption, DtlsProgram}
use libexositecoap.Examples.Dtls.Request.{get_pdu_download_content, get_pdu_block_upload}
use mathlib.Core.Option.{Option, none, some}

-- `COAP_RESPONSE_CODE` of 2.05, 2.04 and 2.31.
abbrev pub response_content : ℕ
response_content = 69

abbrev pub response_changed : ℕ
response_changed = 68

abbrev pub response_continue : ℕ
response_continue = 95

-- `memcmp` of as many bytes.
unfoldable pub same_bytes : List ℕ → List ℕ → Bool
same_bytes [] [] = true
same_bytes [] (y ∷ ys) = false
same_bytes (x ∷ xs) [] = false
same_bytes (x ∷ xs) (y ∷ ys) = x == y && same_bytes xs ys

-- `strcat` to a string in an array.
unfoldable pub strcat : List ℕ → List ℕ → Exec (List ℕ)
unfolding c_string write
strcat dest src = do
  old ← c_string dest
  more ← c_string src
  write dest (length old) (more ++ (0 ∷ []))

-- The memory behind a pointer that may be NULL.
unfoldable pub memory_at : Option (List ℕ) → Exec (List ℕ)
memory_at none = fault
memory_at (some bytes) = ok bytes

module _ {M W : Type 0} (libs : Libs M W) where
  open libs use {
    wire, code, token, coap_option_next, coap_get_data, dtls_write, time, fopen_write, fwrite,
  }

  unfoldable pub check_token : DtlsProgram M W → M → Bool
  unfolding same_bytes
  check_token s received = same_bytes (token received) s.the_token

  -- `SET_SEND_TIMESTAMP`, behind a message `pdu` that `sent_pdu` points to.
  unfoldable pub set_send_timestamp : M → DtlsProgram M W → DtlsProgram M W
  set_send_timestamp pdu s =
      let (now, w) = time s.system.world in
      record s {
        last_sent = record {
          out = now;
          ack = 0;
          message = wire pdu;
          retry = s.last_sent.retry + 1;
        };
        system = record s.system { world = w };
      }

  unfoldable pub set_ack_timestamp : DtlsProgram M W → DtlsProgram M W
  set_ack_timestamp s =
      let (now, w) = time s.system.world in
      record s {
        last_sent = record s.last_sent { ack = now; retry = 0 };
        system = record s.system { world = w };
      }

  -- `sent_pdu = ...` and the `dtls_write` of it; NULL is read there.
  unfoldable pub write_pdu : Option M × DtlsProgram M W → Exec (M × DtlsProgram M W)
  write_pdu (none, s) = fault
  write_pdu (some pdu, s) = ok (
    pdu,
    record s {
      sent_pdu = some pdu;
      system = record s.system { world = dtls_write (wire pdu) s.system.world };
    },
  )

  -- The request for the block behind, once the one before is acknowledged.
  unfoldable pub next_block :
      (DtlsProgram M W → Exec (Option M × DtlsProgram M W))
      → DtlsProgram M W
      → Exec (DtlsProgram M W)
  unfolding set_ack_timestamp write_pdu set_send_timestamp
  next_block get_request s = do
    let acked = set_ack_timestamp s
    made ← get_request (record acked { block_num = acked.block_num + 1 })
    (pdu, sent) ← write_pdu made
    ok (set_send_timestamp pdu sent)

  -- The last block: the file is written, at the length counted.
  unfoldable pub save_download : DtlsProgram M W → Exec (DtlsProgram M W)
  save_download s = do
    let (opened, w) = fopen_write s.system.world
    content ← read s.download_content 0 s.download_size
    if opened
        then ok (record s {
          ready_to_recv = false;
          system = record s.system { world = fwrite content w };
        })
        else fault

  -- 2.05 with a block option.
  unfoldable pub on_download :
      BlockOption → ℕ → Option (List ℕ) → DtlsProgram M W → Exec (DtlsProgram M W)
  unfolding strcat memory_at next_block save_download
  on_download block len databuf s = do
    bytes ← memory_at databuf
    content ← strcat s.download_content bytes
    let filled = record s { download_size = s.download_size + len; download_content = content }
    if block.more then next_block (get_pdu_download_content libs) filled else save_download filled

  -- Neither 2.05 nor 2.04: only a block option with 2.31 goes on.
  unfoldable pub on_other : ℕ → Option BlockOption → DtlsProgram M W → Exec (DtlsProgram M W)
  unfolding next_block
  on_other kind none s = ok (record s { ready_to_recv = false })
  on_other kind (some block) s =
      if kind == response_continue
      then (if block.more
          then next_block (λ t. get_pdu_block_upload libs t t.cik t.alias t.file_data) s
          else ok s)
      else ok (record s { ready_to_recv = false })

  -- The switch over the code.
  unfoldable pub on_response :
      ℕ → Option BlockOption → ℕ × Option (List ℕ) → DtlsProgram M W → Exec (DtlsProgram M W)
  unfolding on_download on_other
  on_response kind block (len, databuf) s =
      if kind == response_content
      then elim block [
        | some b ↦ on_download b len databuf s
        | none ↦ ok (record s { ready_to_recv = false })
      ]
      else if kind == response_changed
      then ok (record s { ready_to_recv = false })
      else on_other kind block s

  -- A message without the token of the request is dropped.
  unfoldable pub message_handler : M → DtlsProgram M W → Exec (DtlsProgram M W)
  unfolding check_token on_response
  message_handler received s =
      if check_token s received
      then on_response (code received) (coap_option_next received) (coap_get_data received) s
      else ok s
