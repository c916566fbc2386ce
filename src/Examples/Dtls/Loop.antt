-- ===== src/Examples/Dtls/Loop.antt =====
-- The callbacks of tinyDTLS and the loop of `main` in picocoap/examples/posix/client_dtls.c.
use libexositecoap.Common.{
  ℕ, zero, suc, ◌+◌, ◌-◌, List, [], ◌∷◌, Bool, true, false, not, ◌&&◌, length, ltb, leb, ◌==◌,
  if◌then◌else◌, bit_and, Exec, ok, fault, ◌>>=◌,
}
use libexositecoap.Memory.{read}
use libexositecoap.Examples.Dtls.{
  Libs, Callback, event_callback, read_callback, Selected, select_error, select_timeout,
  select_ready, DtlsProgram, buf_size, max_retry, timeout_seconds, test_read, test_write,
}
use libexositecoap.Examples.Dtls.Request.{get_pdu_read1p, get_pdu_write1p}
use libexositecoap.Examples.Dtls.Handler.{message_handler, set_send_timestamp, write_pdu}
use mathlib.Core.Option.{Option, none, some}

-- How a round of the loop ends: with another, or by `break`.
pub data Turn (S : Type 0) : Type 0 where
  goes_on : S → Turn S
  breaks : S → Turn S

abbrev is_zero : Option ℕ → Bool
is_zero none = false
is_zero (some fd) = fd == 0

module _ {M W : Type 0} (libs : Libs M W) where
  open libs use {
    wire, dtls_event_connected, coap_new_pdu, coap_pdu_parse, dtls_write, dtls_handle_message,
    recvfrom, select, fd_isset, time,
  }

  unfoldable pub handle_event : ℕ → DtlsProgram M W → DtlsProgram M W
  handle_event event s =
      if event == dtls_event_connected then record s { dtls_connected = true } else s

  unfoldable pub read_from_server : List ℕ → DtlsProgram M W → Exec (DtlsProgram M W)
  read_from_server record_data s =
      let (made, w) = coap_new_pdu s.system.world in
      let s₁ = record s { system = record s.system { world = w } } in
      elim made [
        | none ↦ fault
        | some pdu ↦ elim (coap_pdu_parse record_data pdu) [
          | none ↦ ok s₁
          | some received ↦ message_handler libs received s₁
        ]
      ]

  -- The callbacks in the order in which tinyDTLS makes them.
  unfoldable pub run_callbacks : List Callback → DtlsProgram M W → Exec (DtlsProgram M W)
  unfolding handle_event read_from_server
  run_callbacks [] s = ok s
  run_callbacks (event_callback event ∷ rest) s = run_callbacks rest (handle_event event s)
  run_callbacks (read_callback record_data ∷ rest) s = do
    s' ← read_from_server record_data s
    run_callbacks rest s'

  unfoldable pub dtls_handle_read : DtlsProgram M W → Exec (DtlsProgram M W)
  unfolding run_callbacks
  dtls_handle_read s =
      if is_zero s.sock
      then ok s
      else (let (received, w) = recvfrom buf_size s.system.world in
          elim received [
            | none ↦ ok (record s { system = record s.system { world = w } })
            | some datagram ↦
                let (callbacks, w₁) = dtls_handle_message datagram w in
                run_callbacks callbacks (record s { system = record s.system { world = w₁ } })
          ])

  -- The message sent last again, at the length of `sent_pdu`.
  unfoldable pub write_again : DtlsProgram M W → Exec (DtlsProgram M W)
  unfolding set_send_timestamp
  write_again s = elim s.sent_pdu [
    | none ↦ fault
    | some pdu ↦ do
      bytes ← read s.last_sent.message 0 (length (wire pdu))
      ok (
          set_send_timestamp libs pdu
            (record s { system = record s.system { world = dtls_write bytes s.system.world } }))
  ]

  -- `select` timed out.
  unfoldable pub on_timeout : DtlsProgram M W → Exec (Turn (DtlsProgram M W))
  unfolding write_again
  on_timeout s =
      if ltb 0 s.last_sent.out && s.last_sent.ack == 0
      then (let (now, w) = time s.system.world in
          let s₁ = record s { system = record s.system { world = w } } in
          if ltb (s.last_sent.out + timeout_seconds) now
          then (if leb s.last_sent.retry max_retry
              then (do s₂ ← write_again s₁; ok (goes_on s₂))
              else ok (breaks s₁))
          else ok (goes_on s₁))
      else ok (goes_on s)

  -- What `select` reports.
  unfoldable pub on_select : Selected → DtlsProgram M W → Exec (Turn (DtlsProgram M W))
  unfolding on_timeout dtls_handle_read
  on_select select_error s = ok (goes_on s)
  on_select select_timeout s = on_timeout s
  on_select select_ready s =
      if fd_isset s.sock s.system.world
      then (do s' ← dtls_handle_read s; ok (goes_on s'))
      else ok (goes_on s)

  -- A request that is sent, and waits for its answer.
  unfoldable pub start_request :
      Exec (Option M × DtlsProgram M W) → ℕ → Exec (Turn (DtlsProgram M W))
  unfolding write_pdu
  start_request run test = do
    made ← run
    (pdu, s) ← write_pdu libs made
    ok (goes_on (record s { test_cases = s.test_cases - test; ready_to_recv = true }))

  unfoldable pub finish : DtlsProgram M W → Turn (DtlsProgram M W)
  finish s = if s.test_cases == 0 && not s.ready_to_recv then breaks s else goes_on s

  -- The end of a round: the next request, if the session stands and no answer is awaited.
  unfoldable pub next_request : DtlsProgram M W → Exec (Turn (DtlsProgram M W))
  unfolding start_request finish
  next_request s =
      if s.dtls_connected && not s.ready_to_recv
      then (if not (bit_and s.test_cases test_write == 0)
          then start_request (get_pdu_write1p libs s s.cik s.alias s.value_to_write) test_write
          else if not (bit_and s.test_cases test_read == 0)
          then start_request (get_pdu_read1p libs s s.cik s.alias) test_read
          else ok (finish s))
      else ok (finish s)

  unfoldable pub loop_round : DtlsProgram M W → Exec (Turn (DtlsProgram M W))
  unfolding on_select next_request
  loop_round s = do
    let (selected, w) = select s.system.world
    turn ← on_select selected (record s { system = record s.system { world = w } })
    elim turn [ breaks s' ↦ ok (breaks s') | goes_on s' ↦ next_request s' ]

  -- At most `n` rounds of the loop, which has no bound of its own.
  unfoldable pub loop_rounds : ℕ → DtlsProgram M W → Exec (Turn (DtlsProgram M W))
  unfolding loop_round
  loop_rounds zero s = ok (goes_on s)
  loop_rounds (suc n) s = do
    turn ← loop_round s
    elim turn [ breaks s' ↦ ok (breaks s') | goes_on s' ↦ loop_rounds n s' ]
