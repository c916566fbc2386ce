-- ===== src/Examples/Print.antt =====
-- `hex_dump` and `coap_pretty_print` of picocoap/examples/posix/client.c. What a call prints is a
-- list of lines, each with the arguments of its `printf`.
pub mod Options
pub mod Message
use libexositecoap.Common.{
  ℕ, zero, suc, ◌+◌, ◌-◌, ◌*◌, ◌/◌, ◌%◌, ◌^◌, List, [], ◌∷◌, ◌++◌, Bool, true, false, not, ◌&&◌,
  drop, ltb, ◌==◌, if◌then◌else◌, Exec, ok, fault, stuck, ◌>>=◌,
}
use libexositecoap.Memory.{peek}
use libexositecoap.Coap.Pdu.{Pdu, Ptr, null, at, CoapOption, CoapError, ce_none}
use libexositecoap.Coap.Fields.{
  coap_get_type, coap_get_code_class, coap_get_code_detail, coap_get_mid, coap_get_token,
}
use libexositecoap.Coap.Reader.{coap_validate_pkt, coap_get_option, no_option}
use libexositecoap.Client.State.{c_string}
use mathlib.Core.Option.{Option, none, some}

pub data Line : Type 0 where
  valid_packet : ℕ → Line
  type_line : ℕ → Line
  code_line : ℕ → ℕ → Line
  mid_line : ℕ → Line
  token_line : ℕ → Line
  option_line : ℕ → Line
  value_line : List ℕ → ℕ → Line
  payload_line : List ℕ → ℕ → Line
  non_coap : ℕ → Line
  -- The offset, 16 cells, and the text.
  dump_line : ℕ → List (Option ℕ) → List ℕ → Line

-- `%.*s` of at most `n` characters, which a 0 ends, at an index.
unfoldable pub text_at : ℕ → List ℕ → ℕ → Exec (List ℕ)
text_at zero bytes i = ok []
text_at (suc n) bytes i = do
  b ← peek bytes i
  let rest = (do s ← text_at n bytes (i + 1); ok (b ∷ s))
  if b == 0 then ok [] else rest

-- The precision is `(int)len`, and a negative one is no bound.
unfoldable pub print_text : Pdu → ℕ → ℕ → Exec (List ℕ)
unfolding text_at
print_text p i len =
    let n = len % 2 ^ 32 in
    if ltb n (2 ^ 31) then text_at n p.bytes i else c_string (drop i p.bytes)

-- A cell of a row: the byte there, or a blank from `len` on.
unfoldable pub cell_at : ℕ → List ℕ → ℕ → Exec (Option ℕ)
cell_at len bytes i = if ltb i len then (do b ← peek bytes i; ok (some b)) else ok none

unfoldable pub cells : ℕ → ℕ → List ℕ → ℕ → Exec (List (Option ℕ))
unfolding cell_at
cells zero len bytes i = ok []
cells (suc n) len bytes i = do
  cell ← cell_at len bytes i
  rest ← cells n len bytes (i + 1)
  ok (cell ∷ rest)

-- The rows from `i` on; `n` of them are left.
unfoldable pub dump_rows : ℕ → List ℕ → ℕ → ℕ → Exec (List Line)
unfolding cells text_at
dump_rows zero bytes len i = ok []
dump_rows (suc n) bytes len i = do
  row ← cells 16 len bytes i
  text ← text_at (if ltb (len - i) 16 then len - i else 16) bytes i
  rest ← dump_rows n bytes len (i + 16)
  ok (dump_line i row text ∷ rest)

unfoldable pub hex_dump : List ℕ → ℕ → Exec (List Line)
unfolding dump_rows
hex_dump bytes len = dump_rows ((len + 15) / 16) bytes len 0

-- `if (opt.val != NULL && opt.len != 0)` and the line that it guards.
unfoldable pub print_value : (List ℕ → ℕ → Line) → Pdu → CoapOption → Exec (List Line)
unfolding print_text
print_value line p opt = elim opt.val [
  | null ↦ ok []
  | at i ↦ if opt.len == 0 then ok [] else do s ← print_text p i opt.len; ok (line s opt.len ∷ [])
]

-- The loop over the options, with what it leaves in `opt`.
unfoldable pub print_options : ℕ → Pdu → CoapOption → Exec (List Line × CoapOption)
unfolding print_value
print_options zero p last = stuck
print_options (suc fuel) p last = do
  opt ← coap_get_option p last
  elim (opt.num == 0) [
    | true ↦ ok ([], opt)
    | false ↦ do
      value ← print_value value_line p opt
      (rest, end) ← print_options fuel p opt
      ok (option_line opt.num ∷ (value ++ rest), end)
  ]

unfoldable pub print_header : Pdu → Exec (List Line)
print_header p = do
  mtype ← coap_get_type p
  class ← coap_get_code_class p
  detail ← coap_get_code_detail p
  mid ← coap_get_mid p
  token ← coap_get_token p
  ok (
      valid_packet p.len
      ∷ type_line mtype
      ∷ code_line class detail
      ∷ mid_line mid
      ∷ token_line token
      ∷ [])

-- The loop over the options has `fuel` rounds.
unfoldable pub coap_pretty_print : ℕ → Pdu → Exec (List Line)
unfolding print_header print_options print_value hex_dump
coap_pretty_print fuel pdu = do
  (err, p) ← coap_validate_pkt pdu
  elim err [
    | ce_none ↦ do
      header ← print_header p
      (options, opt) ← print_options fuel p no_option
      payload ← print_value payload_line p opt
      ok (header ++ (options ++ payload))
    | _ ↦ do rows ← hex_dump p.bytes p.len; ok (non_coap p.len ∷ rows)
  ]
