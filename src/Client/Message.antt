-- ===== src/Client/Message.antt =====
-- The message builders of src/exosite.c. Each puts the results of the setters together by `|` and
-- answers EXO_OK if none is an error; what the setters did before an error stays done.
pub mod Answers
pub mod Fill
pub mod Wanted
pub mod Requests
use libexositecoap.Common.{
  ℕ, ◌+◌, List, [], ◌∷◌, length, bit_or, ◌==◌, if◌then◌else◌, u16, Exec, ok, ◌>>=◌,
}
use libexositecoap.Coap.Pdu.{
  Pdu, CoapError, error_number, coap_v1, ct_con, ct_ack, ct_rst, cc_empty, cc_get, cc_post,
  con_observe, con_uri_path, con_uri_query,
}
use libexositecoap.Coap.Fields.{
  coap_init_pdu, coap_set_version, coap_set_type, coap_set_code, coap_set_mid, coap_set_token,
}
use libexositecoap.Coap.Writer.{coap_add_option, coap_set_payload}
use libexositecoap.Pal.{Pal}
use libexositecoap.Client.State.{Client, ExoError, exo_ok, exo_general_error, string_at}
use mathlib.Core.Option.{Option}

-- `ret |= f(pdu)`
unfoldable pub also : ℕ × Pdu → (Pdu → Exec (CoapError × Pdu)) → Exec (ℕ × Pdu)
also (ret, p) f = do (err, q) ← f p; ok (bit_or ret (error_number err), q)

-- Strings of the code, as bytes.
abbrev pub str_1a : List ℕ
str_1a = b'1' ∷ b'a' ∷ []

abbrev pub str_provision : List ℕ
str_provision = b'p' ∷ b'r' ∷ b'o' ∷ b'v' ∷ b'i' ∷ b's' ∷ b'i' ∷ b'o' ∷ b'n' ∷ []

abbrev pub str_activate : List ℕ
str_activate = b'a' ∷ b'c' ∷ b't' ∷ b'i' ∷ b'v' ∷ b'a' ∷ b't' ∷ b'e' ∷ []

abbrev result_of : ℕ → ExoError
result_of ret = if ret == 0 then exo_ok else exo_general_error

-- `coap_add_option` of a string: the length goes through a `uint16_t`.
unfoldable pub add_string : ℕ → List ℕ → Pdu → Exec (CoapError × Pdu)
add_string num s p = coap_add_option p num s (u16 (length s))

-- The first lines of every builder.
unfoldable pub start : Pdu → ℕ → ℕ → ℕ → Exec (ℕ × Pdu)
unfolding also
start pdu mtype code mid = do
  (_, p) ← coap_init_pdu pdu
  (err, q) ← coap_set_version p coap_v1
  s₁ ← also (error_number err, q) (λ p. coap_set_type p mtype)
  s₂ ← also s₁ (λ p. coap_set_code p code)
  also s₂ (λ p. coap_set_mid p mid)

module _ {W : Type 0} (pal : Pal W) where
  open pal use {rand}

  -- A request: the counter gives the message id, and `rand()` two bytes of token.
  unfoldable pub request : Client W → Pdu → ℕ → Exec ((ℕ × Pdu) × Client W)
  unfolding also
  request c pdu code = do
    s ← start pdu ct_con code c.message_id_counter
    let (r, w) = rand c.world
    s₁ ← also s (λ p. coap_set_token p r 2)
    ok (s₁, record c { message_id_counter = u16 (c.message_id_counter + 1); world = w })

  unfoldable pub exo_build_msg_activate : Client W → Pdu → Exec (ExoError × Pdu × Client W)
  unfolding also request add_string
  exo_build_msg_activate c pdu = do
    (s₀, c') ← request c pdu cc_post
    s₁ ← also s₀ (λ p. coap_add_option p con_uri_path str_provision 9)
    s₂ ← also s₁ (λ p. coap_add_option p con_uri_path str_activate 8)
    vendor ← string_at c.vendor
    s₃ ← also s₂ (add_string con_uri_path vendor)
    model ← string_at c.model
    s₄ ← also s₃ (add_string con_uri_path model)
    serial ← string_at c.serial
    (ret, p) ← also s₄ (add_string con_uri_path serial)
    ok (result_of ret, p, c')

  unfoldable pub exo_build_msg_read :
      Client W → Pdu → Option (List ℕ) → Exec (ExoError × Pdu × Client W)
  unfolding also request add_string
  exo_build_msg_read c pdu alias = do
    (s₀, c') ← request c pdu cc_get
    s₁ ← also s₀ (λ p. coap_add_option p con_uri_path str_1a 2)
    name ← string_at alias
    s₂ ← also s₁ (add_string con_uri_path name)
    (ret, p) ← also s₂ (λ p. coap_add_option p con_uri_query c.cik 40)
    ok (result_of ret, p, c')

  unfoldable pub exo_build_msg_observe :
      Client W → Pdu → Option (List ℕ) → Exec (ExoError × Pdu × Client W)
  unfolding also request add_string
  exo_build_msg_observe c pdu alias = do
    (s₀, c') ← request c pdu cc_get
    s₁ ← also s₀ (λ p. coap_add_option p con_observe (0 ∷ []) 1)
    s₂ ← also s₁ (λ p. coap_add_option p con_uri_path str_1a 2)
    name ← string_at alias
    s₃ ← also s₂ (add_string con_uri_path name)
    (ret, p) ← also s₃ (λ p. coap_add_option p con_uri_query c.cik 40)
    ok (result_of ret, p, c')

  unfoldable pub exo_build_msg_write :
      Client W → Pdu → Option (List ℕ) → Option (List ℕ) → Exec (ExoError × Pdu × Client W)
  unfolding also request add_string
  exo_build_msg_write c pdu alias value = do
    (s₀, c') ← request c pdu cc_post
    s₁ ← also s₀ (λ p. coap_add_option p con_uri_path str_1a 2)
    name ← string_at alias
    s₂ ← also s₁ (add_string con_uri_path name)
    s₃ ← also s₂ (λ p. coap_add_option p con_uri_query c.cik 40)
    text ← string_at value
    (ret, p) ← also s₃ (λ p. coap_set_payload p text (length text))
    ok (result_of ret, p, c')

unfoldable pub exo_build_msg_rst : Pdu → ℕ → ℕ → ℕ → Exec (ExoError × Pdu)
unfolding also start
exo_build_msg_rst pdu mid token tkl = do
  s ← start pdu ct_rst cc_empty mid
  (ret, p) ← also s (λ p. coap_set_token p token tkl)
  ok (result_of ret, p)

unfoldable pub exo_build_msg_ack : Pdu → ℕ → Exec (ExoError × Pdu)
unfolding start
exo_build_msg_ack pdu mid = do (ret, p) ← start pdu ct_ack cc_empty mid; ok (result_of ret, p)
