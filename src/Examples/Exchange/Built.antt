-- ===== src/Examples/Exchange/Built.antt =====
-- The message that picocoap/examples/posix/client.c builds.
use libexositecoap.Common.{
  ℕ, ◌+◌, ◌^◌, ◌≤◌, ◌<◌, ◌≡◌, refl, ap, ◌∙◌, List, [], length, arith, Exec, ok, >>=-eq-ok,
}
use libexositecoap.Coap.Pdu.{Pdu, Ptr, CoapError, ct_con, cc_get}
use libexositecoap.Coap.Wire.{
  Message, IsEncodable, reset_message, encode, encode_options, encode_payload, encode_body,
  option_header, nibble, extension, holding,
}
use libexositecoap.Coap.Fields.{le_bytes}
use libexositecoap.Coap.Fields.Laws.{
  init_pdu-blank, set_version-holding, set_type-holding, set_code-holding, set_mid-holding,
}
use libexositecoap.Coap.Fields.Token.{with_token}
use libexositecoap.Coap.Writer.Insert.{with_option}
use libexositecoap.Client.Message.{also, str_1a}
use libexositecoap.Client.Message.Answers.{blank, headed, headed-IsEncodable}
use libexositecoap.Client.Message.Fill.{
  Filled, length-headed, length-with_option, length-encode-tokened, tokened-IsOpen, token_step,
  option_step,
}
use libexositecoap.Client.Message.Wanted.{read_request, uri_path, uri_query}
use libexositecoap.Client.Send.Asked.{request_message-IsEncodable}
use libexositecoap.Examples.Exchange.{temp, cik_text, build_get}
use mathlib.Core.Option.{none}

ok-second {ℓ κ} : {A : Type ℓ} {B : Type κ} {x y : A × B} → ok x ≡ ok y → x.1 ≡ y.1
ok-second {x = (a, b)} {y = (a', b')} e = cc

-- A step that adds its error to those before is a step.
also-alone :
    (p q : Pdu) (r : ℕ) (f : Pdu → Exec (CoapError × Pdu))
    → also (0, p) f ≡ ok (r, q)
    → (err : CoapError) × (f p ≡ ok (err, q))
unfolding also
also-alone p q r f e =
    let ((err, q'), run, end) = >>=-eq-ok (f p) _ e in
    (err, run ∙ ap (λ (t : Pdu). ok (err, t)) (ok-second end))

module _ (base x y z w len : ℕ) (spare : List ℕ) (opt_ptr : Ptr) (mid token : ℕ)
    (counter : mid < 65536) (top : 4 + length spare < 2 ^ 63) (room : 56 ≤ 4 + length spare) where
  pub asked_size : length (encode (read_request mid token temp cik_text)) ≡ 56
  unfolding encode encode_body encode_options option_header nibble extension encode_payload le_bytes
  asked_size = refl

  pub build_get-Filled :
      (q : Pdu) × (build_get (blank base x y z w spare len opt_ptr) mid token ≡ ok q)
      × Filled base (4 + length spare) (read_request mid token temp cik_text) q
  unfolding build_get
  build_get-Filled =
      let n : ℕ = 4 + length spare in
      let m₀ : Message = with_token (headed ct_con cc_get mid) (le_bytes 2 token) in
      let v₀ = tokened-IsOpen ct_con cc_get mid token (omega arith) (omega arith) counter in
      let m₁ : Message = with_option m₀ (uri_path str_1a) in
      let m₂ : Message = with_option m₁ (uri_path temp) in
      let size = length-encode-tokened ct_con cc_get mid token in
      let size₁ = length-with_option m₀ (uri_path str_1a) refl in
      let size₂ = length-with_option m₁ (uri_path temp) refl in
      let size₃ = length-with_option m₂ (uri_query cik_text) refl in
      let whole = asked_size in
      let (q₀, e₀, f₀) =
        token_step base n top ct_con cc_get mid token
          (holding base (headed ct_con cc_get mid) spare) (omega arith) (omega arith) counter
          (omega arith)
          (record { spare = spare; shape = refl; size = length-headed ct_con cc_get mid spare }) in
      let (q₁, e₁, f₁, v₁) =
        option_step base n top m₀ q₀ (uri_path str_1a) str_1a [] 2 refl refl v₀ f₀ tt (omega arith)
          (omega arith) (omega arith) in
      let (q₂, e₂, f₂, v₂) =
        option_step base n top m₁ q₁ (uri_path temp) temp [] 4 refl refl v₁ f₁ (refl, tt)
          (omega arith) (omega arith) (omega arith) in
      let (q₃, e₃, f₃, v₃) =
        option_step base n top m₂ q₂ (uri_query cik_text) cik_text [] 40 refl refl v₂ f₂
          (refl, (refl, tt)) (omega arith) (omega arith) (omega arith) in
      let (r₀, s₀) = also-alone _ q₀ 0 _ e₀ in
      let (r₁, s₁) = also-alone q₀ q₁ 0 _ e₁ in
      let (r₂, s₂) = also-alone q₁ q₂ 0 _ e₂ in
      let (r₃, s₃) = also-alone q₂ q₃ 0 _ e₃ in
      (
        q₃,
        rw (
          init_pdu-blank base x y z w len opt_ptr spare,
          set_version-holding base reset_message spare
              (headed-IsEncodable 3 0 0 (omega arith) (omega arith) (omega arith)),
          set_type-holding base reset_message spare
              (headed-IsEncodable 3 0 0 (omega arith) (omega arith) (omega arith)) ct_con
              (omega arith),
          set_code-holding base (headed ct_con 0 0) spare
              (headed-IsEncodable ct_con 0 0 (omega arith) (omega arith) (omega arith)) cc_get
              (omega arith),
          set_mid-holding base (headed ct_con cc_get 0) spare
              (headed-IsEncodable ct_con cc_get 0 (omega arith) (omega arith) (omega arith)) mid
              counter,
          s₀,
          s₁,
          s₂,
          s₃,
        ),
        f₃,
      )

abbrev pub asked_message : ℕ → ℕ → Message
asked_message mid token = read_request mid token temp cik_text

pub asked-IsEncodable : (mid token : ℕ) → mid < 65536 → IsEncodable (asked_message mid token)
asked-IsEncodable mid token counter =
    request_message-IsEncodable cc_get mid token _ none (omega arith) counter (ground arith)
