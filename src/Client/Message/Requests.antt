-- ===== src/Client/Message/Requests.antt =====
-- The four requests that the builders of src/exosite.c make.
use libexositecoap.Common.{ℕ, ◌+◌, ◌^◌, ◌≤◌, ◌<◌, ◌≡◌, refl, List, [], ◌∷◌, ◌++◌, length, arith, ok}
use libexositecoap.Coap.Pdu.{Pdu, Ptr, ct_con, cc_get, cc_post}
use libexositecoap.Coap.Wire.{Message, encode, holding}
use libexositecoap.Coap.Fields.{le_bytes}
use libexositecoap.Coap.Fields.Token.{with_token}
use libexositecoap.Coap.Writer.Insert.{with_option}
use libexositecoap.Coap.Writer.SetPayload.{with_payload}
use libexositecoap.Pal.{Pal}
use libexositecoap.Client.State.{Client, exo_ok, string_at}
use libexositecoap.Client.Message.{
  str_1a, str_provision, str_activate, request, exo_build_msg_activate, exo_build_msg_read,
  exo_build_msg_observe, exo_build_msg_write,
}
use libexositecoap.Client.Message.Answers.{blank, headed, start_lem}
use libexositecoap.Client.Message.Fill.{
  Filled, length-headed, length-with_option, length-with_payload, length-encode-tokened,
  tokened-IsOpen, token_step, option_step, string_step, payload_step,
}
use libexositecoap.Client.Message.Wanted.{
  activate_request, observe, observe_request, read_request, requested, uri_path, uri_query,
  write_request,
}
use mathlib.Core.Option.{Option}

module _ {W : Type 0} (pal : Pal W) (c : Client W) (base x y z w len : ℕ) (spare : List ℕ)
    (opt_ptr : Ptr) (counter : c.message_id_counter < 65536) (top : 4 + length spare < 2 ^ 63) where
  abbrev n : ℕ
  n = 4 + length spare

  abbrev token : ℕ
  token = (pal.rand c.world).0

  abbrev first : ℕ → Message
  first code = with_token (headed ct_con code c.message_id_counter) (le_bytes 2 token)

  request_step :
      (code : ℕ)
      → code < 256
      → 6 ≤ n
      → (q : Pdu) × (request pal c (blank base x y z w spare len opt_ptr) code
          ≡ ok ((0, q), requested pal c))
        × Filled base n (first code) q
  unfolding request
  request_step code b room =
      let (q, e, f) =
        token_step base n top ct_con code c.message_id_counter token
          (holding base (headed ct_con code c.message_id_counter) spare) (omega arith) b counter
          room
          (record {
            spare = spare;
            shape = refl;
            size = length-headed ct_con code c.message_id_counter spare;
          }) in
      (
        q,
        rw (
          start_lem base x y z w len spare opt_ptr c.message_id_counter counter ct_con code
              (omega arith) b,
          e,
        ),
        f,
      )

  module _ (key rest : List ℕ) (key_size : length key ≡ 40) (cik : c.cik ≡ key ++ rest)
      (alias : Option (List ℕ)) (name : List ℕ) (named : string_at alias ≡ ok name)
      (short : length name < 65536) where
    -- `exo_build_msg_read` on a buffer of 4 bytes or more and less than 2^63, with the alias a string of
    -- less than 2^16 characters, 40 bytes of CIK and a counter of 16 bits: if the request fits, it
    -- answers EXO_OK, the buffer holds the confirmable GET of the resource with the counter as its
    -- message id, two random bytes as its token and the CIK as its query, and the counter moves on.
    pub build_msg_read-Filled :
        length (encode (read_request c.message_id_counter token name key)) ≤ n
        → (q : Pdu) × (exo_build_msg_read pal c (blank base x y z w spare len opt_ptr) alias
            ≡ ok (exo_ok, q, requested pal c))
          × Filled base n (read_request c.message_id_counter token name key) q
    unfolding exo_build_msg_read
    build_msg_read-Filled fits =
        let m₀ : Message = first cc_get in
        let v₀ =
          tokened-IsOpen ct_con cc_get c.message_id_counter token (omega arith) (omega arith)
            counter in
        let m₁ : Message = with_option m₀ (uri_path str_1a) in
        let m₂ : Message = with_option m₁ (uri_path name) in
        let size = length-encode-tokened ct_con cc_get c.message_id_counter token in
        let size₁ = length-with_option m₀ (uri_path str_1a) refl in
        let size₂ = length-with_option m₁ (uri_path name) refl in
        let size₃ = length-with_option m₂ (uri_query key) refl in
        let (q₀, e₀, f₀) = request_step cc_get (omega arith) (omega arith) in
        let (q₁, e₁, f₁, v₁) =
          option_step base n top m₀ q₀ (uri_path str_1a) str_1a [] 2 refl refl v₀ f₀ tt
            (omega arith) (omega arith) (omega arith) in
        let (q₂, e₂, f₂, v₂) =
          string_step base n top m₁ q₁ (uri_path name) v₁ f₁ (refl, tt) (omega arith) short
            (omega arith) in
        let (q₃, e₃, f₃, v₃) =
          option_step base n top m₂ q₂ (uri_query key) c.cik rest 40 cik (omega arith) v₂ f₂
            (refl, (refl, tt)) (omega arith) (omega arith) fits in
        (q₃, rw (e₀, e₁, named, e₂, e₃), f₃)

    -- `exo_build_msg_observe` under the same conditions: the same request with an Observe option of one
    -- byte 0 in front of the others.
    pub build_msg_observe-Filled :
        length (encode (observe_request c.message_id_counter token name key)) ≤ n
        → (q : Pdu) × (exo_build_msg_observe pal c (blank base x y z w spare len opt_ptr) alias
            ≡ ok (exo_ok, q, requested pal c))
          × Filled base n (observe_request c.message_id_counter token name key) q
    unfolding exo_build_msg_observe
    build_msg_observe-Filled fits =
        let m₀ : Message = first cc_get in
        let v₀ =
          tokened-IsOpen ct_con cc_get c.message_id_counter token (omega arith) (omega arith)
            counter in
        let m₁ : Message = with_option m₀ observe in
        let m₂ : Message = with_option m₁ (uri_path str_1a) in
        let m₃ : Message = with_option m₂ (uri_path name) in
        let size = length-encode-tokened ct_con cc_get c.message_id_counter token in
        let size₁ = length-with_option m₀ observe refl in
        let size₂ = length-with_option m₁ (uri_path str_1a) refl in
        let size₃ = length-with_option m₂ (uri_path name) refl in
        let size₄ = length-with_option m₃ (uri_query key) refl in
        let (q₀, e₀, f₀) = request_step cc_get (omega arith) (omega arith) in
        let (q₁, e₁, f₁, v₁) =
          option_step base n top m₀ q₀ observe (0 ∷ []) [] 1 refl refl v₀ f₀ tt (omega arith)
            (omega arith) (omega arith) in
        let (q₂, e₂, f₂, v₂) =
          option_step base n top m₁ q₁ (uri_path str_1a) str_1a [] 2 refl refl v₁ f₁ (refl, tt)
            (omega arith) (omega arith) (omega arith) in
        let (q₃, e₃, f₃, v₃) =
          string_step base n top m₂ q₂ (uri_path name) v₂ f₂ (refl, (refl, tt)) (omega arith) short
            (omega arith) in
        let (q₄, e₄, f₄, v₄) =
          option_step base n top m₃ q₃ (uri_query key) c.cik rest 40 cik (omega arith) v₃ f₃
            (refl, (refl, (refl, tt))) (omega arith) (omega arith) fits in
        (q₄, rw (e₀, e₁, e₂, named, e₃, e₄), f₄)

    -- `exo_build_msg_write` under the same conditions, with the value a string: the POST to the resource
    -- with the value as its payload.
    pub build_msg_write-Filled :
        (value : Option (List ℕ)) (text : List ℕ)
        → string_at value ≡ ok text
        → length (encode (write_request c.message_id_counter token name key text)) ≤ n
        → (q : Pdu) × (exo_build_msg_write pal c (blank base x y z w spare len opt_ptr) alias value
            ≡ ok (exo_ok, q, requested pal c))
          × Filled base n (write_request c.message_id_counter token name key text) q
    unfolding exo_build_msg_write with_payload
    build_msg_write-Filled value text valued fits =
        let m₀ : Message = first cc_post in
        let v₀ =
          tokened-IsOpen ct_con cc_post c.message_id_counter token (omega arith) (omega arith)
            counter in
        let m₁ : Message = with_option m₀ (uri_path str_1a) in
        let m₂ : Message = with_option m₁ (uri_path name) in
        let m₃ : Message = with_option m₂ (uri_query key) in
        let size = length-encode-tokened ct_con cc_post c.message_id_counter token in
        let size₁ = length-with_option m₀ (uri_path str_1a) refl in
        let size₂ = length-with_option m₁ (uri_path name) refl in
        let size₃ = length-with_option m₂ (uri_query key) refl in
        let size₄ = length-with_payload m₃ text refl in
        let (q₀, e₀, f₀) = request_step cc_post (omega arith) (omega arith) in
        let (q₁, e₁, f₁, v₁) =
          option_step base n top m₀ q₀ (uri_path str_1a) str_1a [] 2 refl refl v₀ f₀ tt
            (omega arith) (omega arith) (omega arith) in
        let (q₂, e₂, f₂, v₂) =
          string_step base n top m₁ q₁ (uri_path name) v₁ f₁ (refl, tt) (omega arith) short
            (omega arith) in
        let (q₃, e₃, f₃, v₃) =
          option_step base n top m₂ q₂ (uri_query key) c.cik rest 40 cik (omega arith) v₂ f₂
            (refl, (refl, tt)) (omega arith) (omega arith) (omega arith) in
        let (q₄, e₄, f₄) = payload_step base n top m₃ q₃ text v₃ f₃ fits in
        (q₄, rw (e₀, e₁, named, e₂, e₃, valued, e₄), f₄)

  -- `exo_build_msg_activate` on a buffer of 4 bytes or more and less than 2^63, with a counter of 16
  -- bits and the three names strings of less than 2^16 characters: if the request fits, it answers
  -- EXO_OK, the buffer holds the confirmable POST to `provision/activate/` with the three names, with
  -- the counter as its message id and two random bytes as its token, and the counter moves on.
  pub build_msg_activate-Filled :
      (vendor model serial : List ℕ)
      → string_at c.vendor ≡ ok vendor
      → string_at c.model ≡ ok model
      → string_at c.serial ≡ ok serial
      → length vendor < 65536
      → length model < 65536
      → length serial < 65536
      → length (encode (activate_request c.message_id_counter token vendor model serial)) ≤ n
      → (q : Pdu) × (exo_build_msg_activate pal c (blank base x y z w spare len opt_ptr)
          ≡ ok (exo_ok, q, requested pal c))
        × Filled base n (activate_request c.message_id_counter token vendor model serial) q
  unfolding exo_build_msg_activate
  build_msg_activate-Filled vendor model serial ev em es sv sm ss fits =
      let m₀ : Message = first cc_post in
      let v₀ =
        tokened-IsOpen ct_con cc_post c.message_id_counter token (omega arith) (omega arith)
          counter in
      let m₁ : Message = with_option m₀ (uri_path str_provision) in
      let m₂ : Message = with_option m₁ (uri_path str_activate) in
      let m₃ : Message = with_option m₂ (uri_path vendor) in
      let m₄ : Message = with_option m₃ (uri_path model) in
      let size = length-encode-tokened ct_con cc_post c.message_id_counter token in
      let size₁ = length-with_option m₀ (uri_path str_provision) refl in
      let size₂ = length-with_option m₁ (uri_path str_activate) refl in
      let size₃ = length-with_option m₂ (uri_path vendor) refl in
      let size₄ = length-with_option m₃ (uri_path model) refl in
      let size₅ = length-with_option m₄ (uri_path serial) refl in
      let (q₀, e₀, f₀) = request_step cc_post (omega arith) (omega arith) in
      let (q₁, e₁, f₁, v₁) =
        option_step base n top m₀ q₀ (uri_path str_provision) str_provision [] 9 refl refl v₀ f₀ tt
          (omega arith) (omega arith) (omega arith) in
      let (q₂, e₂, f₂, v₂) =
        option_step base n top m₁ q₁ (uri_path str_activate) str_activate [] 8 refl refl v₁ f₁
          (refl, tt) (omega arith) (omega arith) (omega arith) in
      let (q₃, e₃, f₃, v₃) =
        string_step base n top m₂ q₂ (uri_path vendor) v₂ f₂ (refl, (refl, tt)) (omega arith) sv
          (omega arith) in
      let (q₄, e₄, f₄, v₄) =
        string_step base n top m₃ q₃ (uri_path model) v₃ f₃ (refl, (refl, (refl, tt))) (omega arith)
          sm (omega arith) in
      let (q₅, e₅, f₅, v₅) =
        string_step base n top m₄ q₄ (uri_path serial) v₄ f₄ (refl, (refl, (refl, (refl, tt))))
          (omega arith) ss fits in
      (q₅, rw e₀ (rw e₁ (rw e₂ (rw (ev, e₃) (rw (em, e₄) (rw (es, e₅)))))), f₅)
