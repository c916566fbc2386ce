-- ===== src/Examples/Dtls/Blocks.antt =====
-- Strings in arrays, and the request for the next block, in
-- picocoap/examples/posix/client_dtls.c.
use libexositecoap.Common.{
  ℕ, ◌+◌, ◌≤◌, ◌<◌, ◌≡◌, ◌≢◌, ◌⊎◌, inl, inr, refl, sym, ap, ◌∙◌, List, [], ◌∷◌, ◌++◌, true, length,
  All, drop, length-append, append_assoc, take-append-drop, take, length-take_le, arith, ok,
}
use libexositecoap.Memory.Local.{write_here}
use libexositecoap.Client.State.{c_string}
use libexositecoap.Examples.Dtls.{Libs, DtlsOption, System, DtlsProgram, buf_size}
use libexositecoap.Examples.Dtls.Request.{
  coap_new_request, options_of, get_pdu_download_content, get_pdu, pdu_of, join_strings,
  download_url, slash, ask, request_get,
}
use libexositecoap.Examples.Dtls.Handler.{
  same_bytes, strcat, next_block, set_send_timestamp, set_ack_timestamp, write_pdu,
}
use mathlib.Core.Option.{Option, none, some}

-- Text without a 0.
abbrev pub IsText : List ℕ → Type 0
IsText bytes = All (λ b. 1 ≤ b) bytes

c_string-text : (text rest : List ℕ) → IsText text → c_string (text ++ (0 ∷ rest)) ≡ ok text
unfolding c_string
c_string-text [] rest h = refl
c_string-text (x ∷ text) rest (one, h) = ground (arith, one, c_string-text text rest h)

pub All-append : (xs ys : List ℕ) → IsText xs → IsText ys → IsText (xs ++ ys)
All-append [] ys h k = k
All-append (x ∷ xs) ys (one, h) k = (one, All-append xs ys h k)

-- A string that fits behind another one in the array.
pub strcat-text :
    (text more rest behind : List ℕ)
    → IsText text
    → IsText more
    → length more ≤ length rest
    → strcat (text ++ (0 ∷ rest)) (more ++ (0 ∷ behind))
      ≡ ok ((text ++ more) ++ (0 ∷ drop (length more) rest))
unfolding strcat
strcat-text text more rest behind h k fits =
    let kept : List ℕ = drop (length more) rest in
    let old : List ℕ = 0 ∷ take (length more) rest in
    let split : 0 ∷ rest ≡ old ++ kept =
      ap (λ t. 0 ∷ t) (sym (take-append-drop (length more) rest)) in
    let as_long : length old ≡ length (more ++ (0 ∷ [])) =
      omega (arith, length-append more (0 ∷ []), length-take_le (length more) rest fits) in
    let joined : text ++ ((more ++ (0 ∷ [])) ++ kept) ≡ (text ++ more) ++ (0 ∷ kept) =
      ap (λ t. text ++ t) (append_assoc more (0 ∷ []) kept)
      ∙ sym (append_assoc text more (0 ∷ kept)) in
    rw (c_string-text text rest h, c_string-text more behind k, split)
      (write_here text (length text) refl old (more ++ (0 ∷ [])) kept as_long
        ∙ ap (λ t. ok t) joined)

pub same_bytes_refl : (xs : List ℕ) → same_bytes xs xs ≡ true
unfolding same_bytes
same_bytes_refl [] = refl
same_bytes_refl (x ∷ xs) = ground (arith, same_bytes_refl xs)

-- The length of the strings put together.
abbrev pub total : List (List ℕ) → ℕ
total [] = 0
total (part ∷ parts) = length part + total parts

pub join_strings-fits :
    (dest : List ℕ) (parts : List (List ℕ))
    → length dest + total parts < buf_size
    → (url : List ℕ) × (join_strings dest parts ≡ ok url)
unfolding join_strings
join_strings-fits dest [] h = (dest, ground (arith, h))
join_strings-fits dest (part ∷ parts) h =
    let (url, e) =
      join_strings-fits (dest ++ part) parts (omega (arith, h, length-append dest part)) in
    (url, ground (arith, h, e))

Option-cases : {A : Type 0} (o : Option A) → (o ≡ none) ⊎ ((a : A) × (o ≡ some a))
Option-cases none = inl refl
Option-cases (some a) = inr (a, refl)

module _ {M W : Type 0} (libs : Libs M W)
    (memory : (w : W) → (pdu : M) × ((libs.coap_new_pdu w).0 ≡ some pdu)) where
  new_request-ne-none :
      (s : DtlsProgram M W) (method : ℕ) (options : List DtlsOption) (payload : List ℕ)
      (sys : System W)
      → (coap_new_request libs s method options payload sys).0 ≢ none
  unfolding coap_new_request
  new_request-ne-none s method options payload sys failed =
      let (pdu, e) = memory sys.world in ground (arith, e)

  new_request-some :
      (s : DtlsProgram M W) (method : ℕ) (options : List DtlsOption) (payload : List ℕ)
      (sys : System W)
      → (pdu : M) × (sys' : System W) × (coap_new_request libs s method options payload sys
          ≡ (some pdu, sys'))
  new_request-some s method options payload sys =
      let run : Option M × System W = coap_new_request libs s method options payload sys in
      elim (Option-cases run.0) [
        | inl failed ↦ absurd (new_request-ne-none s method options payload sys failed)
        | inr (made, e) ↦ (made, run.1, ap (λ m. (m, run.1)) e)
      ]

  pub get_pdu-some :
      (s : DtlsProgram M W) (url : List ℕ) (method : ℕ) (payload : List ℕ)
      → (pdu : M) × (sys : System W) × (get_pdu libs s url method payload ≡ (some pdu, sys))
  unfolding get_pdu
  get_pdu-some s url method payload =
      let (options, sys) = options_of libs s url method payload in
      new_request-some s method options payload sys

  -- What the URL of a download is made of.
  abbrev pub url_parts : DtlsProgram M W → List (List ℕ)
  url_parts s = s.vendor ∷ slash ∷ s.model ∷ slash ∷ s.content_id ∷ ask ∷ s.client_model_cik ∷ []

  abbrev pub Fits : DtlsProgram M W → Type 0
  Fits s = length download_url + total (url_parts s) < buf_size

  -- The program once the next block is asked for.
  abbrev pub after : DtlsProgram M W → M → System W → DtlsProgram M W
  after s pdu sys = set_send_timestamp libs pdu (record (set_ack_timestamp libs s) {
    block_num = s.block_num + 1;
    block_flag = true;
    sent_pdu = some pdu;
    system = record sys { world = libs.dtls_write (libs.wire pdu) sys.world };
  })

  pub next_block-after :
      (s : DtlsProgram M W)
      → Fits s
      → (pdu : M) × (sys : System W) × (next_block libs (get_pdu_download_content libs) s
          ≡ ok (after s pdu sys))
  unfolding next_block get_pdu_download_content pdu_of write_pdu set_ack_timestamp
  next_block-after s fits =
      let (url, joined) = join_strings-fits download_url (url_parts s) fits in
      let (pdu, sys, e) =
        get_pdu-some
          (record (set_ack_timestamp libs s) { block_num = s.block_num + 1; block_flag = true }) url
          request_get [] in
      (pdu, sys, rw (joined, e) refl)
