-- ===== src/Examples/Dtls/Download.antt =====
-- The download in blocks of picocoap/examples/posix/client_dtls.c.
use libexositecoap.Common.{ℕ, ◌+◌, ◌≤◌, ◌≡◌, List, [], ◌∷◌, ◌++◌, Bool, length, drop, Exec, ◌>>=◌}
use libexositecoap.Examples.Dtls.{Libs, BlockOption, DtlsProgram}
use libexositecoap.Examples.Dtls.Handler.{response_content, message_handler}
use mathlib.Core.Option.{some}
use libexositecoap.Examples.Dtls.Blocks.{IsText}

-- A message of the transfer with the given token: 2.05 with a block option and a payload of `len`
-- bytes without a 0. In memory a string begins at the payload, which goes on up to the next 0.
pub record IsBlock {M W : Type 0} (libs : Libs M W) (request : List ℕ) (more : Bool) (received : M)
    (str : List ℕ) (len : ℕ) : Type 0 where
  pub option : BlockOption
  pub behind : List ℕ
  pub same_token : libs.token received ≡ request
  pub content : libs.code received ≡ response_content
  pub in_blocks : libs.coap_option_next received ≡ some option
  pub marked : option.more ≡ more
  pub payload : libs.coap_get_data received ≡ (len, some (str ++ (0 ∷ behind)))
  pub within : len ≤ length str
  pub is_text : IsText str

-- Messages, each with the string that begins at its payload and the length of the payload: the
-- strings put together, and the sum of the lengths.
unfoldable pub concat_strings : {M : Type 0} → List (M × List ℕ × ℕ) → List ℕ
concat_strings [] = []
concat_strings ((received, str, len) ∷ blocks) = str ++ concat_strings blocks

unfoldable pub total_length : {M : Type 0} → List (M × List ℕ × ℕ) → ℕ
total_length [] = 0
total_length ((received, str, len) ∷ blocks) = len + total_length blocks

-- What is kept in the program while blocks arrive: the strings so far stand in the array, and
-- `download_size` is not more than their length.
pub record Holds {M W : Type 0} (s : DtlsProgram M W) (text rest : List ℕ) : Type 0 where
  pub there : s.download_content ≡ text ++ (0 ∷ rest)
  pub counted : s.download_size ≤ length text
  pub is_text : IsText text

module _ {M W : Type 0} (libs : Libs M W)
    (memory : (w : W) → (pdu : M) × ((libs.coap_new_pdu w).0 ≡ some pdu)) where
  -- The strings with that of one more block.
  abbrev filled : DtlsProgram M W → List ℕ → List ℕ → ℕ → List ℕ → DtlsProgram M W
  filled s text more len rest = record s {
    download_size = s.download_size + len;
    download_content = (text ++ more) ++ (0 ∷ drop (length more) rest);
  }

  -- The messages handled one after the other.
  unfoldable pub handle_all : List (M × List ℕ × ℕ) → M → DtlsProgram M W → Exec (DtlsProgram M W)
  handle_all [] last s = message_handler libs last s
  handle_all ((received, str, len) ∷ blocks) last s = do
    s' ← message_handler libs received s
    handle_all blocks last s'
