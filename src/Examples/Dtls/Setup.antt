-- ===== src/Examples/Dtls/Setup.antt =====
-- How picocoap/examples/posix/client_dtls.c starts: `resolve_address`, the lines of `main` before its
-- loop, `get_key`, `send_to_peer` and `get_file_content`.
use libexositecoap.Common.{
  ℕ, List, [], ◌∷◌, Bool, true, false, length, replicate, ◌==◌, if◌then◌else◌, not, Exec, ok, ◌>>=◌,
}
use libexositecoap.Memory.{write}
use libexositecoap.Client.State.{c_string}
use mathlib.Core.Option.{Option, none, some}

-- An address that `getaddrinfo` found: whether its family is AF_INET or AF_INET6, and its length.
pub record Address : Type 0 where
  pub inet : Bool
  pub addrlen : ℕ

-- The answer of `getaddrinfo`: an error, which may be negative, or the addresses.
pub data Lookup : Type 0 where
  lookup_error : Bool → Lookup
  addresses : List Address → Lookup

-- What the functions called return.
pub record Starter (W : Type 0) : Type 0 where
  pub dtls_init : W → W
  pub lookup : List ℕ → W → Lookup × W
  pub socket : W → W
  pub setsockopt : W → W
  -- Whether there is a context.
  pub dtls_new_context : W → Bool × W
  pub dtls_connect : W → W
  -- The bytes sent, or none for -1.
  pub sendto : List ℕ → W → Option ℕ × W
  -- The content of a file, or none if it cannot be opened; the number of items read, of the given
  -- size, when one is asked for; and `fclose`.
  pub fopen_read : List ℕ → W → Option (List ℕ) × W
  pub fread_item : ℕ → W → ℕ × W
  pub fclose : W → W

abbrev pub localhost : List ℕ
localhost = b'l' ∷ b'o' ∷ b'c' ∷ b'a' ∷ b'l' ∷ b'h' ∷ b'o' ∷ b's' ∷ b't' ∷ []

abbrev coaps_srv : List ℕ
coaps_srv =
    b'1' ∷ b'7' ∷ b'3' ∷ b'.' ∷ b'2' ∷ b'5' ∷ b'5' ∷ b'.' ∷ b'2' ∷ b'4' ∷ b'3' ∷ b'.' ∷ b'1' ∷ b'5'
    ∷ b'8' ∷ []

abbrev psk_identity : List ℕ
psk_identity =
    b'C' ∷ b'l' ∷ b'i' ∷ b'e' ∷ b'n' ∷ b't' ∷ b'_' ∷ b'i' ∷ b'd' ∷ b'e' ∷ b'n' ∷ b't' ∷ b'i' ∷ b't'
    ∷ b'y' ∷ []

-- The result of `resolve_address`: an error of `getaddrinfo`, -1, or the length of an address.
pub data Resolved : Type 0 where
  resolve_error : Bool → Resolved
  unresolved : Resolved
  resolved : ℕ → Resolved

-- The loop over the addresses.
unfoldable pub first_inet : List Address → Resolved
first_inet [] = unresolved
first_inet (a ∷ rest) = if a.inet then resolved a.addrlen else first_inet rest

-- The name that is looked up: a server that is NULL or empty is the local host.
unfoldable pub server_name : Option (List ℕ) → List ℕ
server_name none = localhost
server_name (some []) = localhost
server_name (some (x ∷ xs)) = x ∷ xs

abbrev is_negative : Resolved → Bool
is_negative (resolve_error negative) = negative
is_negative unresolved = true
is_negative (resolved len) = false

-- `psk`: the identity, and the key with its length 9, which takes the 0 behind the 8 characters.
unfoldable pub get_key : List ℕ × List ℕ
get_key = (psk_identity, b'e' ∷ b'x' ∷ b'0' ∷ b'C' ∷ b'o' ∷ b'A' ∷ b'P' ∷ b's' ∷ 0 ∷ [])

module _ {W : Type 0} (starter : Starter W) where
  open starter use {
    dtls_init, lookup, socket, setsockopt, dtls_new_context, dtls_connect, sendto, fopen_read,
    fread_item, fclose,
  }

  -- The name is copied to an array of 256 bytes, all 0.
  unfoldable pub resolve_address : Option (List ℕ) → W → Exec (Resolved × W)
  unfolding server_name first_inet c_string write
  resolve_address server w = do
    addrstr ← write (replicate 256 0) 0 (server_name server)
    name ← c_string addrstr
    let (found, w₁) = lookup name w
    ok (
      elim found [
        | lookup_error negative ↦ resolve_error negative
        | addresses found_here ↦ first_inet found_here
      ],
      w₁,
    )

  -- `main` up to its loop; none is `exit(-1)`.
  unfoldable pub set_up : W → Exec (Option W)
  unfolding resolve_address
  set_up w = do
    (res, w₁) ← resolve_address (some coaps_srv) (dtls_init w)
    if is_negative res
        then ok none
        else (let (made, w₂) = dtls_new_context (setsockopt (socket w₁)) in
            ok (if made then some (dtls_connect w₂) else none))

  unfoldable pub send_to_peer : List ℕ → W → Option ℕ × W
  send_to_peer bytes w = sendto bytes w

  -- The size and the content, if the file was opened. The file is closed only if the number of items
  -- read, one at most, is the size.
  unfoldable pub get_file_content : List ℕ → W → Option (ℕ × List ℕ) × W
  get_file_content file_name w =
      let (file, w₁) = fopen_read file_name w in
      elim file [
        | none ↦ (none, w₁)
        | some content ↦
            let (items, w₂) = fread_item (length content) w₁ in
            (
              some (length content, content),
              if not (length content == items) then w₂ else fclose w₂,
            )
      ]
