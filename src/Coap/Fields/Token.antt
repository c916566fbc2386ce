-- ===== src/Coap/Fields/Token.antt =====
-- `coap_set_token` and `coap_get_token` on a buffer that holds a message.
use libexositecoap.Common.{
  ℕ, ◌+◌, ◌*◌, ◌/◌, ◌%◌, ◌^◌, ◌≤◌, ◌<◌, ◌≡◌, refl, sym, ap, ◌∙◌, List, [], ◌∷◌, ◌++◌, length,
  length-append, append_assoc, arith, ok, sub64, take, drop, length-take_le, length-drop,
  take-append-drop,
}
use libexositecoap.Common.Bytes.{low_nibble, high_nibble, join_low_nibble}
use libexositecoap.Memory.{memmove}
use libexositecoap.Memory.Local.{read_here, write_here, write_lem, write-append, prefixed}
use libexositecoap.Coap.Pdu.{Ptr, ce_none, ce_insufficient_buffer, null}
use libexositecoap.Coap.Wire.{
  Message, IsEncodable, encode_options, encode_payload, encode_body, encode, holding,
}
use libexositecoap.Coap.Fields.{le_bytes, coap_get_tkl, put_token, coap_set_token}
use libexositecoap.Coap.Fields.Laws.{get_tkl-holding}
use libexositecoap.Coap.Fields.TokenValue.{length-le_bytes}

-- `put_token` over a buffer whose bytes behind the place of the token are `rest`.
put_token_lem :
    (a b c d : ℕ) (old tail : List ℕ) (base len max token tkl : ℕ) (opt_ptr : Ptr)
    → a < 256
    → tkl ≤ 8
    → length old ≡ tkl
    → put_token
        (record {
          base = base;
          bytes = a ∷ b ∷ c ∷ d ∷ (old ++ tail);
          len = len;
          max = max;
          opt_ptr = opt_ptr;
        })
        token
        tkl
      ≡ ok (
        ce_none,
        record {
          base = base;
          bytes = (tkl + a / 16 * 16) ∷ b ∷ c ∷ d ∷ (le_bytes tkl token ++ tail);
          len = sub64 (len + tkl) (a % 16);
          max = max;
          opt_ptr = opt_ptr;
        },
      )
unfolding put_token coap_get_tkl
put_token_lem a b c d old tail base len max token tkl opt_ptr ra rt size = ground (
  arith,
  write_here (a ∷ b ∷ c ∷ d ∷ []) 4 refl old (le_bytes tkl token) tail
      (size ∙ sym (length-le_bytes tkl token)),
  low_nibble a ra,
  low_nibble tkl (omega arith),
  high_nibble a ra,
  join_low_nibble (tkl % 16) (a / 16) (omega arith) (omega arith),
)

-- The packet's tail `r` moves from behind the token `t` to behind `tkl` bytes.
move_tail :
    (a b c d : ℕ) (t r spare : List ℕ) (tkl : ℕ)
    → tkl + length r ≤ length (t ++ (r ++ spare))
    → memmove (a ∷ b ∷ c ∷ d ∷ (t ++ (r ++ spare))) (4 + tkl) (4 + length t) (length r)
      ≡ ok (
          a
          ∷ b
          ∷ c
          ∷ d
          ∷ (take tkl (t ++ (r ++ spare)) ++ (r ++ drop (tkl + length r) (t ++ (r ++ spare)))))
unfolding memmove prefixed
move_tail a b c d t r spare tkl fits =
    let pre : List ℕ = a ∷ b ∷ c ∷ d ∷ [] in
    let body : List ℕ = t ++ (r ++ spare) in
    ground (
      arith,
      read_here (a ∷ b ∷ c ∷ d ∷ t) (4 + length t) (omega arith) r spare,
      write-append pre body tkl r,
      write_lem body tkl r fits,
    )

nil_of_length : (xs : List ℕ) → length xs ≡ 0 → xs ≡ []
nil_of_length [] h = refl
nil_of_length (x ∷ xs) h = absurd (omega arith)

-- What follows the token in a message.
abbrev behind_token : Message → List ℕ
behind_token m = encode_options 0 m.options ++ encode_payload m.payload

-- The message with another token, and the bytes that are left behind it in the buffer.
abbrev pub with_token : Message → List ℕ → Message
with_token m t = record m { token = t }

abbrev pub token_spare : Message → List ℕ → ℕ → List ℕ
token_spare m spare tkl =
    drop (tkl + length (encode_options 0 m.options ++ encode_payload m.payload))
      (m.token ++ ((encode_options 0 m.options ++ encode_payload m.payload) ++ spare))

module _ (base : ℕ) (m : Message) (spare : List ℕ) (token tkl : ℕ) (v : IsEncodable m)
    (rt : tkl ≤ 8) (small : length (encode m ++ spare) < 2 ^ 63) where
  sizes :
      (length (encode m) ≡ 4 + length m.token + length (behind_token m))
      × (length (encode m ++ spare) ≡ 4 + length m.token + length (behind_token m) + length spare)
  unfolding encode encode_body
  sizes = (
    omega (arith, length-append m.token (behind_token m)),
    omega (
      arith,
      length-append (m.token ++ behind_token m) spare,
      length-append m.token (behind_token m),
    ),
  )

  b₀ : ℕ
  b₀ = 64 + m.mtype * 16 + length m.token

  body : List ℕ
  body = m.token ++ (behind_token m ++ spare)

  bytes_lem : encode m ++ spare ≡ b₀ ∷ m.code ∷ (m.mid / 256) ∷ (m.mid % 256) ∷ body
  unfolding encode encode_body b₀ body
  bytes_lem =
      ap
        (λ (t : List ℕ).
          (64 + m.mtype * 16 + length m.token) ∷ m.code ∷ (m.mid / 256) ∷ (m.mid % 256) ∷ t)
        (append_assoc m.token (behind_token m) spare)

  -- What is behind the place of the new token, once the tail has moved.
  tail : List ℕ
  tail = behind_token m ++ drop (tkl + length (behind_token m)) body

  new_lem :
      (tkl + b₀ / 16 * 16) ∷ m.code ∷ (m.mid / 256) ∷ (m.mid % 256) ∷ (le_bytes tkl token ++ tail)
      ≡ encode (with_token m (le_bytes tkl token)) ++ token_spare m spare tkl
  unfolding encode encode_body tail b₀ body
  new_lem = ground (
    arith,
    length-le_bytes tkl token,
    append_assoc (le_bytes tkl token) (behind_token m) (token_spare m spare tkl),
    v.type_range,
    v.token_range,
  )

  new_sizes :
      4 + tkl + length (behind_token m) ≤ length (encode m ++ spare)
      → (sub64 (length (encode m) + tkl) (b₀ % 16)
          ≡ length (encode (with_token m (le_bytes tkl token))))
        × (length (encode m ++ spare)
            ≡ length (encode (with_token m (le_bytes tkl token)) ++ token_spare m spare tkl))
  unfolding encode encode_body b₀
  new_sizes fits = (
    omega (
      arith,
      sizes,
      length-le_bytes tkl token,
      length-append (le_bytes tkl token) (behind_token m),
      length-append m.token (behind_token m),
      v.type_range,
      v.token_range,
    ),
    omega (
      arith,
      sizes,
      length-le_bytes tkl token,
      length-append (le_bytes tkl token) (behind_token m),
      length-append (le_bytes tkl token ++ behind_token m) (token_spare m spare tkl),
      length-drop (tkl + length (behind_token m)) (m.token ++ (behind_token m ++ spare)),
      length-append m.token (behind_token m ++ spare),
      length-append (behind_token m) spare,
    ),
  )

  body_size : length body ≡ length m.token + length (behind_token m) + length spare
  unfolding body
  body_size =
      omega (
        arith,
        length-append m.token (behind_token m ++ spare),
        length-append (behind_token m) spare,
      )

  put_lem :
      4 + tkl + length (behind_token m) ≤ length (encode m ++ spare)
      → (bs : List ℕ) → bs ≡ b₀ ∷ m.code ∷ (m.mid / 256) ∷ (m.mid % 256) ∷ (take tkl body ++ tail)
      → put_token (record (holding base m spare) { bytes = bs }) token tkl
        ≡ ok (ce_none, holding base (with_token m (le_bytes tkl token)) (token_spare m spare tkl))
  unfolding holding
  put_lem fits bs e =
      let byte : b₀ < 256 = unfold b₀ in omega (arith, v.type_range, v.token_range) in
      ground (
        arith,
        e,
        new_lem,
        new_sizes fits,
        put_token_lem b₀ m.code (m.mid / 256) (m.mid % 256) (take tkl body) tail base
            (length (encode m)) (length (encode m ++ spare)) token tkl null byte rt
            (length-take_le tkl body (omega (arith, body_size, sizes))),
      )

  -- With nothing behind the fixed header there is nothing to move.
  bare : length (encode m) ≤ 4 → body ≡ take tkl body ++ tail
  unfolding body tail
  bare short =
      let none_behind : behind_token m ≡ [] =
        nil_of_length (behind_token m) (omega (arith, sizes)) in
      sym (take-append-drop tkl body)
      ∙ ap (λ (n : ℕ). take tkl body ++ drop n body) (omega arith)
      ∙ ap (λ (r : List ℕ). take tkl body ++ (r ++ drop (tkl + length r) body)) (sym none_behind)

  moved :
      4 + tkl + length (behind_token m) ≤ length (encode m ++ spare)
      → memmove (encode m ++ spare) (4 + tkl) (4 + length m.token) (length (behind_token m))
        ≡ ok (b₀ ∷ m.code ∷ (m.mid / 256) ∷ (m.mid % 256) ∷ (take tkl body ++ tail))
  unfolding body tail
  moved fits = rw bytes_lem (
      move_tail b₀ m.code (m.mid / 256) (m.mid % 256) m.token (behind_token m) spare tkl
        (omega (arith, body_size, sizes)))

  -- In a buffer of less than 2^63 bytes that holds an encodable message, `coap_set_token` with a
  -- length of at most 8 replaces the token by that many low bytes of `token` and moves what
  -- follows it, if the new message fits.
  pub set_token-holding :
      4 + tkl + length (behind_token m) ≤ length (encode m ++ spare)
      → coap_set_token (holding base m spare) token tkl
        ≡ ok (ce_none, holding base (with_token m (le_bytes tkl token)) (token_spare m spare tkl))
  unfolding coap_set_token holding
  set_token-holding fits = ground (
    arith,
    sizes,
    get_tkl-holding base m spare v,
    moved fits,
    put_lem fits (b₀ ∷ m.code ∷ (m.mid / 256) ∷ (m.mid % 256) ∷ (take tkl body ++ tail)) refl,
    put_lem fits (encode m ++ spare),
    bytes_lem,
    bare,
  )

  -- If the message with the new token does not fit, with a length of at most 8 in a buffer of less
  -- than 2^63 bytes that holds an encodable message, the result is CE_INSUFFICIENT_BUFFER and the
  -- buffer is what it was.
  pub set_token_full :
      length (encode m ++ spare) < 4 + tkl + length (behind_token m)
      → coap_set_token (holding base m spare) token tkl
        ≡ ok (ce_insufficient_buffer, holding base m spare)
  unfolding coap_set_token holding
  set_token_full full = ground (arith, sizes, get_tkl-holding base m spare v)
