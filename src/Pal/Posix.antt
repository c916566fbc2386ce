-- ===== src/Pal/Posix.antt =====
-- pal/posix/exosite_pal.c: the platform layer over the sockets, files and the clock of POSIX, which
-- are the record `Os`.
use libexositecoap.Common.{
  ℕ, ◌+◌, ◌*◌, ◌%◌, ◌^◌, Bool, true, false, List, [], ◌∷◌, length, ◌==◌, if◌then◌else◌, not, take,
}
use libexositecoap.Pal.{Pal}
use mathlib.Core.Option.{Option, none, some}

-- The answer of `recv`.
pub data Received : Type 0 where
  bytes : List ℕ → Received
  again : Received
  failed : Received

-- What the functions called return, on a state `W`. An address is that of a `struct addrinfo`; a
-- descriptor and a stream are numbers; none is -1 or NULL.
pub record Os (W : Type 0) : Type 0 where
  -- `getaddrinfo` of the host: 0 with the addresses, or an error.
  pub getaddrinfo : W → ℕ × List ℕ × W
  pub socket : ℕ → W → Option ℕ × W
  pub fcntl_nonblock : ℕ → W → W
  pub connect : ℕ → ℕ → W → Bool × W
  pub send : Option ℕ → List ℕ → W → Option ℕ × W
  -- A datagram of at most the given size, or whether `errno` is EAGAIN.
  pub recv : Option ℕ → ℕ → W → Received × W
  pub fopen_read : W → Option ℕ × W
  pub fopen_write : W → Option ℕ × W
  -- At most the given number of characters.
  pub fread : ℕ → ℕ → W → List ℕ × W
  pub fwrite : ℕ → List ℕ → W → ℕ × W
  pub fclose : ℕ → W → W
  pub gettimeofday : W → ℕ × ℕ × W
  pub srand_time : W → W
  pub rand : W → ℕ × W

-- `exosock` with the state of the system; none is -1.
pub record Posix (W : Type 0) : Type 0 where
  pub exosock : Option ℕ
  pub system : W

module _ {W : Type 0} (os : Os W) where
  open os use {
    getaddrinfo, socket, fcntl_nonblock, connect, send, recv, fopen_read, fopen_write, fread,
    fwrite, fclose, gettimeofday, srand_time, rand,
  }

  -- The loop over the addresses: the one with a socket, if there is one.
  unfoldable pub make_socket : List ℕ → Posix W → Option (ℕ × ℕ) × Posix W
  make_socket [] s = (none, s)
  make_socket (q ∷ rest) s =
      let (fd, w) = socket q s.system in
      elim fd [
        | none ↦ make_socket rest (record { exosock = none; system = w })
        | some sock ↦
            (some (sock, q), record { exosock = some sock; system = fcntl_nonblock sock w })
      ]

  connect_to : Option (ℕ × ℕ) × Posix W → ℕ × Posix W
  connect_to (none, s) = (2, s)
  connect_to (some (sock, q), s) =
      let (connected, w) = connect sock q s.system in
      (if connected then 0 else 3, record s { system = w })

  unfoldable pub exopal_udp_sock : Posix W → ℕ × Posix W
  unfolding make_socket connect_to
  exopal_udp_sock s =
      let (rv, servinfo, w) = getaddrinfo s.system in
      if not (rv == 0)
      then (1, record s { system = w })
      else connect_to (make_socket servinfo (record s { system = w }))

  unfoldable pub exopal_init : Posix W → ℕ × Posix W
  exopal_init s = (0, s)

  is_minus_one : Option ℕ → Bool
  is_minus_one none = true
  is_minus_one (some n) = false

  -- A datagram that is sent in part is no error.
  unfoldable pub exopal_udp_send : List ℕ → Posix W → ℕ × Posix W
  unfolding is_minus_one
  exopal_udp_send buf s =
      let (bytes_sent, w) = send s.exosock buf s.system in
      (if is_minus_one bytes_sent then 1 else 0, record s { system = w })

  -- The result, and the bytes received.
  unfoldable pub exopal_udp_recv : ℕ → Posix W → ℕ × List ℕ × Posix W
  exopal_udp_recv size s =
      let (answer, w) = recv s.exosock size s.system in
      elim answer [
        | bytes datagram ↦ (0, datagram, record s { system = w })
        | failed ↦ (1, [], record s { system = w })
        | again ↦ (2, [], record s { system = w })
      ]

  -- A file that is written in part stays open.
  unfoldable pub exopal_store_cik : List ℕ → Posix W → ℕ × Posix W
  exopal_store_cik cik s =
      let (file, w) = fopen_write s.system in
      elim file [
        | none ↦ (2, record s { system = w })
        | some f ↦
            let (bytes_written, w₁) = fwrite f (take 40 cik) w in
            if not (bytes_written == 40)
            then (1, record s { system = w₁ })
            else (0, record s { system = fclose f w₁ })
      ]

  -- The result, and the characters that now stand at the front of the caller's array. A file that is
  -- too short stays open.
  unfoldable pub exopal_retrieve_cik : Posix W → ℕ × List ℕ × Posix W
  exopal_retrieve_cik s =
      let (file, w) = fopen_read s.system in
      elim file [
        | none ↦ (2, [], record s { system = w })
        | some f ↦
            let (read, w₁) = fread f 40 w in
            if not (length read == 40)
            then (1, read, record s { system = w₁ })
            else (0, read, record s { system = fclose f w₁ })
      ]

  unfoldable pub exopal_get_time : Posix W → ℕ × Posix W
  exopal_get_time s =
      let (tv_sec, tv_usec, w) = gettimeofday s.system in
      ((tv_sec * 1_000_000 + tv_usec) % 2 ^ 64, record s { system = w })

  on_system : (W → ℕ × W) → Posix W → ℕ × Posix W
  on_system f s = let (n, w) = f s.system in (n, record s { system = w })

  -- A datagram is there if the result of `exopal_udp_recv` is 0.
  received : ℕ × List ℕ × Posix W → Option (List ℕ) × Posix W
  received (r, datagram, s) = (if r == 0 then some datagram else none, s)

  -- The layer as the client uses it.
  unfoldable pub posix : Pal (Posix W)
  unfolding on_system received
  posix = record {
    exopal_init = exopal_init;
    exopal_udp_sock = exopal_udp_sock;
    exopal_retrieve_cik = exopal_retrieve_cik;
    exopal_store_cik = exopal_store_cik;
    exopal_udp_send = exopal_udp_send;
    exopal_udp_recv = λ size s. received (exopal_udp_recv size s);
    exopal_get_time = exopal_get_time;
    seed = λ s. record s { system = srand_time s.system };
    rand = on_system rand;
  }
