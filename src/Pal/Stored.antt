-- ===== src/Pal/Stored.antt =====
-- The key of a device from one start to the next: `exopal_store_cik` and `exopal_retrieve_cik` of
-- pal/posix/exosite_pal.c with `exo_init` of src/exosite.c.
use libexositecoap.Common.{
  ℕ, zero, suc, ◌≤◌, ◌≡◌, refl, sym, subst, ap, ◌∙◌, List, [], ◌∷◌, ◌++◌, length, take, drop,
  take-append-drop, length-take_le, length-drop, arith, ok, u16, ◌==◌, Bool-cases, inl, inr,
}
use libexositecoap.Memory.{write, poke}
use libexositecoap.Memory.Local.{write_here, poke_here}
use libexositecoap.Pal.Posix.{Os, Posix, posix}
use libexositecoap.Pal.Posix
use libexositecoap.Client.State.{
  Client, ExoError, exo_ok, exo_fatal_error_pal, uninitialized, initialized,
}
use libexositecoap.Client.Operate.{init_socket, exo_init}
use mathlib.Core.Option.{Option, some}

-- A file system with room for the file of the key: `disk` is what that file holds.
pub record IsDisk {W : Type 0} (os : Os W) (disk : W → List ℕ) : Type 0 where
  pub to_write : W → ℕ
  pub opened_to_write : (w : W) → (os.fopen_write w).0 ≡ some (to_write w)
  pub written :
      (bytes : List ℕ) (w : W)
      → (os.fwrite (to_write w) bytes (os.fopen_write w).1).0 ≡ length bytes
  pub holds :
      (bytes : List ℕ) (w : W) → disk (os.fwrite (to_write w) bytes (os.fopen_write w).1).1 ≡ bytes
  pub to_read : W → ℕ
  pub opened_to_read : (w : W) → (os.fopen_read w).0 ≡ some (to_read w)
  pub got : (n : ℕ) (w : W) → (os.fread (to_read w) n (os.fopen_read w).1).0 ≡ take n (disk w)
  pub closed : (f : ℕ) (w : W) → disk (os.fclose f w) ≡ disk w
  pub seeded : (w : W) → disk (os.srand_time w) ≡ disk w
  pub drawn : (w : W) → disk (os.rand w).1 ≡ disk w

take-take : (n : ℕ) (xs : List ℕ) → take n (take n xs) ≡ take n xs
take-take zero xs = refl
take-take (suc n) [] = refl
take-take (suc n) (x ∷ xs) = ap (λ t. x ∷ t) (take-take n xs)

last_of : (xs : List ℕ) → length xs ≡ 1 → (x : ℕ) × (xs ≡ x ∷ [])
last_of [] h = absurd (omega arith)
last_of (x ∷ []) h = (x, refl)
last_of (x ∷ y ∷ xs) h = absurd (omega arith)

-- The key in the array of 41 bytes, and the 0 behind it.
key_written :
    (cik key : List ℕ)
    → length cik ≡ 41
    → length key ≡ 40
    → (ys : List ℕ) × (write cik 0 key ≡ ok ys) × (poke ys 40 0 ≡ ok (key ++ (0 ∷ [])))
key_written cik key long forty =
    let (x, e) = last_of (drop 40 cik) (omega (arith, length-drop 40 cik, long)) in
    let forty_old : length (take 40 cik) ≡ length key =
      length-take_le 40 cik (omega (arith, long)) ∙ sym forty in
    (
      key ++ (x ∷ []),
      subst (λ arr. write arr 0 key ≡ ok (key ++ (x ∷ [])))
          (ap (λ t. take 40 cik ++ t) (sym e) ∙ take-append-drop 40 cik)
          (write_here [] 0 refl (take 40 cik) key (x ∷ []) forty_old),
      poke_here key 40 (sym forty) x [] 0,
    )

module _ {W : Type 0} (os : Os W) (disk : W → List ℕ) (d : IsDisk os disk) where
  -- The whole key is stored.
  stores :
      (cik : List ℕ) (s : Posix W)
      → 40 ≤ length cik
      → ((Posix.exopal_store_cik os cik s).0 ≡ 0)
        × (disk (Posix.exopal_store_cik os cik s).1.system ≡ take 40 cik)
  unfolding Posix.exopal_store_cik
  stores cik s long =
      let full : length (take 40 cik) ≡ 40 = length-take_le 40 cik long in
      ground (
        arith,
        full,
        d.opened_to_write s.system,
        d.written (take 40 cik) s.system,
        d.holds (take 40 cik) s.system,
        d.closed (d.to_write s.system)
            (os.fwrite (d.to_write s.system) (take 40 cik) (os.fopen_write s.system).1).1,
      )

  retrieves :
      (cik : List ℕ) (s : Posix W)
      → 40 ≤ length cik
      → disk s.system ≡ take 40 cik
      → (s' : Posix W) × (Posix.exopal_retrieve_cik os s ≡ (0, take 40 cik, s'))
  unfolding Posix.exopal_retrieve_cik
  retrieves cik s long there =
      let f : ℕ = d.to_read s.system in
      let key : (os.fread f 40 (os.fopen_read s.system).1).0 ≡ take 40 cik =
        d.got 40 s.system ∙ ap (λ t. take 40 t) there ∙ take-take 40 cik in
      (
        record s { system = os.fclose f (os.fread f 40 (os.fopen_read s.system).1).1 },
        ground (arith, d.opened_to_read s.system, key, length-take_le 40 cik long),
      )

  socket_keeps :
      (c : Client (Posix W)) (cik : List ℕ)
      → poke c.cik 40 0 ≡ ok cik
      → (e : ExoError) × (c' : Client (Posix W)) × (init_socket (posix os) c ≡ ok (e, c'))
        × (c'.cik ≡ cik)
  unfolding init_socket
  socket_keeps c cik put =
      let (r, w) = (posix os).exopal_udp_sock c.world in
      elim (Bool-cases (r == 0)) [
        | inl fine ↦ (
          exo_ok,
          record c { cik = cik; world = w; device_state = initialized },
          ground (arith, put, fine),
          refl,
        )
        | inr failed ↦ (
          exo_fatal_error_pal,
          record c { cik = cik; world = w },
          ground (arith, put, failed),
          refl,
        )
      ]

  -- A key that was stored is the key of the device once it starts again: on a POSIX system with room
  -- for its file, `exopal_store_cik` of 40 characters or more answers 0, and after that `exo_init`,
  -- on a client with an array of 41 bytes, returns with the first 40 of them and a 0 in that array.
  pub init-store_cik :
      (cik : List ℕ) (s : Posix W) (c : Client (Posix W)) (v m n : Option (List ℕ))
      → 40 ≤ length cik
      → length c.cik ≡ 41
      → c.world ≡ (Posix.exopal_store_cik os cik s).1
      → ((Posix.exopal_store_cik os cik s).0 ≡ 0)
        × (e : ExoError) × (c' : Client (Posix W)) × (exo_init (posix os) c v m n ≡ ok (e, c'))
        × (c'.cik ≡ take 40 cik ++ (0 ∷ []))
  unfolding exo_init init_socket posix Posix.exopal_init
  init-store_cik cik s c v m n long room here =
      let (stored_whole, there) = stores cik s long in
      let w : W = (os.rand (os.srand_time c.world.system)).1 in
      let kept : disk w ≡ take 40 cik =
        d.drawn (os.srand_time c.world.system)
        ∙ d.seeded c.world.system
        ∙ ap (λ t. disk t.system) here
        ∙ there in
      let (s', got) = retrieves cik (record c.world { system = w }) long kept in
      let (ys, put, ended) = key_written c.cik (take 40 cik) room (length-take_le 40 cik long) in
      let (r, w') = os.rand (os.srand_time c.world.system) in
      let c₂ : Client (Posix W) = record c {
        device_state = uninitialized;
        message_id_counter = u16 r;
        serial = n;
        vendor = v;
        model = m;
        cik = ys;
        world = s';
      } in
      let (e, c', run, same) = socket_keeps c₂ (take 40 cik ++ (0 ∷ [])) ended in
      (stored_whole, e, c', rw (got, put) run, same)
