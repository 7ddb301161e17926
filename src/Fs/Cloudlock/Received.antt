-- ===== src/Fs/Cloudlock/Received.antt =====
-- What `cloudlock_connect` of cloudfs/cloudlock_client.c prints.
use mathlib.Core.List.{append_assoc, append-nil}
use cloudfs.Base.{
  ℕ, zero, suc, ◌<◌, ◌≡◌, refl, sym, ap, ◌∙◌, arith, some, List, [], ◌∷◌, ◌++◌, length,
}
use cloudfs.Fs.State.{ok}
use cloudfs.Fs.Cloudlock.{Text, Sockets, c_string, receive, cloudlock_connect}

-- The bytes of each read up to the first zero byte.
abbrev pub strings_of : List (List ℕ) → Text
strings_of [] = []
strings_of (chunk ∷ chunks) = c_string chunk ++ strings_of chunks

-- What the code relies on in a connection that ends in order, and in the standard output.
pub record IsStream {W : Type 0} (net : Sockets W) : Type 0 where
  -- What the reads of a descriptor are yet to give, and what has been printed.
  pub incoming : W → ℕ → List (List ℕ)
  pub printed : W → Text
  pub read_next :
      (w : W) (fd b : ℕ) (bs : List ℕ) (chunks : List (List ℕ))
      → incoming w fd ≡ (b ∷ bs) ∷ chunks
      → (w' : W) × (net.read fd 1023 w ≡ (some (b ∷ bs), w'))
        × (incoming w' fd ≡ chunks)
        × (printed w' ≡ printed w)
  pub read_end :
      (w : W) (fd : ℕ)
      → incoming w fd ≡ []
      → (w' : W) × (net.read fd 1023 w ≡ (some [], w')) × (printed w' ≡ printed w)
  pub fputs_all :
      (w : W) (text : Text)
      → (w' : W) × (net.fputs text w ≡ (some tt, w'))
        × (incoming w' ≡ incoming w)
        × (printed w' ≡ printed w ++ text)

-- Chunks of one byte at least, as reads give them.
abbrev pub AllSome : List (List ℕ) → Type 0
AllSome [] = Unit
AllSome ([] ∷ chunks) = ⊥
AllSome ((b ∷ bs) ∷ chunks) = AllSome chunks

module _ {W : Type 0} (net : Sockets W) (stream : IsStream net) where
  receiving :
      (fuel fd b : ℕ) (bs : List ℕ) (w w1 w2 : W)
      → net.read fd 1023 w ≡ (some (b ∷ bs), w1)
      → net.fputs (c_string (b ∷ bs)) w1 ≡ (some tt, w2)
      → receive net (suc fuel) fd w ≡ receive net fuel fd w2
  unfolding receive
  receiving fuel fd b bs w w1 w2 e1 e2 = rw (e1, e2) refl

  at_end :
      (fuel fd : ℕ) (w w1 : W)
      → net.read fd 1023 w ≡ (some [], w1)
      → receive net (suc fuel) fd w ≡ (some (ok 0), w1)
  unfolding receive
  at_end fuel fd w w1 e = rw e refl

  receive_lem :
      (fuel fd : ℕ) (chunks : List (List ℕ)) (w : W)
      → stream.incoming w fd ≡ chunks
      → AllSome chunks
      → length chunks < fuel
      → (w' : W) × (receive net fuel fd w ≡ (some (ok 0), w'))
        × (stream.printed w' ≡ stream.printed w ++ strings_of chunks)
  receive_lem zero fd chunks w h all k = absurd (omega arith)
  receive_lem (suc fuel) fd [] w h all k =
      let (w1, e1, p1) = stream.read_end w fd h in
      (w1, at_end fuel fd w w1 e1, p1 ∙ sym (append-nil (stream.printed w)))
  receive_lem (suc fuel) fd ([] ∷ chunks) w h all k = absurd all
  receive_lem (suc fuel) fd ((b ∷ bs) ∷ chunks) w h all k =
      let text = c_string (b ∷ bs) in
      let (w1, e1, i1, p1) = stream.read_next w fd b bs chunks h in
      let (w2, e2, i2, p2) = stream.fputs_all w1 text in
      let (w3, e3, p3) = receive_lem fuel fd chunks w2 (ap (λ f. f fd) i2 ∙ i1) all (omega arith) in
      (
        w3,
        receiving fuel fd b bs w w1 w2 e1 e2 ∙ e3,
        p3
            ∙ ap (λ l. l ++ strings_of chunks) (p2 ∙ ap (λ l. l ++ text) p1)
            ∙ append_assoc (stream.printed w) text (strings_of chunks),
      )

  connecting :
      (fuel : ℕ) (host_ip : Text) (host_port fd addr : ℕ) (w w1 w2 w3 : W)
      → net.socket w ≡ (some fd, w1)
      → net.inet_pton host_ip w1 ≡ (some addr, w2)
      → net.connect fd addr host_port w2 ≡ (some tt, w3)
      → cloudlock_connect net fuel host_ip host_port w ≡ receive net fuel fd w3
  unfolding cloudlock_connect
  connecting fuel host_ip host_port fd addr w w1 w2 w3 e1 e2 e3 = rw (e1, e2, e3) refl

  -- If the socket, the address and the connection succeed, and the reads give some chunks of at
  -- least one byte and then the end, on a standard output that takes all (IsStream),
  -- `cloudlock_connect` ends on any fuel that is more than the number of chunks, returns 0, and
  -- has printed each chunk up to its first zero byte, in order, and no more.
  pub cloudlock_connect_lem :
      (fuel : ℕ) (host_ip : Text) (host_port fd addr : ℕ) (chunks : List (List ℕ)) (w w1 w2 w3 : W)
      → net.socket w ≡ (some fd, w1)
      → net.inet_pton host_ip w1 ≡ (some addr, w2)
      → net.connect fd addr host_port w2 ≡ (some tt, w3)
      → stream.incoming w3 fd ≡ chunks
      → AllSome chunks
      → length chunks < fuel
      → (w' : W) × (cloudlock_connect net fuel host_ip host_port w ≡ (some (ok 0), w'))
        × (stream.printed w' ≡ stream.printed w3 ++ strings_of chunks)
  cloudlock_connect_lem fuel host_ip host_port fd addr chunks w w1 w2 w3 e1 e2 e3 h all k =
      let (w', e, p) = receive_lem fuel fd chunks w3 h all k in
      (w', connecting fuel host_ip host_port fd addr w w1 w2 w3 e1 e2 e3 ∙ e, p)
