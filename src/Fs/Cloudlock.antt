-- ===== src/Fs/Cloudlock.antt =====
-- cloudfs/cloudlock_client.c: a TCP client that prints what a server sends. The calls of sockets
-- and streams are parameters; the log is left out.
pub mod Received
use cloudfs.Base.{ℕ, zero, suc, ◌-◌, ◌==◌, Option, none, some, List, [], ◌∷◌, if◌then◌else◌}
use cloudfs.Fs.Os.{Call}
use cloudfs.Fs.State.{Ret, ok, fail}

abbrev pub Text : Type 0
Text = List ℕ

pub record Sockets (W : Type 0) : Type 0 where
  pub errno : W → ℕ
  pub socket : Call W ℕ
  -- The address of a text; 0 and -1 are failures.
  pub inet_pton : Text → Call W ℕ
  -- With the descriptor, the address and the port.
  pub connect : ℕ → ℕ → ℕ → Call W (Unit {0})
  -- No bytes are the end of the stream.
  pub read : ℕ → ℕ → Call W (List ℕ)
  pub fputs : Text → Call W (Unit {0})

-- The string in a buffer: what comes before the first zero byte.
abbrev pub c_string : List ℕ → Text
c_string [] = []
c_string (b ∷ bs) = let rest = c_string bs in if b == 0 then [] else b ∷ rest

module _ {W : Type 0} (net : Sockets W) where
  abbrev failed_with_errno : W → Option Ret × W
  failed_with_errno w = (some (fail (net.errno w)), w)

  -- The next call if this one succeeds, and -errno if not.
  abbrev pub checked : {A : Type 0} → Option A × W → (A → W → Option Ret × W) → Option Ret × W
  checked (none, w) next = failed_with_errno w
  checked (some a, w) next = next a w

  -- A turn of the loop after `read`. A failed `read` makes the result -1.
  abbrev pub after_read : Option (List ℕ) × W → (W → Option Ret × W) → Option Ret × W
  after_read (none, w) again = (some (fail 1), w)
  after_read (some [], w) again = (some (ok 0), w)
  after_read (some (b ∷ bs), w) again = checked (net.fputs (c_string (b ∷ bs)) w) (λ done. again)

  -- The loop of `cloudlock_connect`, on fuel: `none` if the fuel ends.
  unfoldable pub receive : ℕ → ℕ → W → Option Ret × W
  receive zero sockfd w = (none, w)
  receive (suc fuel) sockfd w = after_read (net.read sockfd 1023 w) (receive fuel sockfd)

  -- `cloudlock_connect`
  unfoldable pub cloudlock_connect : ℕ → Text → ℕ → W → Option Ret × W
  cloudlock_connect fuel host_ip host_port w = checked (net.socket w) (λ sockfd w1.
      checked (net.inet_pton host_ip w1) (λ sin_addr w2.
        checked (net.connect sockfd sin_addr host_port w2) (λ done w3. receive fuel sockfd w3)))
