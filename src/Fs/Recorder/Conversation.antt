-- ===== src/Fs/Recorder/Conversation.antt =====
-- What the lock service is sent in the course of any requests to cloudfs/cloudfs.c.
use cloudfs.Base.Masks.{and_pow, or-add'}
use mathlib.Core.List.{append_assoc, append-nil}
use cloudfs.Base.{
  ℕ, suc, ◌+◌, ◌-◌, ◌%◌, ◌==◌, if◌then◌else◌, ◌^◌, ◌≡◌, refl, sym, ◌∙◌, ap, ap₂, ◌/◌, ◌*◌, bit_or,
  Bool, true, false, u32, arith, Option, none, some, List, [], ◌∷◌, ◌++◌,
}
use cloudfs.Fs.Names.{FilePath, Config, get_key}
use cloudfs.Fs.Os.{Os, LockParams}
use cloudfs.Fs.State.{Globals, Ret}
use cloudfs.Fs.Lock.{lock_operation, lock_arg}
use cloudfs.Fs.Files.{Fh, cloudfs_open}
use cloudfs.Fs.Requests.{
  FileRequest, do_release, serve_file, Request, on_path, do_open, on_handle, Reply, Mount,
  add_handle, on_live, serve, mounted,
}
use cloudfs.Fs.Requests.Reached.{
  IsSound, serve_all, mounted-IsSound, on_path-IsSound, do_open-IsSound, on_handle-IsSound,
}
use cloudfs.Fs.Recorder.{Recorded, recording, lock_view}
use cloudfs.Fs.Recorder.Quiet.{is_release, serve_path-Keeps, serve_file-Keeps}
use cloudfs.Fs.Recorder.Sent.{IsGranting, send, cloudfs_open-send, cloudfs_release-send}

abbrev pub calls_of : {W : Type 0} → Mount (Recorded W) → List LockParams
calls_of m = m.globals.world.calls

-- `version` after so many opens.
abbrev pub version_after : ℕ → ℕ
version_after opens = (2 ^ 32 - 1 + opens) % 2 ^ 32

abbrev pub lock_call : FilePath → ℕ → ℕ → LockParams
lock_call path operation opens = record {
  key = get_key path;
  operation = operation;
  machine = 0;
  version = version_after opens;
}

-- What an open asks for: READ, which is 1, if the two lowest digits of the flags are 0 (O_RDONLY),
-- and WRITE, which is 2, if they are not (O_WRONLY, O_RDWR).
abbrev pub operation_for : ℕ → ℕ
operation_for flags = if flags % 4 == 0 then 1 else 2

-- A release that gets a reply is one of a live handle.
abbrev unlocks : FilePath → ℕ → Option Reply → Bool → List LockParams
unlocks path opens none released = []
unlocks path opens (some r) false = []
unlocks path opens (some r) true = lock_call path 3 opens ∷ []

-- What one request sends, by its reply, after so many opens; and the opens after it.
abbrev pub sent_for : ℕ → Request → Option Reply → List LockParams
sent_for opens (on_path path q) r = []
sent_for opens (do_open path flags) r = lock_call path (operation_for flags) (suc opens) ∷ []
sent_for opens (on_handle path i q) r = unlocks path opens r (is_release q)

abbrev pub opens_after : ℕ → Request → ℕ
opens_after opens (on_path path q) = opens
opens_after opens (do_open path flags) = suc opens
opens_after opens (on_handle path i q) = opens

-- What requests with these replies send.
abbrev pub sent : ℕ → List Request → List (Option Reply) → List LockParams
sent opens [] rs = []
sent opens (q ∷ qs) [] = []
sent opens (q ∷ qs) (r ∷ rs) = sent_for opens q r ++ sent (opens_after opens q) qs rs

-- The calls sent are these, and the next release is not skipped.
abbrev pub Sent : {W : Type 0} → List LockParams → Mount (Recorded W) → Type 0
Sent calls m = lock_view m.globals ≡ (calls, false)

module _ (os : Os) (cfg : Config) (bad_fd : ℕ) where
  -- A fresh mount that has sent nothing.
  abbrev pub fresh : os.World → Mount (Recorded os.World)
  fresh w = mounted (recording os) cfg (record { inner = w; calls = [] })

  -- Requests one after the other, with their replies.
  unfoldable pub serve_each : List Request → Mount os.World → List (Option Reply) × Mount os.World
  serve_each [] m = ([], m)
  serve_each (q ∷ qs) m =
      let (r, m') = serve os cfg bad_fd q m in let (rs, m'') = serve_each qs m' in (r ∷ rs, m'')

  pub serve_each-serve_all :
      (qs : List Request) (m : Mount os.World) → (serve_each qs m).1 ≡ serve_all os cfg bad_fd qs m
  unfolding serve_each serve_all
  serve_each-serve_all [] m = refl
  serve_each-serve_all (q ∷ qs) m = serve_each-serve_all qs (serve os cfg bad_fd q m).1

  add_handle-globals :
      (fh : Option Fh) (r : Ret) (m : Mount os.World)
      → (add_handle os cfg fh r m).1.globals ≡ m.globals
  add_handle-globals none r m = refl
  add_handle-globals (some fh) r m = refl

lock_operation-operation_for : (flags : ℕ) → lock_operation flags ≡ operation_for flags
unfolding lock_operation
lock_operation-operation_for flags = ground (
  arith,
  ap₂ bit_or (and_pow 1 flags) (and_pow 0 flags),
  or-add' 1 (flags / 2 % 2) (flags / 1 % 2 * 1) (omega arith),
)

module _ (os : Os) (grants : IsGranting os) (cfg : Config) (bad_fd : ℕ) where
  nothing_new :
      (calls : List LockParams)
      → ◌≡◌ {A = List LockParams × Bool} (calls, false) (calls ++ [], false)
  nothing_new calls = ap (λ c. (c, false)) (sym (append-nil calls))

  counted_on : (v n : ℕ) → v ≡ version_after n → u32 (v + 1) ≡ version_after (suc n)
  counted_on v n e = omega arith

  sending :
      (path : FilePath) (operation : ℕ) (calls : List LockParams) (s : Globals (Recorded os.World))
      {v v' : ℕ}
      → lock_view s ≡ (calls, false)
      → v ≡ v'
      → ◌≡◌ {A = List LockParams × Bool}
          (send s (lock_arg os path operation v), s.skip)
          (calls ++ (lock_arg os path operation v' ∷ []), false)
  sending path operation calls s {v} h e =
      ap (λ x. (x.0 ++ (lock_arg os path operation v ∷ []), x.1)) h
      ∙ ap (λ v. (calls ++ (lock_arg os path operation v ∷ []), false)) e

  opened :
      (path : FilePath) (flags n : ℕ) (calls : List LockParams) (m : Mount (Recorded os.World))
      → IsSound n m
      → Sent calls m
      → Sent
          (calls ++ sent_for n (do_open path flags) none)
          (serve (recording os) cfg bad_fd (do_open path flags) m).1
  unfolding serve
  opened path flags n calls m sound h =
      let (opened, s') = cloudfs_open (recording os) cfg path flags m.globals in
      ap lock_view
        (add_handle-globals (recording os) cfg bad_fd opened.1 opened.0 (record m { globals = s' }))
      ∙ cloudfs_open-send os grants cfg path m.globals flags
      ∙ sending path (lock_operation flags) calls m.globals h (counted_on _ n sound.counted)
      ∙ ap (λ o. (calls ++ (lock_call path o (suc n) ∷ []), false))
          (lock_operation-operation_for flags)

  pub live :
      (path : FilePath) (i n : ℕ) (q : FileRequest) (calls : List LockParams)
      (m : Mount (Recorded os.World)) (fh : Option Fh)
      → IsSound n m
      → Sent calls m
      → Sent
          (calls
            ++ unlocks path n (on_live (recording os) cfg path i bad_fd fh q m).0 (is_release q))
          (on_live (recording os) cfg path i bad_fd fh q m).1
  unfolding serve_file
  live path i n q calls m none sound h = h ∙ nothing_new calls
  live path i n do_release calls m (some fh) sound h =
      cloudfs_release-send os grants cfg path m.globals fh (ap (λ v. v.1) h)
      ∙ ap (λ b. (send m.globals (lock_arg os path 3 m.globals.version), b)) (sym (ap (λ v. v.1) h))
      ∙ sending path 3 calls m.globals h sound.counted
  live path i n q calls m (some fh) sound h =
      serve_file-Keeps os cfg path bad_fd fh q m.globals refl ∙ h ∙ nothing_new calls

  pub step-Sent :
      (q : Request) (n : ℕ) (calls : List LockParams) (m : Mount (Recorded os.World))
      → IsSound n m
      → Sent calls m
      → Sent
          (calls ++ sent_for n q (serve (recording os) cfg bad_fd q m).0)
          (serve (recording os) cfg bad_fd q m).1
  unfolding serve
  step-Sent (on_path path q) n calls m sound h =
      serve_path-Keeps os cfg path q m.globals ∙ h ∙ nothing_new calls
  step-Sent (do_open path flags) n calls m sound h = opened path flags n calls m sound h
  step-Sent (on_handle path i q) n calls m sound h = live path i n q calls m (m.handles i) sound h

  pub step-IsSound :
      (q : Request) (n : ℕ) (m : Mount (Recorded os.World))
      → IsSound n m
      → IsSound (opens_after n q) (serve (recording os) cfg bad_fd q m).1
  step-IsSound (on_path path q) = on_path-IsSound (recording os) cfg bad_fd path q
  step-IsSound (do_open path flags) = do_open-IsSound (recording os) cfg bad_fd path flags
  step-IsSound (on_handle path i q) = on_handle-IsSound (recording os) cfg bad_fd path i q

  pub each-Sent :
      (qs : List Request) (n : ℕ) (calls : List LockParams) (m : Mount (Recorded os.World))
      → IsSound n m
      → Sent calls m
      → Sent
          (calls ++ sent n qs (serve_each (recording os) cfg bad_fd qs m).0)
          (serve_each (recording os) cfg bad_fd qs m).1
  unfolding serve_each
  each-Sent [] n calls m sound h = h ∙ nothing_new calls
  each-Sent (q ∷ qs) n calls m sound h =
      let (r, m') = serve (recording os) cfg bad_fd q m in
      each-Sent qs (opens_after n q) (calls ++ sent_for n q r) m' (step-IsSound q n m sound)
        (step-Sent q n calls m sound h)
      ∙ ap (λ c. (c, false))
          (append_assoc calls (sent_for n q r)
            (sent (opens_after n q) qs (serve_each (recording os) cfg bad_fd qs m').0))

  -- On a system whose lock service answers OK to every call (IsGranting) and which notes the calls
  -- of it, and whatever else it answers: after any requests to a fresh mount, the calls sent are
  -- those that `sent` tells from the requests and their replies alone. These are, in order, for
  -- each open an acquire of the key of its path, for READ if the two lowest digits of its flags
  -- are 0 (O_RDONLY) and for WRITE if they are not, and for each release with a reply a release of
  -- the key of its path; and no other request sends any. The identity is 0, and the version is 2 ^
  -- 32 - 1 plus the opens so far, modulo 2 ^ 32.
  pub serve_each-sent :
      (w : os.World) (qs : List Request)
      → calls_of (serve_each (recording os) cfg bad_fd qs (fresh os cfg bad_fd w)).1
        ≡ sent 0 qs (serve_each (recording os) cfg bad_fd qs (fresh os cfg bad_fd w)).0
  serve_each-sent w qs =
      ap (λ v. v.0)
        (each-Sent qs 0 [] (fresh os cfg bad_fd w)
          (mounted-IsSound (recording os) cfg bad_fd (record { inner = w; calls = [] })) refl)
