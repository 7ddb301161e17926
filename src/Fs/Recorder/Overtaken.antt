-- ===== src/Fs/Recorder/Overtaken.antt =====
-- The version that a release of cloudfs/cloudfs.c sends is not the one of its session, but that of
-- the newest open.
use mathlib.Core.Path.{subst}
use cloudfs.Base.{
  ℕ, suc, ◌+◌, ◌%◌, ◌^◌, ◌≡◌, ◌↔◌, refl, sym, ap, ◌∙◌, arith, some, List, [], ◌∷◌, ◌++◌,
}
use cloudfs.Fs.Names.{FilePath, Config}
use cloudfs.Fs.Os.{Os, LockParams}
use cloudfs.Fs.Files.{Fh}
use cloudfs.Fs.Requests.{Request, do_open, on_handle, do_release, Mount, on_live, serve}
use cloudfs.Fs.Requests.Reached.{IsSound, mounted-IsSound, opens_of, serve_all-IsSound}
use cloudfs.Fs.Recorder.{Recorded, recording}
use cloudfs.Fs.Recorder.Sent.{IsGranting}
use cloudfs.Fs.Recorder.Conversation.{
  calls_of, version_after, lock_call, operation_for, serve_each, serve_each-serve_all, Sent, fresh,
  live, step-Sent, step-IsSound, each-Sent,
}

same_version : (n k : ℕ) → (version_after n ≡ version_after (n + k)) ↔ (k % 2 ^ 32 ≡ 0)
same_version n k = (λ e. omega arith, λ e. omega arith)

-- A mount that has served some requests; then an open, others, and the release of its handle.
module _ (os : Os) (cfg : Config) (bad_fd : ℕ) (w : os.World) (before : List Request)
    (path : FilePath) (flags : ℕ) (between : List Request) where
  abbrev pub at_first : Mount (Recorded os.World)
  at_first = (serve_each (recording os) cfg bad_fd before (fresh os cfg bad_fd w)).1

  abbrev pub at_open : Mount (Recorded os.World)
  at_open = (serve (recording os) cfg bad_fd (do_open path flags) at_first).1

  abbrev pub at_last : Mount (Recorded os.World)
  at_last = (serve_each (recording os) cfg bad_fd between at_open).1

  abbrev pub at_release : Mount (Recorded os.World)
  at_release = (serve (recording os) cfg bad_fd (on_handle path at_first.next do_release) at_last).1

module _ (os : Os) (grants : IsGranting os) (cfg : Config) (bad_fd : ℕ) where
  each-IsSound :
      (qs : List Request) (n : ℕ) (m : Mount (Recorded os.World))
      → IsSound n m
      → IsSound (n + opens_of qs) (serve_each (recording os) cfg bad_fd qs m).1
  each-IsSound qs n m sound =
      subst (IsSound (n + opens_of qs)) (sym (serve_each-serve_all (recording os) cfg bad_fd qs m))
        (serve_all-IsSound (recording os) cfg bad_fd qs n m sound)

  releasing :
      (path : FilePath) (i n : ℕ) (calls : List LockParams) (m : Mount (Recorded os.World))
      (fh : Fh)
      → m.handles i ≡ some fh
      → IsSound n m
      → Sent calls m
      → Sent
          (calls ++ (lock_call path 3 n ∷ []))
          (serve (recording os) cfg bad_fd (on_handle path i do_release) m).1
  unfolding serve
  releasing path i n calls m fh e sound h =
      subst
        (λ f.
          Sent (calls ++ (lock_call path 3 n ∷ []))
            (on_live (recording os) cfg path i bad_fd f do_release m).1)
        (sym e) (live os grants cfg bad_fd path i n do_release calls m (some fh) sound h)

  module _ (w : os.World) (before : List Request) (path : FilePath) (flags : ℕ)
      (between : List Request) where
    abbrev first : Mount (Recorded os.World)
    first = at_first os cfg bad_fd w before path flags between

    abbrev opened : Mount (Recorded os.World)
    opened = at_open os cfg bad_fd w before path flags between

    abbrev last : Mount (Recorded os.World)
    last = at_last os cfg bad_fd w before path flags between

    abbrev closed : Mount (Recorded os.World)
    closed = at_release os cfg bad_fd w before path flags between

    -- On a system whose lock service answers OK to every call (IsGranting) and which notes the
    -- calls of it, and whatever else it answers: let a fresh mount serve any requests, then an
    -- open, then any others, after which the handle that the open gave is live, and then the
    -- release of this handle with the same path. The open sends one call more, and the release
    -- sends one call more, with the same key. The two have the same version exactly if the number
    -- of opens between them is a multiple of 2 ^ 32.
    pub versions_agree :
        (fh : Fh)
        → last.handles first.next ≡ some fh
        → (a b : LockParams) × (calls_of opened ≡ calls_of first ++ (a ∷ []))
          × (calls_of closed ≡ calls_of last ++ (b ∷ []))
          × (a.key ≡ b.key)
          × ((a.version ≡ b.version) ↔ (opens_of between % 2 ^ 32 ≡ 0))
    versions_agree fh e =
        let m0 = fresh os cfg bad_fd w in
        let sound0 : IsSound 0 m0 = mounted-IsSound (recording os) cfg bad_fd m0.globals.world in
        let n = 0 + opens_of before in
        let sound1 : IsSound n first = each-IsSound before 0 m0 sound0 in
        let sent1 = each-Sent os grants cfg bad_fd before 0 [] m0 sound0 refl in
        let sound2 = step-IsSound os grants cfg bad_fd (do_open path flags) n first sound1 in
        let sent2 = step-Sent os grants cfg bad_fd (do_open path flags) n _ first sound1 sent1 in
        let sound3 = each-IsSound between (suc n) opened sound2 in
        let sent3 = each-Sent os grants cfg bad_fd between (suc n) _ opened sound2 sent2 in
        let sent4 = releasing path first.next _ _ last fh e sound3 sent3 in
        let opening = lock_call path (operation_for flags) (suc n) in
        let closing = lock_call path 3 (suc n + opens_of between) in
        (
          opening,
          closing,
          ap (λ v. v.0) sent2 ∙ ap (λ c. c ++ (opening ∷ [])) (sym (ap (λ v. v.0) sent1)),
          ap (λ v. v.0) sent4 ∙ ap (λ c. c ++ (closing ∷ [])) (sym (ap (λ v. v.0) sent3)),
          refl,
          same_version (suc n) (opens_of between),
        )
