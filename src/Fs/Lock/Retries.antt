-- ===== src/Fs/Lock/Retries.antt =====
-- The retransmissions of the lock calls of cloudfs/cloudfs.c end, whatever the service answers.
use mathlib.Core.Path.{subst}
use cloudfs.Base.{
  ℕ, zero, suc, ◌<◌, ◌≡◌, ◌≢◌, ◌⊎◌, inl, inr, refl, sym, ◌∙◌, ap, arith, true, false, ◌==◌, Option,
  none, some,
}
use cloudfs.Base.{Bool-cases, if-true, if-false}
use cloudfs.Fs.Names.{FilePath}
use cloudfs.Fs.Os.{Os, Call}
use cloudfs.Fs.State.{Globals}
use cloudfs.Fs.Lock.{maxblock, lock_operation, lock_arg, stored, acquire_loop, acquire_lock_wrapper}
use cloudfs.Fs.Lock.{release_loop, release_lock_wrapper}

-- `n` calls from `w` to `w'` that did not answer OK, each with the wait after it.
pub data Refused (os : Os) (call : Call os.World ℕ) : ℕ → os.World → os.World → Type 0 where
  at_once : (w : os.World) → Refused os call zero w w
  later :
      {n : ℕ} {w w1 w' : os.World} (r : Option ℕ)
      → call w ≡ (r, w1)
      → r ≢ some 1
      → Refused os call n (os.usleep w1) w'
      → Refused os call (suc n) w w'

-- Fewer than `left` refused calls and then one that answers OK, or `left` refused ones.
abbrev pub Answered : (os : Os) → Call os.World ℕ → ℕ → os.World → os.World → Type 0
Answered os call left w w' =
    (n : ℕ) × (w1 : os.World) × (n < left) × Refused os call n w w1 × (call w1 ≡ (some 1, w'))

granted : (r : Option ℕ) (result : ℕ) → result ≢ 1 → (stored r result == 1) ≡ true → r ≡ some 1
granted none result h e = absurd (ground arith)
granted (some k) result h e = ground arith

refused : (r : Option ℕ) (result : ℕ) → (stored r result == 1) ≡ false → r ≢ some 1
refused none result e = λ h. cc
refused (some k) result e = λ h. ground arith

still : (r : Option ℕ) (result : ℕ) → (stored r result == 1) ≡ false → stored r result ≢ 1
still r result e = ground arith

-- What a loop of up to `left` calls comes to: `won` after the answer OK, else `lost`.
abbrev pub Retries :
    {X : Type 0} (os : Os) → Call os.World ℕ → (won lost : os.World → X) → ℕ → os.World → X → Type 0
Retries os call won lost left w end =
    ((w' : os.World) × Answered os call left w w' × (end ≡ won w'))
    ⊎ ((w' : os.World) × Refused os call left w w' × (end ≡ lost w'))

module _ {X : Type 0} (os : Os) (call : Call os.World ℕ) (loop : ℕ → ℕ → os.World → X)
    (won lost : os.World → X)
    (stops : (left result : ℕ) (w : os.World)
      → (stored (call w).0 result == 1) ≡ true
      → loop (suc left) result w ≡ won (call w).1)
    (goes_on : (left result : ℕ) (w : os.World)
      → (stored (call w).0 result == 1) ≡ false
      → loop (suc left) result w ≡ loop left (stored (call w).0 result) (os.usleep (call w).1))
    (gives_up : (result : ℕ) (w : os.World) → loop zero result w ≡ lost w) where
  loop_lem :
      (left result : ℕ) (w : os.World)
      → result ≢ 1
      → Retries os call won lost left w (loop left result w)
  loop_lem zero result w h = inr (w, at_once w, gives_up result w)
  loop_lem (suc left) result w h =
      let (r, w1) = call w in
      elim (Bool-cases (stored r result == 1)) [
        | inl e ↦ inl (
          w1,
          (0, w, omega arith, at_once w, ap (λ x. (x, w1)) (granted r result h e)),
          stops left result w e,
        )
        | inr e ↦ elim (loop_lem left (stored r result) (os.usleep w1) (still r result e)) [
          | inl (w', (n, w2, small, steps, last), same) ↦ inl (
            w',
            (suc n, w2, omega arith, later r refl (refused r result e) steps, last),
            goes_on left result w e ∙ same,
          )
          | inr (w', steps, same) ↦
              inr (w', later r refl (refused r result e) steps, goes_on left result w e ∙ same)
        ]
      ]

module _ (os : Os) (path : FilePath) (s : Globals os.World) where
  abbrev pub after : os.World → (Unit {0}) × Globals os.World
  after w = (tt, record s { world = w })

  -- Whatever the lock service answers, `acquire_lock_wrapper` ends: either some call among the
  -- first MAXBLOCK answers OK, every call before it did not, each with a wait after it, and the
  -- globals are as before; or MAXBLOCK calls did not answer OK, and `skip` is set. No other call
  -- of the system is made.
  pub acquire_lock_wrapper_lem :
      (flags : ℕ)
      → Retries os
          (os.acquire_1 (lock_arg os path (lock_operation flags) s.version))
          after
          (λ w. (tt, record s { world = w; skip = true }))
          maxblock
          s.world
          (acquire_lock_wrapper os path flags s)
  unfolding acquire_lock_wrapper acquire_loop
  acquire_lock_wrapper_lem flags =
      loop_lem os (os.acquire_1 (lock_arg os path (lock_operation flags) s.version))
        (λ left result w. acquire_loop os path flags left result (record s { world = w })) after
        (λ w. (tt, record s { world = w; skip = true })) (λ left result w e. rw e refl)
        (λ left result w e. rw e refl) (λ result w. refl) maxblock 0 s.world (λ e. cc)

  release_loop_lem :
      Retries os
        (os.release_1 (lock_arg os path 3 s.version))
        after
        after
        maxblock
        s.world
        (release_loop os path maxblock 0 s)
  unfolding release_loop
  release_loop_lem =
      loop_lem os (os.release_1 (lock_arg os path 3 s.version))
        (λ left result w. release_loop os path left result (record s { world = w })) after after
        (λ left result w e. rw e refl) (λ left result w e. rw e refl) (λ result w. refl) maxblock 0
        s.world (λ e. cc)

  by_skip :
      (s.skip ≡ true → release_lock_wrapper os path s ≡ (tt, record s { skip = false }))
      × (s.skip ≡ false → release_lock_wrapper os path s ≡ release_loop os path maxblock 0 s)
  unfolding release_lock_wrapper
  by_skip = (λ e. if-true s.skip _ _ e, λ e. if-false s.skip _ _ e)

  -- If `skip` is set, `release_lock_wrapper` only clears it. If not, then whatever the lock
  -- service answers, it ends with the globals as before: either some call among the first MAXBLOCK
  -- answered OK and every call before it did not, each with a wait after it, or MAXBLOCK calls did
  -- not answer OK.
  pub release_lock_wrapper_lem :
      (s.skip ≡ true → release_lock_wrapper os path s ≡ (tt, record s { skip = false }))
      × (s.skip ≡ false
          → Retries os
              (os.release_1 (lock_arg os path 3 s.version))
              after
              after
              maxblock
              s.world
              (release_lock_wrapper os path s))
  release_lock_wrapper_lem = (
    by_skip.0,
    λ e.
        subst
          (Retries os (os.release_1 (lock_arg os path 3 s.version)) after after maxblock s.world)
          (sym (by_skip.1 e)) release_loop_lem,
  )
