-- ===== src/Fs/State/Keeps.antt =====
-- Actions on the globals that leave a part of them, the view, as it is: one rule for each way in
-- which the handlers of cloudfs/cloudfs.c put actions together.
use cloudfs.Base.{◌≡◌, ◌∙◌, Bool, true, false, Option, none, some, if◌then◌else◌}
use cloudfs.Fs.State.{M, Globals, ◌>>=◌, on}

module _ {W X : Type 0} (view : Globals W → X) where
  abbrev pub Keeps : {A : Type 0} → M W A → Type 0
  Keeps m = (s : Globals W) → view (m s).1 ≡ view s

  pub >>=-Keeps :
      {A B : Type 0} (m : M W A) (f : A → M W B)
      → Keeps m
      → ((a : A) → Keeps (f a))
      → Keeps (m >>= f)
  >>=-Keeps m f h k s = k (m s).0 (m s).1 ∙ h s

  pub on-Keeps :
      {A B : Type 0} (o : Option A) (failed : M W B) (k : A → M W B)
      → Keeps failed
      → ((a : A) → Keeps (k a))
      → Keeps (on o failed k)
  on-Keeps none failed k h h' = h
  on-Keeps (some a) failed k h h' = h' a

  pub if-Keeps :
      {A : Type 0} (b : Bool) (x y : M W A) → Keeps x → Keeps y → Keeps (if b then x else y)
  if-Keeps true x y h k = h
  if-Keeps false x y h k = k

  pub either-Keeps :
      {A : Type 0} (b : Bool) (x y : A × Globals W) (v : X)
      → view x.1 ≡ v
      → view y.1 ≡ v
      → view (if b then x else y).1 ≡ v
  either-Keeps true x y v h k = h
  either-Keeps false x y v h k = k
