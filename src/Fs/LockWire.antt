-- ===== src/Fs/LockWire.antt =====
-- cloudfs/cloudfs_lock_service_xdr.c: the parameters of a lock call on the wire. The XDR library is
-- a parameter: a filter writes what it gets, or reads over it, by the direction of the stream.
pub mod Wired
use cloudfs.Base.{ℕ, ◌*◌, Bool, true, false, if◌then◌else◌}
use cloudfs.Fs.Names.{Key}
use cloudfs.Fs.Os.{LockParams}

pub data Direction : Type 0 where
  encode decode free : Direction

-- What a filter returns, what it leaves in the object, and the stream.
abbrev pub Filtered : Type 0 → Type 0 → Type 0
Filtered S A = (Bool × A) × S

pub record Xdr (S : Type 0) : Type 0 where
  pub x_op : S → Direction
  -- With the greatest length.
  pub xdr_string : Key → ℕ → S → Filtered S Key
  pub xdr_enum : ℕ → S → Filtered S ℕ
  -- `xdr_vector` of two `int`, by `xdr_int`.
  pub xdr_vector : ℕ × ℕ → S → Filtered S (ℕ × ℕ)
  -- XDR_INLINE: whether it gives a buffer for so many bytes, which the two macros move through.
  pub inline : ℕ → S → Bool × S
  pub put_long : ℕ → S → S
  pub get_long : S → ℕ × S

abbrev pub maxnamelen : ℕ
maxnamelen = 255

-- The next filter of a record, if the one before returned TRUE.
abbrev pub and_then :
    {S A B : Type 0} → Filtered S A → (A → B) → (B → S → Filtered S B) → Filtered S B
and_then ((false, a), s) put k = ((false, put a), s)
and_then ((true, a), s) put k = k (put a) s

module _ {S : Type 0} (x : Xdr S) where
  unfoldable pub xdr_keyname : Key → S → Filtered S Key
  xdr_keyname key = x.xdr_string key maxnamelen

  abbrev xdr_status : ℕ → S → Filtered S ℕ
  xdr_status = x.xdr_enum

  unfoldable pub xdr_type : ℕ → S → Filtered S ℕ
  xdr_type = x.xdr_enum

  unfoldable pub xdr_identity_by : Direction → ℕ × ℕ → S → Filtered S (ℕ × ℕ)
  xdr_identity_by encode id s =
      let (given, s1) = x.inline (2 * 4) s in
      if given then ((true, id), x.put_long id.1 (x.put_long id.0 s1)) else x.xdr_vector id s1
  xdr_identity_by decode id s =
      let (given, s1) = x.inline (2 * 4) s in
      let (first, s2) = x.get_long s1 in
      let (second, s3) = x.get_long s2 in
      if given then ((true, (first, second)), s3) else x.xdr_vector id s1
  xdr_identity_by free id s = x.xdr_vector id s

  unfoldable pub xdr_identity : ℕ × ℕ → S → Filtered S (ℕ × ℕ)
  xdr_identity id s = xdr_identity_by (x.x_op s) id s

  unfoldable pub xdr_lock_params : LockParams → S → Filtered S LockParams
  xdr_lock_params objp s =
      and_then (xdr_keyname objp.key s) (λ key. record objp { key = key })
        (λ p1 s1.
          and_then (xdr_type p1.operation s1) (λ operation. record p1 { operation = operation })
            (λ p2 s2.
              and_then (xdr_identity (p2.machine, p2.version) s2)
                (λ id. record p2 { machine = id.0; version = id.1 }) (λ p3 s3. ((true, p3), s3))))
