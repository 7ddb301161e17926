-- ===== src/Fs/LockWire/Wired.antt =====
-- What one side of a lock call encodes, the other decodes.
use mathlib.Core.List.{append_assoc}
use cloudfs.Base.{ℕ, ◌^◌, ◌≤◌, ◌<◌, ◌≡◌, refl, ap, ◌∙◌, Bool, true, false, List, [], ◌++◌, length}
use cloudfs.Fs.Names.{Key}
use cloudfs.Fs.Os.{LockParams}
use cloudfs.Fs.LockWire.{
  encode, decode, Xdr, maxnamelen, xdr_keyname, xdr_type, xdr_identity_by, xdr_identity,
  xdr_lock_params,
}

-- What the code relies on in the XDR library, on streams with room: `wire` is what is written so
-- far, or what is yet to be read.
pub record IsXdr {S : Type 0} (x : Xdr S) : Type 0 where
  pub wire : S → List ℕ
  pub string_bytes : Key → List ℕ
  pub int_bytes : ℕ → List ℕ
  pub string_put :
      (max : ℕ) (key : Key) (s : S)
      → x.x_op s ≡ encode
      → length key ≤ max
      → (s' : S) × (x.xdr_string key max s ≡ ((true, key), s'))
        × (x.x_op s' ≡ encode)
        × (wire s' ≡ wire s ++ string_bytes key)
  pub string_get :
      (max : ℕ) (key old : Key) (rest : List ℕ) (s : S)
      → x.x_op s ≡ decode
      → wire s ≡ string_bytes key ++ rest
      → length key ≤ max
      → (s' : S) × (x.xdr_string old max s ≡ ((true, key), s'))
        × (x.x_op s' ≡ decode)
        × (wire s' ≡ rest)
  pub enum_put :
      (e : ℕ) (s : S)
      → x.x_op s ≡ encode
      → (s' : S) × (x.xdr_enum e s ≡ ((true, e), s'))
        × (x.x_op s' ≡ encode)
        × (wire s' ≡ wire s ++ int_bytes e)
  pub enum_get :
      (e old : ℕ) (rest : List ℕ) (s : S)
      → x.x_op s ≡ decode
      → wire s ≡ int_bytes e ++ rest
      → e < 2 ^ 32
      → (s' : S) × (x.xdr_enum old s ≡ ((true, e), s')) × (x.x_op s' ≡ decode) × (wire s' ≡ rest)
  pub vector_put :
      (a b : ℕ) (s : S)
      → x.x_op s ≡ encode
      → (s' : S) × (x.xdr_vector (a, b) s ≡ ((true, (a, b)), s'))
        × (wire s' ≡ wire s ++ (int_bytes a ++ int_bytes b))
  pub vector_get :
      (a b : ℕ) (old : ℕ × ℕ) (rest : List ℕ) (s : S)
      → x.x_op s ≡ decode
      → wire s ≡ (int_bytes a ++ int_bytes b) ++ rest
      → a < 2 ^ 32
      → b < 2 ^ 32
      → (s' : S) × (x.xdr_vector old s ≡ ((true, (a, b)), s')) × (wire s' ≡ rest)
  pub not_inline :
      (n : ℕ) (s s1 : S) → x.inline n s ≡ (false, s1) → (x.x_op s1 ≡ x.x_op s) × (wire s1 ≡ wire s)
  pub inline_put :
      (a b : ℕ) (s s1 : S)
      → x.x_op s ≡ encode
      → x.inline 8 s ≡ (true, s1)
      → wire (x.put_long b (x.put_long a s1)) ≡ wire s ++ (int_bytes a ++ int_bytes b)
  pub inline_get :
      (a b : ℕ) (rest : List ℕ) (s s1 : S)
      → x.x_op s ≡ decode
      → wire s ≡ (int_bytes a ++ int_bytes b) ++ rest
      → a < 2 ^ 32
      → b < 2 ^ 32
      → x.inline 8 s ≡ (true, s1)
      → (s2 s3 : S) × (x.get_long s1 ≡ (a, s2)) × (x.get_long s2 ≡ (b, s3)) × (wire s3 ≡ rest)

module _ {S : Type 0} (x : Xdr S) (lib : IsXdr x) where
  put_by_vector :
      (id : ℕ × ℕ) (s s1 s' : S)
      → x.x_op s ≡ encode
      → x.inline 8 s ≡ (false, s1)
      → x.xdr_vector id s1 ≡ ((true, id), s')
      → xdr_identity x id s ≡ ((true, id), s')
  unfolding xdr_identity xdr_identity_by
  put_by_vector id s s1 s' op e e' = rw (op, e, e') refl

  get_by_vector :
      (id old : ℕ × ℕ) (s s1 s' : S)
      → x.x_op s ≡ decode
      → x.inline 8 s ≡ (false, s1)
      → x.xdr_vector old s1 ≡ ((true, id), s')
      → xdr_identity x old s ≡ ((true, id), s')
  unfolding xdr_identity xdr_identity_by
  get_by_vector id old s s1 s' op e e' = rw (op, e, e') refl

  identity_put :
      (a b : ℕ) (s : S) (given : Bool) (s1 : S)
      → x.inline 8 s ≡ (given, s1)
      → x.x_op s ≡ encode
      → (s' : S) × (xdr_identity x (a, b) s ≡ ((true, (a, b)), s'))
        × (lib.wire s' ≡ lib.wire s ++ (lib.int_bytes a ++ lib.int_bytes b))
  unfolding xdr_identity xdr_identity_by
  identity_put a b s true s1 e op = (_, rw (op, e) refl, lib.inline_put a b s s1 op e)
  identity_put a b s false s1 e op =
      let (op1, d1) = lib.not_inline 8 s s1 e in
      let (s', e', d') = lib.vector_put a b s1 (op1 ∙ op) in
      (
        s',
        put_by_vector (a, b) s s1 s' op e e',
        d' ∙ ap (λ l. l ++ (lib.int_bytes a ++ lib.int_bytes b)) d1,
      )

  identity_get :
      (a b : ℕ) (old : ℕ × ℕ) (rest : List ℕ) (s : S) (given : Bool) (s1 : S)
      → x.inline 8 s ≡ (given, s1)
      → x.x_op s ≡ decode
      → lib.wire s ≡ (lib.int_bytes a ++ lib.int_bytes b) ++ rest
      → a < 2 ^ 32
      → b < 2 ^ 32
      → (s' : S) × (xdr_identity x old s ≡ ((true, (a, b)), s')) × (lib.wire s' ≡ rest)
  unfolding xdr_identity xdr_identity_by
  identity_get a b old rest s true s1 e op held small_a small_b =
      let (s2, s3, e2, e3, d) = lib.inline_get a b rest s s1 op held small_a small_b e in
      (s3, rw (op, e, e2, e3) refl, d)
  identity_get a b old rest s false s1 e op held small_a small_b =
      let (op1, d1) = lib.not_inline 8 s s1 e in
      let (s', e', d') = lib.vector_get a b old rest s1 (op1 ∙ op) (d1 ∙ held) small_a small_b in
      (s', get_by_vector (a, b) old s s1 s' op e e', d')

module _ {S : Type 0} (x : Xdr S) (objp : LockParams) where
  -- The three filters of a record, when all return TRUE.
  filtering :
      (key : Key) (operation a b : ℕ) (s s1 s2 s3 : S)
      → x.xdr_string objp.key maxnamelen s ≡ ((true, key), s1)
      → x.xdr_enum objp.operation s1 ≡ ((true, operation), s2)
      → xdr_identity x (objp.machine, objp.version) s2 ≡ ((true, (a, b)), s3)
      → xdr_lock_params x objp s
        ≡ ((true, record { key = key; operation = operation; machine = a; version = b }), s3)
  unfolding xdr_lock_params xdr_keyname xdr_type
  filtering key operation a b s s1 s2 s3 e1 e2 e3 = rw (e1, e2, e3) refl

module _ {S : Type 0} (x : Xdr S) (lib : IsXdr x) (p : LockParams) where
  -- The key, the operation and the two numbers of the identity.
  abbrev pub wired : List ℕ
  wired =
      lib.string_bytes p.key
      ++ (lib.int_bytes p.operation ++ (lib.int_bytes p.machine ++ lib.int_bytes p.version))

  params_put :
      (s : S)
      → x.x_op s ≡ encode
      → length p.key ≤ maxnamelen
      → (s' : S) × (xdr_lock_params x p s ≡ ((true, p), s')) × (lib.wire s' ≡ lib.wire s ++ wired)
  params_put s op fits =
      let (s1, e1, op1, d1) = lib.string_put maxnamelen p.key s op fits in
      let (s2, e2, op2, d2) = lib.enum_put p.operation s1 op1 in
      let (s3, e3, d3) = identity_put x lib p.machine p.version s2 _ _ refl op2 in
      let numbers = lib.int_bytes p.machine ++ lib.int_bytes p.version in
      (
        s3,
        filtering x p p.key p.operation p.machine p.version s s1 s2 s3 e1 e2 e3,
        d3
            ∙ ap (λ l. l ++ numbers) (d2 ∙ ap (λ l. l ++ lib.int_bytes p.operation) d1)
            ∙ append_assoc (lib.wire s ++ lib.string_bytes p.key) (lib.int_bytes p.operation)
                numbers
            ∙ append_assoc (lib.wire s) (lib.string_bytes p.key)
                (lib.int_bytes p.operation ++ numbers),
      )

  params_get :
      (old : LockParams) (rest : List ℕ) (s : S)
      → x.x_op s ≡ decode
      → lib.wire s ≡ wired ++ rest
      → length p.key ≤ maxnamelen
      → p.operation < 2 ^ 32
      → p.machine < 2 ^ 32
      → p.version < 2 ^ 32
      → (s' : S) × (xdr_lock_params x old s ≡ ((true, p), s')) × (lib.wire s' ≡ rest)
  params_get old rest s op held fits small_o small_m small_v =
      let numbers = lib.int_bytes p.machine ++ lib.int_bytes p.version in
      let (s1, e1, op1, d1) =
        lib.string_get maxnamelen p.key old.key _ s op
          (held ∙ append_assoc (lib.string_bytes p.key) (lib.int_bytes p.operation ++ numbers) rest)
          fits in
      let (s2, e2, op2, d2) =
        lib.enum_get p.operation old.operation _ s1 op1
          (d1 ∙ append_assoc (lib.int_bytes p.operation) numbers rest) small_o in
      let (s3, e3, d3) =
        identity_get x lib p.machine p.version (old.machine, old.version) rest s2 _ _ refl op2 d2
          small_m small_v in
      (s3, filtering x old p.key p.operation p.machine p.version s s1 s2 s3 e1 e2 e3, d3)

module _ {S : Type 0} (x : Xdr S) (lib : IsXdr x) (p old : LockParams) (s t : S) where
  -- With an XDR library whose filters write what they read back, with an inline buffer or without
  -- (IsXdr): `xdr_lock_params` of parameters with a key of at most MAXNAMELEN bytes and with an
  -- operation and an identity of 32 bits, on an empty stream that encodes, returns TRUE; and on a
  -- stream that decodes what was written, followed by anything, it returns TRUE, gives the same
  -- parameters whatever was in the object before, and reads no further.
  pub xdr_lock_params_lem :
      (rest : List ℕ)
      → x.x_op s ≡ encode
      → lib.wire s ≡ []
      → x.x_op t ≡ decode
      → lib.wire t ≡ lib.wire (xdr_lock_params x p s).1 ++ rest
      → length p.key ≤ maxnamelen
      → p.operation < 2 ^ 32
      → p.machine < 2 ^ 32
      → p.version < 2 ^ 32
      → (s' t' : S) × (xdr_lock_params x p s ≡ ((true, p), s'))
        × (xdr_lock_params x old t ≡ ((true, p), t'))
        × (lib.wire t' ≡ rest)
  xdr_lock_params_lem rest op empty op' held fits small_o small_m small_v =
      let (s', e, d) = params_put x lib p s op fits in
      let written : lib.wire (xdr_lock_params x p s).1 ≡ wired x lib p =
        ap (λ r. lib.wire r.1) e ∙ d ∙ ap (λ l. l ++ wired x lib p) empty in
      let (t', e', d') =
        params_get x lib p old rest t op' (held ∙ ap (λ l. l ++ rest) written) fits small_o small_m
          small_v in
      (s', t', e, e', d')
