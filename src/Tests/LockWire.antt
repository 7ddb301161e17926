-- ===== src/Tests/LockWire.antt =====
-- The parameters of one lock call on the wire, with streams in memory.
use cloudfs.Base.{
  ℕ, ◌≡◌, refl, sym, ap, ◌∙◌, arith, Bool, true, false, List, [], ◌∷◌, ◌++◌, length, take, drop,
}
use cloudfs.Fs.Names.{Key}
use cloudfs.Fs.Os.{LockParams}
use cloudfs.Fs.LockWire.{Direction, encode, decode, free, Filtered, Xdr, xdr_lock_params}
use cloudfs.Fs.LockWire.Wired.{IsXdr, xdr_lock_params_lem}

-- A stream of units: a number is one, and a string its length and its bytes. It gives no buffer
-- while it encodes.
pub record Stream : Type 0 where
  pub direction : Direction
  pub units : List ℕ

abbrev writes : {A : Type 0} → A → List ℕ → Stream → Filtered Stream A
writes a new s = ((true, a), record s { units = s.units ++ new })

abbrev string_units : Key → List ℕ
string_units key = length key ∷ key

abbrev first_unit : List ℕ → ℕ
first_unit [] = 0
first_unit (n ∷ ns) = n

abbrev next_unit : Stream → ℕ × Stream
next_unit s = (first_unit s.units, record s { units = drop 1 s.units })

abbrev string_by : Direction → Key → Stream → Filtered Stream Key
string_by encode key s = writes key (string_units key) s
string_by decode key s =
    let (n, s1) = next_unit s in ((true, take n s1.units), record s1 { units = drop n s1.units })
string_by free key s = ((true, key), s)

abbrev enum_by : Direction → ℕ → Stream → Filtered Stream ℕ
enum_by encode e s = writes e (e ∷ []) s
enum_by decode e s = let (n, s1) = next_unit s in ((true, n), s1)
enum_by free e s = ((true, e), s)

abbrev vector_by : Direction → ℕ × ℕ → Stream → Filtered Stream (ℕ × ℕ)
vector_by encode v s = writes v (v.0 ∷ v.1 ∷ []) s
vector_by decode v s =
    let (a, s1) = next_unit s in let (b, s2) = next_unit s1 in ((true, (a, b)), s2)
vector_by free v s = ((true, v), s)

abbrev inline_by : Direction → Bool
inline_by encode = false
inline_by decode = true
inline_by free = false

abbrev streams : Xdr Stream
streams = record {
  x_op = λ s. s.direction;
  xdr_string = λ key max s. string_by s.direction key s;
  xdr_enum = λ e s. enum_by s.direction e s;
  xdr_vector = λ v s. vector_by s.direction v s;
  inline = λ n s. (inline_by s.direction, s);
  put_long = λ n s. record s { units = s.units ++ (n ∷ []) };
  get_long = next_unit;
}

split_again :
    (key rest : List ℕ)
    → (take (length key) (key ++ rest) ≡ key) × (drop (length key) (key ++ rest) ≡ rest)
split_again [] rest = (refl, refl)
split_again (c ∷ cs) rest = let (t, d) = split_again cs rest in (ap (λ l. c ∷ l) t, d)

unbuffered : (s s1 : Stream) → s.direction ≡ encode → streams.inline 8 s ≡ (true, s1) → ⊥
unbuffered s s1 op e = cc (ap (λ r. r.0) e, op)

abbrev memory_xdr : IsXdr streams
memory_xdr = record {
  wire = λ s. s.units;
  string_bytes = string_units;
  int_bytes = λ n. n ∷ [];
  string_put =
      λ max key s op fits. (record s { units = s.units ++ string_units key }, rw op refl, op, refl);
  string_get = λ max key old rest s op held fits.
      let (t, d) = split_again key rest in
      (record s { units = rest }, rw (op, held, t, d) refl, op, refl);
  enum_put = λ e s op. (record s { units = s.units ++ (e ∷ []) }, rw op refl, op, refl);
  enum_get = λ e old rest s op held h. (record s { units = rest }, rw (op, held) refl, op, refl);
  vector_put = λ a b s op. (record s { units = s.units ++ (a ∷ b ∷ []) }, rw op refl, refl);
  vector_get = λ a b old rest s op held h k. (record s { units = rest }, rw (op, held) refl, refl);
  not_inline = λ n s s1 e. (ap (λ r. r.1.direction) (sym e), ap (λ r. r.1.units) (sym e));
  inline_put = λ a b s s1 op e. absurd (unbuffered s s1 op e);
  inline_get = λ a b rest s s1 op held h k e.
      let u = ap (λ r. r.1.units) (sym e) ∙ held in
      (record s1 { units = b ∷ rest }, record s1 { units = rest }, rw u refl, refl, refl);
}

-- A WRITE lock of the file "/a" after some opens.
abbrev asked : LockParams
asked = record { key = b'+' ∷ b'a' ∷ []; operation = 2; machine = 0; version = 7 }

abbrev nothing_asked : LockParams
nothing_asked = record { key = []; operation = 0; machine = 0; version = 0 }

abbrev sending : Stream
sending = record { direction = encode; units = [] }

abbrev receiving : Stream
receiving = record {
  direction = decode;
  units = (xdr_lock_params streams asked sending).1.units ++ (99 ∷ []);
}

xdr_lock_params_lem_example :
    (s' t' : Stream) × (xdr_lock_params streams asked sending ≡ ((true, asked), s'))
    × (xdr_lock_params streams nothing_asked receiving ≡ ((true, asked), t'))
    × (t'.units ≡ 99 ∷ [])
xdr_lock_params_lem_example =
    xdr_lock_params_lem streams memory_xdr asked nothing_asked sending receiving (99 ∷ []) refl refl
      refl refl (omega arith) (omega arith) (omega arith) (omega arith)
