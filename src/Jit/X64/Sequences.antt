-- ===== src/Jit/X64/Sequences.antt =====
-- What a sequence of appends leaves in the buffer.
use lox_vm.Prelude.{
  ℕ, ◌+◌, ◌*◌, ◌/◌, ◌%◌, ◌^◌, ◌≡◌, refl, ◌∙◌, ap, sym, List, [], ◌∷◌, ◌++◌, append_assoc,
  append-nil, arith, Bool, true, false, if◌then◌else◌, length, some, bit_and,
}
use lox_vm.Prelude.Bits.{bit_and_byte}
use lox_vm.Jit.X64.Emit.{
  Emit, Code, append, return, ◌>>=◌, ◌>>◌, emit_dword_immediate_value, emit_qword_immediate_value,
}

-- `m` appends `bytes` and returns `i`.
abbrev pub Returns : Emit ℕ → List ℕ → ℕ → Type 0
Returns m bytes i = (code : Code) → m code ≡ some (i, code ++ bytes)

-- `m` appends `bytes`, whatever it returns.
abbrev pub Appends : Emit ℕ → List ℕ → Type 0
Appends m bytes = (code : Code) → (i : ℕ) × (m code ≡ some (i, code ++ bytes))

pub append_byte : (v w : ℕ) → v % 256 ≡ w → Appends (append v) (w ∷ [])
append_byte v w e code =
    (length code % 2 ^ 16, ap (λ x. some (length code % 2 ^ 16, code ++ x ∷ [])) e)

pub append_nothing : (i : ℕ) → Appends (return i) []
append_nothing i code = (i, ap (λ c. some (i, c)) (sym (append-nil code)))

pub return_nothing : (i : ℕ) → Returns (return i) [] i
return_nothing i code = ap (λ c. some (i, c)) (sym (append-nil code))

pub then-Appends :
    (m k : Emit ℕ) {u v : List ℕ} → Appends m u → Appends k v → Appends (m >> k) (u ++ v)
then-Appends m k {u} {v} f g code =
    let (i, e) = f code in
    let (j, e') = g (code ++ u) in
    (j, rw (e, ◌>>=◌, e') (ap (λ c. some (j, c)) (append_assoc code u v)))

pub then-Returns :
    (m k : Emit ℕ) {u v : List ℕ} {i : ℕ}
    → Appends m u
    → Returns k v i
    → Returns (m >> k) (u ++ v) i
then-Returns m k {u} {v} {i} f g code =
    let (j, e) = f code in
    rw (e, ◌>>=◌, g (code ++ u)) (ap (λ c. some (i, c)) (append_assoc code u v))

-- The last bytes, after which the index is returned.
pub last-Returns : (m : Emit ℕ) {v : List ℕ} (i : ℕ) → Appends m v → Returns (m >> return i) v i
last-Returns m {v} i f code = let (j, e) = f code in rw (e, ◌>>=◌) refl

-- An instruction whose first byte gives the index.
pub first-Returns :
    (x w : ℕ) (k : ℕ → Emit ℕ) {v : List ℕ}
    → x % 256 ≡ w
    → ((i : ℕ) → Returns (k i) v i)
    → (code : Code) → (append x >>= k) code ≡ some (length code % 2 ^ 16, code ++ w ∷ v)
first-Returns x w k {v} e f code =
    let i = length code % 2 ^ 16 in
    f i (code ++ x % 256 ∷ [])
    ∙ ap (λ c. some (i, c)) (append_assoc code (x % 256 ∷ []) v ∙ ap (λ y. code ++ y ∷ v) e)

pub if-Appends :
    (b : Bool) (m k : Emit ℕ) (u v : List ℕ)
    → (b ≡ true → Appends m u)
    → (b ≡ false → Appends k v)
    → Appends (if b then m else k) (if b then u else v)
if-Appends true m k u v f g = f refl
if-Appends false m k u v f g = g refl

-- the bytes of a number, the lowest first
abbrev pub dword : ℕ → List ℕ
dword v = v % 256 ∷ v / 2 ^ 8 % 256 ∷ v / 2 ^ 16 % 256 ∷ v / 2 ^ 24 % 256 ∷ []

abbrev pub qword : ℕ → List ℕ
qword v =
    dword v ++ (v / 2 ^ 32 % 256 ∷ v / 2 ^ 40 % 256 ∷ v / 2 ^ 48 % 256 ∷ v / 2 ^ 56 % 256 ∷ [])

masked : (v : ℕ) → Appends (append (bit_and v 0xFF)) (v % 256 ∷ [])
masked v = append_byte _ (v % 256) (omega (arith, bit_and_byte v))

pub dword-Appends : (v : ℕ) → Appends (emit_dword_immediate_value v) (dword v)
dword-Appends v = then-Appends _ _ (masked v) (
    then-Appends _ _ (masked (v / 2 ^ 8))
      (then-Appends _ _ (masked (v / 2 ^ 16)) (masked (v / 2 ^ 24))))

pub qword-Appends : (v : ℕ) → Appends (emit_qword_immediate_value v) (qword v)
qword-Appends v = then-Appends _ _ (dword-Appends v) (
    then-Appends _ _ (masked (v / 2 ^ 32)) (
      then-Appends _ _ (masked (v / 2 ^ 40))
        (then-Appends _ _ (masked (v / 2 ^ 48)) (masked (v / 2 ^ 56)))))

-- The value of four bytes, the lowest first.
pub dword_value :
    (v : ℕ)
    → v % 256 + 256 * (v / 2 ^ 8 % 256) + 65536 * (v / 2 ^ 16 % 256) + 16777216 * (v / 2 ^ 24 % 256)
      ≡ v % 2 ^ 32
dword_value v = omega arith
