-- ===== src/Codec/Safety.antt =====
-- Readers that do not panic where enough bytes are left.
use fips_native.Base.{
  ℕ, ◌+◌, ◌-◌, ◌≤◌, ◌≡◌, ◌≢◌, refl, arith, List, [], ◌∷◌, ltb, length, take, drop, length-drop,
  le→leb, Bool-cases, ltb-false→le, inl, inr,
}
use fips_native.Codec.Bytes.{from_le, from_bytes}
use fips_native.Codec.Reader.{
  Outcome, ok, err, panic, Reader, ◌>>=◌, pure, result, bytes, u8, uint, addr, rest, need,
}

-- The reader takes `n` bytes, if they are there.
abbrev pub Takes {ℓ} : {A : Type ℓ} → ℕ → Reader A → Type ℓ
Takes {A} n r =
    (xs : List ℕ)
    → n ≤ length xs
    → (a : A) × (rest : List ℕ) × (r xs ≡ ok (a, rest)) × (length rest ≡ length xs - n)

-- The reader does not panic where `n` bytes are left.
abbrev pub Safe {ℓ} : {A : Type ℓ} → ℕ → Reader A → Type ℓ
Safe n r = (xs : List ℕ) → n ≤ length xs → r xs ≢ panic

pub bytes-Takes : (n : ℕ) → Takes n (bytes n)
unfolding bytes
bytes-Takes n xs h = (take n xs, drop n xs, rw (le→leb n (length xs) h), length-drop n xs)

pub u8-Takes : Takes 1 u8
unfolding u8
u8-Takes [] h = absurd (omega arith)
u8-Takes (x ∷ xs) h = (x, xs, refl, omega arith)

pub uint-Takes : (w : ℕ) → Takes w (uint w)
unfolding uint
uint-Takes w xs h =
    let (b, rest, e, l) = bytes-Takes w xs h in (from_le b, rest, rw (e, uint, ◌>>=◌), l)

pub addr-Takes : Takes 16 addr
unfolding addr
addr-Takes xs h =
    let (b, rest, e, l) = bytes-Takes 16 xs h in (from_bytes b, rest, rw (e, addr, ◌>>=◌), l)

pub pure-Safe {ℓ} : {A : Type ℓ} (a : A) → Safe 0 (pure a)
pure-Safe a xs h e = cc

pub Safe-bind {ℓ κ} :
    {A : Type ℓ} {B : Type κ} (n m : ℕ) (r : Reader A) (f : A → Reader B)
    → Takes n r
    → ((a : A) → Safe m (f a))
    → Safe (n + m) (r >>= f)
Safe-bind n m r f t s xs h =
    let (a, rest, e, l) = t xs (omega arith) in rw (e, ◌>>=◌) (s a rest (omega arith))

-- A decoder's result is no panic where its reader does not panic.
pub result-ne-panic {ℓ} : {A : Type ℓ} (o : Outcome (A × List ℕ)) → o ≢ panic → result o ≢ panic
result-ne-panic (ok (a, rest)) h e = cc
result-ne-panic (err x) h e = cc
result-ne-panic panic h e = h refl

pub rest-Safe {ℓ} :
    {B : Type ℓ} (f : List ℕ → Reader B) → ((b : List ℕ) → Safe 0 (f b)) → Safe 0 (rest >>= f)
unfolding rest
rest-Safe f s xs h = s xs [] (omega arith)

pub Safe-then {ℓ κ} :
    {A : Type ℓ} {B : Type κ} (r : Reader A) (f : A → Reader B)
    → Safe 0 r
    → ((a : A) → Safe 0 (f a))
    → Safe 0 (r >>= f)
Safe-then {A} r f s t xs h = go (r xs) (s xs (omega arith))
  where
    go :
        (o : Outcome (A × List ℕ))
        → o ≢ panic
        → (elim o [ ok (a, l) ↦ f a l | err e ↦ err e | panic ↦ panic ]) ≢ panic
    go (ok (a, l)) n = t a l (omega arith)
    go (err e) n = λ p. cc
    go panic n = λ p. n refl

-- Behind the check, the bytes are there.
pub need-Safe {ℓ} :
    {B : Type ℓ} (total n : ℕ) (f : Unit {0} → Reader B)
    → Safe n (f tt)
    → Safe 0 (need total n >>= f)
unfolding need
need-Safe total n f s xs h = elim (Bool-cases (ltb (length xs) n)) [
  | inl short ↦ rw (short, ◌>>=◌) (λ e. cc)
  | inr enough ↦ rw (enough, ◌>>=◌) (s xs (ltb-false→le (length xs) n enough))
]
