-- ===== src/Errors.antt =====
-- server/errors.go, and the errors that the codecs and the storage return. `errors.Trace` adds a
-- stack trace and `errors.Cause` takes it off again, so a traced error is the error.
use mock_tikv.Prelude.{ℕ, Bytes, ◌≡◌, refl, ◌⊎◌, inl, inr}
use Prim.Native.String.{String}

-- ErrLocked
pub record Locked : Type 0 where
  pub key : Bytes
  pub primary : Bytes
  pub start_ts : ℕ
  pub ttl : ℕ

pub data Error : Type 0 where
  -- codec.go
  insufficient_bytes invalid_marker invalid_padding : Error
  -- mvcc_leveldb.go
  invalid_encoded_key : Error
  -- mvcc.go: `io.EOF` and its kin, an overlong varint, a slice of more than 10 MiB
  unexpected_eof varint_overflow too_large_slice : Error
  -- errors.go
  locked : Locked → Error
  retryable abort : String → Error
  already_committed : ℕ → Error
  -- an error of the storage engine, by its text
  engine : String → Error

-- Go's (value, error) pair, of which the callers read one half.
pub data Result {ℓ} (A : Type ℓ) : Type ℓ where
  ok : A → Result A
  err : Error → Result A

-- `if err != nil { return err }` between two calls
infixl 5 ◌>>=◌
abbrev pub ◌>>=◌ {κ ℓ} : {B : Type κ} {A : Type ℓ} → Result B → (B → Result A) → Result A
err x >>= next = err x
ok b >>= next = next b

-- A block that succeeds has succeeded at each step.
pub >>=-eq-ok {κ ℓ} :
    {B : Type κ} {A : Type ℓ} (r : Result B) (next : B → Result A) {a : A}
    → (r >>= next) ≡ ok a
    → (b : B) × (r ≡ ok b) × (next b ≡ ok a)
>>=-eq-ok (err x) next e = cc
>>=-eq-ok (ok b) next e = (b, refl, e)

pub Result-cases {ℓ} :
    {A : Type ℓ} (r : Result A) → ((a : A) × (r ≡ ok a)) ⊎ ((e : Error) × (r ≡ err e))
Result-cases (ok a) = inl (a, refl)
Result-cases (err e) = inr (e, refl)
