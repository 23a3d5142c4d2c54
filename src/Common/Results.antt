-- ===== src/Common/Results.antt =====
-- The outcome of a fallible call: a value, an error that the caller gets back, a panic that ends
-- the component, or a model loop whose fuel ran out.
use Prim.Native.Nat.{ℕ}
use mathlib.Core.Option.{Option, none, some}

pub data Error : Type 0 where
  invalid_sender : Error
  uninitialized_watermark : Error
  uninitialized_epoch : Error
  checkpoint_dir_missing : Error
  wrong_type : Error
  short_source : ℕ → ℕ → Error
  short_target : ℕ → ℕ → Error
  protobuf_encode : Error
  protobuf_decode : Error
  alloc_failed : Error
  missing_column_family : Error
  missing_options : Error
  rocks_uninitialized : Error
  unexpected_eof : Error

pub data Res {ℓ} (A : Type ℓ) : Type ℓ where
  ok : A → Res A
  err : Error → Res A
  panic : Res A
  out_of_fuel : Res A

infixl 5 ◌>>=◌ ◌>>◌
abbrev pub ◌>>=◌ {ℓ κ} : {A : Type ℓ} {B : Type κ} → Res A → (A → Res B) → Res B
ok a >>= f = f a
err e >>= f = err e
panic >>= f = panic
out_of_fuel >>= f = out_of_fuel

abbrev pub ◌>>◌ {ℓ} : {B : Type ℓ} → Res (Unit {0}) → Res B → Res B
m >> k = m >>= λ _. k

-- `ok_or_else`: an absent value is an error.
abbrev pub ok_or {ℓ} : {A : Type ℓ} → Option A → Error → Res A
ok_or none e = err e
ok_or (some a) e = ok a

-- `expect` and `unwrap`: an absent value is a panic.
abbrev pub or_panic {ℓ} : {A : Type ℓ} → Option A → Res A
or_panic none = panic
or_panic (some a) = ok a
