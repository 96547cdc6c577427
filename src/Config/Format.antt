-- ===== src/Config/Format.antt =====
-- serde for crates/core/src/models.rs: the errors of a deserializer, and what a data format does with the
-- values of one type.
use easytidy.Prelude.{Bool, Option, some, ◌≡◌}
use easytidy.Text.{Text}

pub data Error : Type 0 where
  duplicate_field : Text → Error
  missing_field : Text → Error
  invalid : Error

pub data Result {ℓ} (A : Type ℓ) : Type ℓ where
  ok : A → Result A
  err : Error → Result A

infixl 5 ◌>>=◌
abbrev pub ◌>>=◌ {ℓ κ} : {A : Type ℓ} {B : Type κ} → Result A → (A → Result B) → Result B
ok a >>= f = f a
err e >>= f = err e

-- The method of a visitor that `deserialize_any` calls.
pub data Visit : Type 0 where
  visit_bool : Bool → Visit
  visit_str : Text → Visit
  other : Visit

-- A type whose values `Fits` are written and read back.
pub record Codec (V : Type 0) (A : Type 0) (Fits : A → Type 0) : Type 0 where
  pub encode : A → V
  pub decode : V → Option A
  pub read_back : (a : A) → Fits a → decode (encode a) ≡ some a

-- A type read as an `Option`, of which a null is the `None`.
pub record Nullable (V : Type 0) (null : V) (A : Type 0) (Fits : A → Type 0) : Type 0 where
  pub encode : A → V
  pub decode : V → Option (Option A)
  pub read_back : (a : A) → Fits a → decode (encode a) ≡ some (some a)
  pub read_null : decode null ≡ some Option.none
