-- ===== src/Families/Results.antt =====
-- What a call ensures of its result where it does not raise.
use diggy.Prelude.{Bool, true, false, ◌≡◌, refl, Option, none, some, arith}
use diggy.Families.Rows.{Error, Result, ok, err, ◌>>=◌, ◌>>◌, or_raise, raise_if}

abbrev pub Ensures : {A : Type 0} → (A → Type 0) → Result A → Type 0
Ensures P (ok a) = P a
Ensures P (err e) = Unit

module _ {A B : Type 0} (Q : B → Type 0) where
  pub Ensures-bind :
      (P : A → Type 0) (m : Result A) (f : A → Result B)
      → Ensures P m
      → ((a : A) → P a → Ensures Q (f a))
      → Ensures Q (m >>= f)
  Ensures-bind P (ok a) f h k = k a h
  Ensures-bind P (err e) f h k = tt

  pub Ensures-or_raise :
      (o : Option A) (e : Error) (f : A → Result B)
      → ((a : A) → o ≡ some a → Ensures Q (f a))
      → Ensures Q (or_raise o e >>= f)
  Ensures-or_raise none e f k = tt
  Ensures-or_raise (some a) e f k = k a refl

module _ {B : Type 0} (Q : B → Type 0) where
  pub Ensures-raise_if :
      (b : Bool) (e : Error) (m : Result B)
      → (b ≡ false → Ensures Q m)
      → Ensures Q (raise_if b e >> m)
  Ensures-raise_if true e m k = tt
  Ensures-raise_if false e m k = k refl

  pub Ensures-ok : (m : Result B) (b : B) → Ensures Q m → m ≡ ok b → Q b
  Ensures-ok (ok a) b h e = ground arith
  Ensures-ok (err x) b h e = ground arith
