-- ===== src/Exec.antt =====
-- Code that changes a state and returns a result of Go: `Exec S A`. A panic keeps the changes that
-- were made before it.
use kava_proxy_service.Base.{
  Option, none, some, Bool, true, false, Error, Result, ok, err, panic, ◌≡◌, refl,
}

abbrev pub Exec : Type 0 → Type 0 → Type 0
Exec S A = S → S × Result A

abbrev pub from_option : {A : Type 0} → Error → Option A → Result A
from_option e none = err e
from_option e (some a) = ok a

abbrev pub check : Bool → Error → Result (Unit {0})
check true e = ok tt
check false e = err e

module _ {S : Type 0} where
  abbrev pub pure : {A : Type 0} → A → Exec S A
  pure a s = (s, ok a)

  abbrev pub raise : {A : Type 0} → Error → Exec S A
  raise e s = (s, err e)

  abbrev pub lift : {A : Type 0} → Result A → Exec S A
  lift r s = (s, r)

  -- `if err != nil { return err }`, where only the presence of an error counts.
  abbrev pub lift_option : {A : Type 0} → Error → Option A → Exec S A
  lift_option e o s = (s, from_option e o)

  -- `if !b { return e }`
  abbrev pub require : Bool → Error → Exec S (Unit {0})
  require b e s = (s, check b e)

  abbrev pub then_run : {A B : Type 0} → S → Result A → (A → Exec S B) → S × Result B
  then_run s (ok a) k = k a s
  then_run s (err e) k = (s, err e)
  then_run s panic k = (s, panic)

  infixl 5 ◌>>=◌ ◌>>◌
  abbrev pub ◌>>=◌ : {A B : Type 0} → Exec S A → (A → Exec S B) → Exec S B
  ◌>>=◌ m k s = then_run (m s).0 (m s).1 k

  abbrev pub ◌>>◌ : {B : Type 0} → Exec S (Unit {0}) → Exec S B → Exec S B
  m >> k = m >>= λ _. k

-- Inversion of a bind that returns a value.
pub bind-eq-ok :
    {S A B : Type 0} (m : Exec S A) (k : A → Exec S B) (s : S) {b : B}
    → ((m >>= k) s).1 ≡ ok b
    → (a : A) × ((m s).1 ≡ ok a) × ((k a (m s).0).1 ≡ ok b) × (((m >>= k) s).0 ≡ (k a (m s).0).0)
bind-eq-ok {S} {A} {B} m k s {b} h = go (m s).0 (m s).1 h
  where
    go :
        (s' : S) (r : Result A)
        → (then_run s' r k).1 ≡ ok b
        → (a : A) × (r ≡ ok a) × ((k a s').1 ≡ ok b) × ((then_run s' r k).0 ≡ (k a s').0)
    go s' (ok a) h = (a, refl, h, refl)
    go s' (err e) h = cc
    go s' panic h = cc

pub check-eq-ok : (b : Bool) (e : Error) {u : Unit {0}} → check b e ≡ ok u → b ≡ true
check-eq-ok true e h = refl
check-eq-ok false e h = cc

pub from_option-eq-ok :
    {A : Type 0} (e : Error) (o : Option A) {a : A} → from_option e o ≡ ok a → o ≡ some a
from_option-eq-ok e none h = cc
from_option-eq-ok e (some a) h = cc
