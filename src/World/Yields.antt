-- ===== src/World/Yields.antt =====
-- What holds of the value of code that can fault, if it returns one.
use log2bgp.Base.{
  ◌≡◌, refl, subst, Bool, true, false, Result, Fault, ok, fault, ensure, ◌>>=◌, ◌>>◌,
}

abbrev pub Yields {ℓ} : {A : Type ℓ} → (A → Type 0) → Result A → Type 0
Yields P (ok v) = P v
Yields P (fault e) = Unit

pub Yields->>= {ℓ κ} :
    {A : Type ℓ} {B : Type κ} (P : A → Type 0) (Q : B → Type 0) (m : Result A) (f : A → Result B)
    → Yields P m
    → ((v : A) → P v → Yields Q (f v))
    → Yields Q (m >>= f)
Yields->>= P Q (ok v) f h k = k v h
Yields->>= P Q (fault e) f h k = tt

-- A check that is passed.
pub Yields-ensure {ℓ} :
    {A : Type ℓ} (Q : A → Type 0) (b : Bool) (e : Fault) (next : Result A)
    → (b ≡ true → Yields Q next)
    → Yields Q (ensure b e >> next)
Yields-ensure Q true e next h = h refl
Yields-ensure Q false e next h = tt

pub Yields-ok {ℓ} :
    {A : Type ℓ} (P : A → Type 0) (m : Result A) (v : A) → Yields P m → m ≡ ok v → P v
Yields-ok P m v h e = subst (Yields P) e h

-- A step of whose value nothing is needed.
pub Yields-then {ℓ κ} :
    {A : Type ℓ} {B : Type κ} (Q : B → Type 0) (m : Result A) (f : A → Result B)
    → ((v : A) → Yields Q (f v))
    → Yields Q (m >>= f)
Yields-then Q (ok v) f k = k v
Yields-then Q (fault e) f k = tt
