-- ===== src/Prelude/Loops.antt =====
-- Counted loops over a state that may fault: `for (; n rounds left; i++) s = body i s`.
use rosnavigation2copy.Prelude.{ℕ, zero, suc, ◌+◌, ◌<◌, ◌≡◌, refl, Option, none, some, arith}
use mathlib.Core.Path.{subst}

infixl 5 ◌>>=◌
abbrev pub ◌>>=◌ {ℓ κ} : {A : Type ℓ} {B : Type κ} → Option A → (A → Option B) → Option B
none >>= f = none
some a >>= f = f a

-- `none` is a fault: an access out of the bounds of an array.
unfoldable pub for_range {ℓ} : {S : Type ℓ} → ℕ → ℕ → (ℕ → S → Option S) → S → Option S
for_range zero i body s = some s
for_range (suc n) i body s = body i s >>= for_range n (i + 1) body

-- The invariant rule: a body that never faults and keeps `P` gives a loop that does so.
pub for_range_inv {ℓ κ} :
    {S : Type ℓ} (P : ℕ → S → Type κ) (body : ℕ → S → Option S) (end : ℕ)
    → ((i : ℕ) (s : S) → i < end → P i s → (s' : S) × (body i s ≡ some s') × P (i + 1) s')
    → (n i : ℕ) (s : S) → i + n ≡ end
    → P i s
    → (s' : S) × (for_range n i body s ≡ some s') × P end s'
unfolding for_range
for_range_inv P body end keep zero i s e h =
    let e' : i ≡ end = omega arith in (s, refl, subst (λ j. P j s) e' h)
for_range_inv P body end keep (suc n) i s e h =
    let (s1, e1, h1) = keep i s (omega arith) h in
    let (s2, e2, h2) = for_range_inv P body end keep n (i + 1) s1 (omega arith) h1 in
    (s2, rw e1 e2, h2)

pub >>=_ext {ℓ κ} :
    {A : Type ℓ} {B : Type κ} (o : Option A) (f g : A → Option B)
    → ((a : A) → f a ≡ g a)
    → (o >>= f) ≡ (o >>= g)
>>=_ext none f g h = refl
>>=_ext (some a) f g h = h a

-- Inversion of a successful bind.
pub >>=-eq-some {ℓ κ} :
    {A : Type ℓ} {B : Type κ} (o : Option A) (f : A → Option B) {b : B}
    → (o >>= f) ≡ some b
    → (a : A) × (o ≡ some a) × (f a ≡ some b)
>>=-eq-some none f h = cc
>>=-eq-some (some a) f h = (a, refl, h)
