-- ===== src/NavFn/Safety.antt =====
-- The wave stays within the arrays, whatever the potentials are.
pub mod Cells
pub mod Waves
use rosnavigation2copy.Prelude.{
  ℕ, zero, suc, ◌+◌, ◌-◌, ◌*◌, ◌≤◌, ◌<◌, ◌≡◌, refl, sym, ◌∙◌, ap, Bool, true, false, not, ◌&&◌,
  Option, none, some, List, [], ◌∷◌, ◌++◌, length, length-append, length-set, get_elem?,
  get_elem?-of_lt, set, ltb, leb, arith, Bool-cases, inl, inr, if◌then◌else◌,
}
use rosnavigation2copy.Prelude.Loops.{◌>>=◌}
use rosnavigation2copy.Platform.{Floats}
use rosnavigation2copy.NavFn.{
  Constants, NavFn, cost_obs, priority_buf_size, minus, push, reset_pending, push_if, spread,
}

-- A cell with a row above it and a row below it.
abbrev pub Inner : ℕ → ℕ → ℕ → Type 0
Inner nx ns n = (nx ≤ n) × (n + nx < ns)

abbrev pub AllInner : ℕ → ℕ → List ℕ → Type 0
AllInner nx ns [] = Unit {0}
AllInner nx ns (n ∷ cells) = Inner nx ns n × AllInner nx ns cells

AllInner-snoc :
    (nx ns : ℕ) (cells : List ℕ) (n : ℕ)
    → AllInner nx ns cells
    → Inner nx ns n
    → AllInner nx ns (cells ++ (n ∷ []))
AllInner-snoc nx ns [] n a i = (i, tt)
AllInner-snoc nx ns (m ∷ cells) n a i = (a.0, AllInner-snoc nx ns cells n a.1 i)

-- A buffer of inner cells that fits the memory reserved for it.
pub record IsBuffer (nx ns : ℕ) (buf : List ℕ) : Type 0 where
  pub inner : AllInner nx ns buf
  pub fits : length buf ≤ priority_buf_size

pub minus-eq : (n k : ℕ) → k ≤ n → minus n k ≡ some (n - k)
unfolding minus
minus-eq n k h = let e : leb k n ≡ true = ground arith in rw e refl

-- Obstacles all along the first and the last row.
abbrev pub IsOutlined : ℕ → ℕ → List ℕ → Type 0
IsOutlined nx ns costarr =
    (n c : ℕ) → get_elem? costarr n ≡ some c → ltb c cost_obs ≡ true → Inner nx ns n

-- What a push comes to: it returns, the buffer is good, and the flags are as many.
pub record Pushes (nx ns : ℕ) (o : Option (List ℕ × List Bool)) : Type 0 where
  pub buf : List ℕ
  pub pending : List Bool
  pub returns : o ≡ some (buf, pending)
  pub good : IsBuffer nx ns buf
  pub flags : length pending ≡ ns

pub >>=-Pushes :
    (nx ns : ℕ) (o : Option (List ℕ × List Bool))
    (g : List ℕ × List Bool → Option (List ℕ × List Bool))
    → Pushes nx ns o
    → ((buf : List ℕ) (pending : List Bool)
        → IsBuffer nx ns buf
        → length pending ≡ ns
        → Pushes nx ns (g (buf, pending)))
    → Pushes nx ns (o >>= g)
>>=-Pushes nx ns o g p q =
    let r = q p.buf p.pending p.good p.flags in
    record {
      buf = r.buf;
      pending = r.pending;
      returns = rw p.returns r.returns;
      good = r.good;
      flags = r.flags;
    }

module _ (nx ns : ℕ) (costarr : List ℕ) (sized : length costarr ≡ ns)
    (outlined : IsOutlined nx ns costarr) where
  push_inside :
      (n : ℕ) (buf : List ℕ) (pending : List Bool) (w : Bool) (c : ℕ)
      → IsBuffer nx ns buf
      → length pending ≡ ns
      → ltb n ns ≡ true
      → get_elem? pending n ≡ some w
      → get_elem? costarr n ≡ some c
      → Pushes nx ns (push ns costarr n (buf, pending))
  unfolding push
  push_inside n buf pending w c g f inside e h =
      rw (inside, e, h)
        (elim (Bool-cases (not w && ltb c cost_obs && ltb (length buf) priority_buf_size)) [
          | inr off ↦
              rw off (record { buf = buf; pending = pending; returns = refl; good = g; flags = f })
          | inl go ↦
              let free : ltb c cost_obs ≡ true = ground arith in
              let small : length buf < priority_buf_size = ground arith in
              rw go (record {
                buf = buf ++ (n ∷ []);
                pending = set pending n true;
                returns = refl;
                good = record {
                  inner = AllInner-snoc nx ns buf n g.inner (outlined n c h free);
                  fits = omega (arith, length-append buf (n ∷ []));
                };
                flags = length-set pending n true ∙ f;
              })
        ])

  pub push-Pushes :
      (n : ℕ) (buf : List ℕ) (pending : List Bool)
      → IsBuffer nx ns buf
      → length pending ≡ ns
      → Pushes nx ns (push ns costarr n (buf, pending))
  push-Pushes n buf pending g f = elim (Bool-cases (ltb n ns)) [
    | inr out ↦
        (unfold push in
          rw out (record { buf = buf; pending = pending; returns = refl; good = g; flags = f }))
    | inl inside ↦
        let lt : n < ns = ground arith in
        let (w, e) = get_elem?-of_lt pending n (rw f lt) in
        let (c, h) = get_elem?-of_lt costarr n (rw sized lt) in
        push_inside n buf pending w c g f inside e h
  ]

  pub push_if-Pushes :
      {F : Type 0} (fl : Floats F) (k : Constants F) (test : Bool) (n : ℕ) (buf : List ℕ)
      (pending : List Bool)
      → IsBuffer nx ns buf
      → length pending ≡ ns
      → Pushes nx ns (push_if fl k test ns costarr n (buf, pending))
  unfolding push_if
  push_if-Pushes fl k true n buf pending g f = push-Pushes n buf pending g f
  push_if-Pushes fl k false n buf pending g f = record {
    buf = buf;
    pending = pending;
    returns = refl;
    good = g;
    flags = f;
  }

  pub reset_pending_total :
      (cells : List ℕ) (pending : List Bool)
      → AllInner nx ns cells
      → length pending ≡ ns
      → (p : List Bool) × (reset_pending cells pending ≡ some p) × (length p ≡ ns)
  unfolding reset_pending
  reset_pending_total [] pending a f = (pending, refl, f)
  reset_pending_total (n ∷ cells) pending a f =
      let (w, e) = get_elem?-of_lt pending n (omega (arith, a.0)) in
      let (p, h, l) =
        reset_pending_total cells (set pending n false) a.1 (length-set pending n false ∙ f) in
      (p, rw e h, l)
