-- ===== src/Txn/Context/Steps.antt =====
-- The steps of an action that succeeds.
use arbordb.Common.{◌≡◌, refl, ap, Result, ok, err}
use arbordb.Txn.Context.{Engine, Context, Action, ◌>>=◌, ◌>>◌}

module _ {g : Engine} where
  pub bind_succeeds {ℓ κ} :
      {A : Type ℓ} {B : Type κ} (m : Action g A) (f : A → Action g B) (c : Context g) (b : B)
      → ((m >>= f) c).0 ≡ ok b
      → (a : A) × (c' : Context g) × (m c ≡ (ok a, c'))
        × ((m >>= f) c ≡ f a c')
        × ((f a c').0 ≡ ok b)
  unfolding ◌>>=◌
  bind_succeeds {A} {B} m f c b h = go (m c) refl h
    where
      next : Result A × Context g → Result B × Context g
      next r = elim r.0 [ ok a ↦ f a r.1 | err e ↦ (err e, r.1) ]

      go :
          (r : Result A × Context g)
          → m c ≡ r
          → (next r).0 ≡ ok b
          → (a : A) × (c' : Context g) × (m c ≡ (ok a, c'))
            × (next (m c) ≡ f a c')
            × ((f a c').0 ≡ ok b)
      go (ok a, c') e h = (a, c', e, rw e refl, h)
      go (err x, c') e h = cc

  pub then_succeeds {ℓ} :
      {B : Type ℓ} (m : Action g (Unit {0})) (k : Action g B) (c : Context g) (b : B)
      → ((m >> k) c).0 ≡ ok b
      → (c' : Context g) × (m c ≡ (ok tt, c')) × ((m >> k) c ≡ k c') × ((k c').0 ≡ ok b)
  unfolding ◌>>◌
  then_succeeds m k c b h =
      let (a, c', first, whole, last) = bind_succeeds m (λ _. k) c b h in (c', first, whole, last)

  pub bind_step {ℓ κ} :
      {A : Type ℓ} {B : Type κ} (m : Action g A) (f : A → Action g B) (c c' : Context g) (a : A)
      → m c ≡ (ok a, c')
      → (m >>= f) c ≡ f a c'
  unfolding ◌>>=◌
  bind_step {A} {B} m f c c' a h = ap next h
    where
      next : Result A × Context g → Result B × Context g
      next r = elim r.0 [ ok a ↦ f a r.1 | err e ↦ (err e, r.1) ]

  pub then_step {ℓ} :
      {B : Type ℓ} (m : Action g (Unit {0})) (k : Action g B) (c c' : Context g)
      → m c ≡ (ok tt, c')
      → (m >> k) c ≡ k c'
  unfolding ◌>>◌
  then_step m k c c' h = bind_step m (λ _. k) c c' tt h
