-- ===== src/Gateway/Handler/Inversion.antt =====
-- A block of steps that ends in a value: what each step answered, and from where the rest ran.
use mcp_oxide.Prelude.{◌≡◌, refl, ◌⊎◌, inl, inr, arith}
use mcp_oxide.Core.Error.{AppError, Outcome, done, fail, panic}
use mcp_oxide.Gateway.State.{World}
use mcp_oxide.Gateway.Handler.{Handler, continue, ◌>>=◌}

module _ {M D A B : Type 0} {f : A → Handler M D B} {w w' : World M D} {b : B} where
  pub bind-done :
      (m : Handler M D A)
      → (m >>= f) w ≡ (done b, w')
      → (a : A) × (w₁ : World M D) × (m w ≡ (done a, w₁)) × (f a w₁ ≡ (done b, w'))
  unfolding ◌>>=◌
  bind-done m h = go (m w).0 (m w).1 refl h
    where
      go :
          (o : Outcome A) (w₁ : World M D)
          → m w ≡ (o, w₁)
          → continue o f w₁ ≡ (done b, w')
          → (a : A) × (w₁ : World M D) × (m w ≡ (done a, w₁)) × (f a w₁ ≡ (done b, w'))
      go (done a) w₁ e h = (a, w₁, e, h)
      go (fail x) w₁ e h = cc
      go panic w₁ e h = cc

module _ {M D A B : Type 0} {f : A → Handler M D B} {w w' : World M D} {x : AppError} where
  pub bind-fail :
      (m : Handler M D A)
      → (m >>= f) w ≡ (fail x, w')
      → (m w ≡ (fail x, w'))
        ⊎ ((a : A) × (w₁ : World M D) × (m w ≡ (done a, w₁)) × (f a w₁ ≡ (fail x, w')))
  unfolding ◌>>=◌
  bind-fail m h = go (m w).0 (m w).1 refl h
    where
      go :
          (o : Outcome A) (w₁ : World M D)
          → m w ≡ (o, w₁)
          → continue o f w₁ ≡ (fail x, w')
          → (m w ≡ (fail x, w'))
            ⊎ ((a : A) × (w₁ : World M D) × (m w ≡ (done a, w₁)) × (f a w₁ ≡ (fail x, w')))
      go (done a) w₁ e h = inr (a, w₁, e, h)
      go (fail y) w₁ e h = inl (ground arith)
      go panic w₁ e h = cc
