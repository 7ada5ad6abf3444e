-- ===== src/Core/Model/Equality.antt =====
-- The derived `PartialEq` of crates/core/src/adapter.rs decides equality.
use mcp_oxide.Prelude.{
  Bool, true, Option, none, some, List, [], ◌∷◌, ◌==◌, eq_iff, ◌≡◌, ◌↔◌, refl, arith, option_eq,
  list_eq, ap,
}
use mcp_oxide.Core.Model.{env_var_eq, secret_ref_eq, resources_eq}

module _ {A : Type 0} (eq : A → A → Bool) where
  -- the test holds of equal values only, and of all of them
  abbrev pub DecidesEquality : Type 0
  DecidesEquality = (x y : A) → (eq x y ≡ true) ↔ (x ≡ y)

  option_eq_sound : DecidesEquality → (x y : Option A) → option_eq eq x y ≡ true → x ≡ y
  option_eq_sound d none none h = refl
  option_eq_sound d none (some y) h = cc
  option_eq_sound d (some x) none h = cc
  option_eq_sound d (some x) (some y) h = ap some ((d x y).0 h)

  option_eq_refl : DecidesEquality → (x : Option A) → option_eq eq x x ≡ true
  option_eq_refl d none = refl
  option_eq_refl d (some x) = (d x x).1 refl

  pub option_eq_iff : DecidesEquality → (x y : Option A) → (option_eq eq x y ≡ true) ↔ (x ≡ y)
  option_eq_iff d x y = (option_eq_sound d x y, λ e. rw e (option_eq_refl d y))

  list_eq_sound : DecidesEquality → (xs ys : List A) → list_eq eq xs ys ≡ true → xs ≡ ys
  list_eq_sound d [] [] h = refl
  list_eq_sound d [] (y ∷ ys) h = cc
  list_eq_sound d (x ∷ xs) [] h = cc
  list_eq_sound d (x ∷ xs) (y ∷ ys) h =
      let first = (d x y).0 (ground arith) in
      let rest = list_eq_sound d xs ys (ground arith) in cc (first, rest)

  list_eq_refl : DecidesEquality → (xs : List A) → list_eq eq xs xs ≡ true
  list_eq_refl d [] = refl
  list_eq_refl d (x ∷ xs) = rw ((d x x).1 refl) (list_eq_refl d xs)

  pub list_eq_iff : DecidesEquality → (xs ys : List A) → (list_eq eq xs ys ≡ true) ↔ (xs ≡ ys)
  list_eq_iff d xs ys = (list_eq_sound d xs ys, λ e. rw e (list_eq_refl d ys))

pub env_var_eq_iff : DecidesEquality env_var_eq
env_var_eq_iff a b = (
  λ h.
      let n = (eq_iff a.name b.name).0 (ground arith) in
      let v = (eq_iff a.value b.value).0 (ground arith) in cc (n, v),
  λ e. rw e (rw ((eq_iff b.name b.name).1 refl, (eq_iff b.value b.value).1 refl) refl),
)

pub secret_ref_eq_iff : DecidesEquality secret_ref_eq
secret_ref_eq_iff a b = (
  λ h.
      let n = (eq_iff a.name b.name).0 (ground arith) in
      let p = (eq_iff a.provider b.provider).0 (ground arith) in
      let k = (eq_iff a.key b.key).0 (ground arith) in cc (n, p, k),
  λ e. rw e (
      rw
        (
          (eq_iff b.name b.name).1 refl,
          (eq_iff b.provider b.provider).1 refl,
          (eq_iff b.key b.key).1 refl,
        )
        refl),
)

pub resources_eq_iff : DecidesEquality resources_eq
resources_eq_iff a b = (
  λ h.
      let c = (option_eq_iff ◌==◌ eq_iff a.cpu b.cpu).0 (ground arith) in
      let m = (option_eq_iff ◌==◌ eq_iff a.memory b.memory).0 (ground arith) in cc (c, m),
  λ e. rw e (
      rw
        (
          (option_eq_iff ◌==◌ eq_iff b.cpu b.cpu).1 refl,
          (option_eq_iff ◌==◌ eq_iff b.memory b.memory).1 refl,
        )
        refl),
)
