-- ===== src/Gateway/DataPlane/Proxy/Headers.antt =====
-- Which headers reach an upstream.
use Prim.Native.Char.{code}
use Prim.Native.String.{[], ◌∷◌}
use mcp_oxide.Prelude.{
  String, true, false, List, [], ◌∷◌, any, All, ◌≡◌, ◌≢◌, ◌↔◌, ◌⊎◌, inl, inr, refl, sym, ◌∙◌, ap,
  arith, nat_eq_iff, ◌==◌, eq_iff, Bool-cases,
}
use mcp_oxide.Gateway.DataPlane.Proxy.{
  lower, eq_ignore_ascii_case, hop_by_hop, is_hop_by_hop, forwardable_headers,
}

-- the same characters, whatever their case
abbrev pub SameButCase : String → String → Type 0
SameButCase [] [] = Unit
SameButCase [] (d ∷ t) = ⊥
SameButCase (c ∷ s) [] = ⊥
SameButCase (c ∷ s) (d ∷ t) = (lower (code c) ≡ lower (code d)) × SameButCase s t

eq_ignore_ascii_case_iff : (s t : String) → (eq_ignore_ascii_case s t ≡ true) ↔ SameButCase s t
unfolding eq_ignore_ascii_case
eq_ignore_ascii_case_iff [] [] = (λ h. tt, λ h. refl)
eq_ignore_ascii_case_iff [] (d ∷ t) = (λ h. cc, λ h. absurd h)
eq_ignore_ascii_case_iff (c ∷ s) [] = (λ h. cc, λ h. absurd h)
eq_ignore_ascii_case_iff (c ∷ s) (d ∷ t) =
    let ih = eq_ignore_ascii_case_iff s t in
    let same = nat_eq_iff (lower (code c)) (lower (code d)) in
    (λ h. (same.0 (ground arith), ih.0 (ground arith)), λ h. ground (arith, same.1 h.0, ih.1 h.1))

-- `k` is none of the names, whatever its case
abbrev pub NoneOf : String → List String → Type 0
NoneOf k hs = All (λ h. ¬ (SameButCase k h)) hs

NoneOf-iff :
    (k : String) (hs : List String) → (any (λ h. eq_ignore_ascii_case k h) hs ≡ false) ↔ NoneOf k hs
NoneOf-iff k [] = (λ h. tt, λ h. refl)
NoneOf-iff k (h ∷ hs) =
    let ih = NoneOf-iff k hs in
    let here = eq_ignore_ascii_case_iff k h in
    (
      λ e. (λ s. ground (arith, here.1 s), ih.0 (ground arith)),
      λ n. elim (Bool-cases (eq_ignore_ascii_case k h)) [
        | inl same ↦ absurd (n.0 (here.0 same))
        | inr other ↦ ground (arith, ih.1 n.1)
      ],
    )

is_hop_by_hop_iff : (k : String) → (is_hop_by_hop k ≡ false) ↔ NoneOf k hop_by_hop
unfolding is_hop_by_hop
is_hop_by_hop_iff k = NoneOf-iff k hop_by_hop

-- an entry that is left out, and one that is passed on
left_out : {S R C F : Type 0} → (S → F → ⊥) → R ↔ (C × F) → R ↔ ((S ⊎ C) × F)
left_out never ih = (
  λ r. (inr (ih.0 r).0, (ih.0 r).1),
  λ h. elim h.0 [ inl s ↦ absurd (never s h.1) | inr c ↦ ih.1 (c, h.1) ],
)

passed : {S R C F : Type 0} → (S → F) → R ↔ (C × F) → (S ⊎ R) ↔ ((S ⊎ C) × F)
passed fits ih = (
  λ h. elim h [ inl s ↦ (inl s, fits s) | inr r ↦ (inr (ih.0 r).0, (ih.0 r).1) ],
  λ h. elim h.0 [ inl s ↦ inl s | inr c ↦ inr (ih.1 (c, h.1)) ],
)

-- a header of this name may be passed on
abbrev pub Forwardable : String → Type 0
Forwardable k = NoneOf k hop_by_hop × (k ≢ "authorization")

module _ {V : Type 0} (k : String) (v : V) where
  -- the map has the entry
  abbrev pub Carries : List (String × V) → Type 0
  Carries [] = ⊥
  Carries (entry ∷ rest) = (entry ≡ (k, v)) ⊎ Carries rest

  -- `forwardable_headers` passes on exactly the entries whose name is not `authorization` and is
  -- none of the hop-by-hop names, whatever the case it is written in.
  pub forwardable_headers_iff :
      (src : List (String × V)) → Carries (forwardable_headers src) ↔ (Carries src × Forwardable k)
  unfolding forwardable_headers
  forwardable_headers_iff [] = (λ h. absurd h, λ h. h.0)
  forwardable_headers_iff (entry ∷ src) = elim (Bool-cases (is_hop_by_hop entry.0)) [
    | inl hop ↦ rw hop (
        left_out (λ e f. cc (hop, ap (λ (x : String × V). x.0) e, (is_hop_by_hop_iff k).1 f.0))
          (forwardable_headers_iff src))
    | inr end_to_end ↦ elim (Bool-cases (entry.0 == "authorization")) [
      | inl secret ↦
          rw (end_to_end, secret)
            (left_out
              (λ e f.
                f.1 (
                  sym (ap (λ (x : String × V). x.0) e) ∙ (eq_iff entry.0 "authorization").0 secret))
              (forwardable_headers_iff src))
      | inr public ↦
          rw (end_to_end, public)
            (passed
              (λ e.
                let named = ap (λ (x : String × V). x.0) e in
                (
                  (is_hop_by_hop_iff k).0 (rw named at end_to_end),
                  λ a. cc (public, (eq_iff entry.0 "authorization").1 (named ∙ a)),
                ))
              (forwardable_headers_iff src))
    ]
  ]
