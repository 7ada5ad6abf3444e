-- ===== src/Session/History.antt =====
-- What a session is bound to, from the history of the calls.
use mcp_oxide.Prelude.{
  ℕ, ◌+◌, String, true, false, not, none, some, List, [], ◌∷◌, keep, ◌==◌, eq_iff, ltb,
  Option-cases, ◌≡◌, ◌↔◌, ◌⊎◌, inl, inr, refl, ap, sym, ◌∙◌, arith, Bool-cases, ◌<◌, if◌then◌else◌,
}
use mcp_oxide.Core.Error.{ok}
use mcp_oxide.Core.Model.{SessionId, BackendId}
use mcp_oxide.Session.{Entry, Key, key_eq, Sessions, get, insert, resolve, bind, drop_session}

-- the calls that write, each at the instant that it reads
pub data Call : Type 0 where
  bound : (id : SessionId) (adapter : String) (backend : BackendId) (ttl now : ℕ) → Call
  dropped : (id : SessionId) → Call

-- the store after the calls, the last one first
abbrev pub run : List Call → Sessions
run [] = []
run (bound id adapter backend ttl now ∷ calls) = (bind id adapter backend ttl now (run calls)).1
run (dropped id ∷ calls) = (drop_session id (run calls)).1

-- the last call that concerns a session and an adapter bound them to this backend, until then
abbrev pub BoundTo : List Call → String → String → BackendId → ℕ → Type 0
BoundTo [] s a backend until = ⊥
BoundTo (bound id adapter b ttl now ∷ calls) s a backend until =
    ((id.session ≡ s) × (adapter ≡ a) × (b ≡ backend) × (now + ttl ≡ until))
    ⊎ ((¬ ((id.session ≡ s) × (adapter ≡ a))) × BoundTo calls s a backend until)
BoundTo (dropped id ∷ calls) s a backend until =
    (¬ (id.session ≡ s)) × BoundTo calls s a backend until

key_eq_iff : (k l : Key) → (key_eq k l ≡ true) ↔ ((k.0 ≡ l.0) × (k.1 ≡ l.1))
key_eq_iff (s, a) (t, b) = (
  λ h. ((eq_iff s t).0 (ground arith), (eq_iff a b).0 (ground arith)),
  λ (e, f). ground (arith, (eq_iff s t).1 e, (eq_iff a b).1 f),
)

get-keep_other :
    (key other : Key) (m : Sessions)
    → key_eq other key ≡ false
    → get key (keep (λ entry. not (key_eq entry.0 other)) m) ≡ get key m
unfolding get
get-keep_other key other [] h = refl
get-keep_other key other (entry ∷ rest) h =
    let ih = get-keep_other key other rest h in
    elim (Bool-cases (key_eq entry.0 other)) [
      | inr kept ↦ ground (arith, ih)
      | inl gone ↦ elim (Bool-cases (key_eq entry.0 key)) [
        | inr another ↦ ground (arith, ih)
        | inl here ↦
            let (a, b) = (key_eq_iff entry.0 other).0 gone in
            let (c, d) = (key_eq_iff entry.0 key).0 here in
            let same = (key_eq_iff other key).1 (sym a ∙ c, sym b ∙ d) in absurd (ground arith)
      ]
    ]

get-keep_session :
    (s a t : String) (m : Sessions)
    → get (s, a) (keep (λ entry. not (entry.0.0 == t)) m) ≡ (if t == s then none else get (s, a) m)
unfolding get
get-keep_session s a t [] = ground arith
get-keep_session s a t (entry ∷ rest) =
    let ih = get-keep_session s a t rest in
    ground (arith, ih, eq_iff entry.0.0 t, eq_iff entry.0.0 s, eq_iff t s)

get-insert :
    (key k : Key) (e : Entry) (m : Sessions)
    → get key (insert k e m) ≡ (if key_eq k key then some e else get key m)
unfolding get insert
get-insert key k e m = elim (Bool-cases (key_eq k key)) [
  | inl here ↦ rw here refl
  | inr other ↦ rw other (get-keep_other key k m other)
]

-- what the store holds for a key is what the history says
get-BoundTo :
    (calls : List Call) (s a : String) (e : Entry)
    → (get (s, a) (run calls) ≡ some e) ↔ BoundTo calls s a e.backend e.expires_at
unfolding bind drop_session get
get-BoundTo [] s a e = (λ h. ground arith, λ h. absurd h)
get-BoundTo (bound id adapter b ttl now ∷ calls) s a e =
    let new : Entry = record { backend = b; expires_at = now + ttl } in
    let step = get-insert (s, a) (id.session, adapter) new (run calls) in
    let ih = get-BoundTo calls s a e in
    let same = key_eq_iff (id.session, adapter) (s, a) in
    elim (Bool-cases (key_eq (id.session, adapter) (s, a))) [
      | inl here ↦ (
        λ h.
            let e' : new ≡ e = ground arith in
            inl (
              (same.0 here).0,
              (same.0 here).1,
              ap (λ (x : Entry). x.backend) e',
              ap (λ (x : Entry). x.expires_at) e',
            ),
        λ h. elim h [ inl (p, q, f, g) ↦ ground arith | inr (n, k) ↦ absurd (n (same.0 here)) ],
      )
      | inr other ↦ (
        λ h. inr (λ pq. absurd (ground (arith, same.1 pq)), ih.0 (ground arith)),
        λ h. elim h [
          | inl (p, q, f, g) ↦ absurd (ground (arith, same.1 (p, q)))
          | inr (n, k) ↦ ground (arith, ih.1 k)
        ],
      )
    ]
get-BoundTo (dropped id ∷ calls) s a e =
    let step = get-keep_session s a id.session (run calls) in
    let ih = get-BoundTo calls s a e in
    let same = eq_iff id.session s in
    elim (Bool-cases (id.session == s)) [
      | inl here ↦ (λ h. absurd (ground arith), λ (n, k). absurd (n (same.0 here)))
      | inr other ↦ (
        λ h. (λ p. absurd (ground (arith, same.1 p)), ih.0 (ground arith)),
        λ (n, k). ground (arith, ih.1 k),
      )
    ]

-- A session resolves to a backend for an adapter exactly when, of the calls made so far, the last
-- that concerns the session and the adapter bound them to that backend, and its time is not over:
-- a later `bind` replaces an earlier one, and a `drop_session` ends all of its session.
pub resolve_iff :
    (calls : List Call) (id : SessionId) (adapter : String) (now : ℕ) (backend : BackendId)
    → (resolve id adapter now (run calls) ≡ ok (some backend))
      ↔ ((until : ℕ) × BoundTo calls id.session adapter backend until × (now < until))
unfolding resolve
resolve_iff calls id adapter now backend =
    elim (Option-cases (get (id.session, adapter) (run calls))) [
      | inl missing ↦ (
        λ h. absurd (ground arith),
        λ (until, b, t). absurd (
            ground (
              arith,
              (get-BoundTo calls id.session adapter
                    (record { backend = backend; expires_at = until })).1
                  b,
            )),
      )
      | inr (e, found) ↦ (
        λ h.
            let is_alive : ltb now e.expires_at ≡ true = ground arith in
            let own : e.backend ≡ backend = ground arith in
            (
              e.expires_at,
              rw (← own) ((get-BoundTo calls id.session adapter e).0 found),
              ground arith,
            ),
        λ (until, b, t).
            let e' =
              (get-BoundTo calls id.session adapter
                  (record { backend = backend; expires_at = until })).1
                b in
            ground arith,
      )
    ]
