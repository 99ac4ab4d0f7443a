-- ===== src/Arbitrator/State/Template.antt =====
-- crates/nf-arbitrator/src/session.rs: the compare template of the live session, two overlapping
-- 64-bit words of the ten bytes.
use hft_proj.Prelude.{
  ℕ, zero, suc, ◌+◌, ◌*◌, ◌^◌, ◌<◌, ◌≡◌, inl, inr, refl, ap, ◌∙◌, true, false, [], ◌∷◌, arith,
  length, Bytes, IsByte, IsBytes, ◌==◌, le64_at, bytes_eq, bytes_eq→eq, bytes_eq_self, Bool-cases,
  byte_at, from_be32, All-get_or, get_or-take, slice, take, ap₂,
}
use hft_proj.Arbitrator.Types.{done}
use hft_proj.Arbitrator.State.{
  Sequencer, session_dispatch, dispatch_session, refresh_session_tmpl, zero_session,
}

-- Base-256 digits are determined by their number.
digit : (a b c d : ℕ) → b < 256 → d < 256 → a * 256 + b ≡ c * 256 + d → (a ≡ c) × (b ≡ d)
digit a b c d hb hd e = (omega arith, omega arith)

be32_digits :
    (a b c d a' b' c' d' : ℕ)
    → IsByte b × IsByte c × IsByte d
    → IsByte b' × IsByte c' × IsByte d'
    → from_be32 a b c d ≡ from_be32 a' b' c' d'
    → (a ≡ a') × (b ≡ b') × (c ≡ c') × (d ≡ d')
be32_digits a b c d a' b' c' d' h h' e =
    let (p, ed) = digit ((a * 256 + b) * 256 + c) d ((a' * 256 + b') * 256 + c') d' h.2 h'.2 e in
    let (q, ec) = digit (a * 256 + b) c (a' * 256 + b') c' h.1 h'.1 p in
    let (ea, eb) = digit a b a' b' h.0 h'.0 q in (ea, eb, ec, ed)

-- A session of ten bytes.
abbrev pub IsSession : Bytes → Type 0
IsSession s = (length s ≡ 10) × IsBytes s

be32_bound : (a b c d : ℕ) → IsByte a → IsByte b → IsByte c → IsByte d → from_be32 a b c d < 2 ^ 32
be32_bound a b c d ha hb hc hd = omega arith

byte_at-IsByte : (b : Bytes) (i : ℕ) → IsBytes b → IsByte (byte_at b i)
byte_at-IsByte b i h = All-get_or IsByte b i 0 (omega arith) h

-- The eight bytes of a word.
record SameWord (a b : Bytes) (i : ℕ) : Type 0 where
  b0 : byte_at a i ≡ byte_at b i
  b1 : byte_at a (i + 1) ≡ byte_at b (i + 1)
  b2 : byte_at a (i + 2) ≡ byte_at b (i + 2)
  b3 : byte_at a (i + 3) ≡ byte_at b (i + 3)
  b4 : byte_at a (i + 4) ≡ byte_at b (i + 4)
  b5 : byte_at a (i + 5) ≡ byte_at b (i + 5)
  b6 : byte_at a (i + 6) ≡ byte_at b (i + 6)
  b7 : byte_at a (i + 7) ≡ byte_at b (i + 7)

le64_at-SameWord :
    (a b : Bytes) (i : ℕ) → IsBytes a → IsBytes b → le64_at a i ≡ le64_at b i → SameWord a b i
le64_at-SameWord a b i ha hb e =
    let A : (k : ℕ) → IsByte (byte_at a k) = λ k. byte_at-IsByte a k ha in
    let B : (k : ℕ) → IsByte (byte_at b k) = λ k. byte_at-IsByte b k hb in
    let la = be32_bound _ _ _ _ (A (i + 3)) (A (i + 2)) (A (i + 1)) (A i) in
    let lb = be32_bound _ _ _ _ (B (i + 3)) (B (i + 2)) (B (i + 1)) (B i) in
    let (hi, lo) = halves _ _ _ _ la lb e in
    let (e7, e6, e5, e4) =
      be32_digits _ _ _ _ _ _ _ _ (A (i + 6), A (i + 5), A (i + 4))
        (B (i + 6), B (i + 5), B (i + 4)) hi in
    let (e3, e2, e1, e0) =
      be32_digits _ _ _ _ _ _ _ _ (A (i + 2), A (i + 1), A i) (B (i + 2), B (i + 1), B i) lo in
    record { b0 = e0; b1 = e1; b2 = e2; b3 = e3; b4 = e4; b5 = e5; b6 = e6; b7 = e7 }
  where
    halves :
        (h l h' l' : ℕ)
        → l < 2 ^ 32
        → l' < 2 ^ 32
        → h * 2 ^ 32 + l ≡ h' * 2 ^ 32 + l'
        → (h ≡ h') × (l ≡ l')
    halves h l h' l' x y e = (omega arith, omega arith)

list_ext :
    (xs ys : Bytes)
    → length xs ≡ length ys
    → ((i : ℕ) → i < length xs → byte_at xs i ≡ byte_at ys i)
    → xs ≡ ys
list_ext [] [] h f = refl
list_ext [] (y ∷ ys) h f = absurd (omega arith)
list_ext (x ∷ xs) [] h f = absurd (omega arith)
list_ext (x ∷ xs) (y ∷ ys) h f =
    ap₂ ◌∷◌ (f 0 (omega arith)) (list_ext xs ys (omega arith) (λ i lt. f (suc i) (omega arith)))

-- The two words determine the session.
words_determine :
    (a b : Bytes)
    → IsSession a
    → IsSession b
    → le64_at a 0 ≡ le64_at b 0
    → le64_at a 2 ≡ le64_at b 2
    → a ≡ b
words_determine a b sa sb lo hi =
    let l = le64_at-SameWord a b 0 sa.1 sb.1 lo in
    let h = le64_at-SameWord a b 2 sa.1 sb.1 hi in
    list_ext a b (omega (arith, sa.0, sb.0)) (λ i lt. at l h i (omega (arith, sa.0)))
  where
    at : SameWord a b 0 → SameWord a b 2 → (i : ℕ) → i < 10 → byte_at a i ≡ byte_at b i
    at l h zero lt = l.b0
    at l h (suc zero) lt = l.b1
    at l h (suc (suc zero)) lt = l.b2
    at l h (suc (suc (suc zero))) lt = l.b3
    at l h (suc (suc (suc (suc zero)))) lt = l.b4
    at l h (suc (suc (suc (suc (suc zero))))) lt = l.b5
    at l h (suc (suc (suc (suc (suc (suc zero)))))) lt = l.b6
    at l h (suc (suc (suc (suc (suc (suc (suc zero))))))) lt = l.b7
    at l h (suc (suc (suc (suc (suc (suc (suc (suc zero)))))))) lt = h.b6
    at l h (suc (suc (suc (suc (suc (suc (suc (suc (suc zero))))))))) lt = h.b7
    at l h (suc (suc (suc (suc (suc (suc (suc (suc (suc (suc i)))))))))) lt = absurd (omega arith)

-- A word of a frame's first ten bytes.
pub le64_at-slice :
    (frame : Bytes) (i : ℕ) → i + 7 < 10 → le64_at (slice frame 0 10) i ≡ le64_at frame i
le64_at-slice frame i h =
    let T : (k : ℕ) → k < 10 → byte_at (take 10 frame) k ≡ byte_at frame k =
      λ k lt. get_or-take 10 frame k 0 lt in
    rw
      (
        T i (omega arith),
        T (i + 1) (omega arith),
        T (i + 2) (omega arith),
        T (i + 3) (omega arith),
        T (i + 4) (omega arith),
        T (i + 5) (omega arith),
        T (i + 6) (omega arith),
        T (i + 7) (omega arith),
      )
      refl

-- A live template holds the two words of the session, which is a real one.
abbrev pub HasTemplate : Sequencer → Type 0
HasTemplate s =
    IsSession s.session
    × (s.session_live ≡ true
        → (s.session_lo ≡ le64_at s.session 0)
          × (s.session_hi ≡ le64_at s.session 2)
          × (bytes_eq s.session zero_session ≡ false))

-- `refresh_session_tmpl` makes a template of the session.
refresh_session_tmpl-HasTemplate :
    (s : Sequencer) → IsSession s.session → HasTemplate (refresh_session_tmpl s)
unfolding refresh_session_tmpl
refresh_session_tmpl-HasTemplate s i = (i, λ live. (refl, refl, ground (arith, live)))

-- Where the words of a frame's session are those of a live template, the session step does nothing.
pub dispatch_session_live :
    (s : Sequencer) (session : Bytes)
    → HasTemplate s
    → IsSession session
    → s.session_live ≡ true
    → le64_at session 0 ≡ s.session_lo
    → le64_at session 2 ≡ s.session_hi
    → dispatch_session s session ≡ done s
unfolding dispatch_session session_dispatch
dispatch_session_live s session t i live lo hi =
    let (tlo, thi, real) = t.1 live in
    let same : session ≡ s.session =
      words_determine session s.session i t.0 (lo ∙ tlo) (hi ∙ thi) in
    let own : bytes_eq s.session s.session ≡ true = bytes_eq_self s.session in
    simp (same, real, own, live) refl

-- Sessions that differ in their first byte.
pub bytes_ne : (x y : ℕ) (xs ys : Bytes) → (x == y) ≡ false → bytes_eq (x ∷ xs) (y ∷ ys) ≡ false
bytes_ne x y xs ys h = elim (Bool-cases (bytes_eq (x ∷ xs) (y ∷ ys))) [
  | inl e ↦
      let q : x ≡ y = ap (λ (b : Bytes). byte_at b 0) (bytes_eq→eq (x ∷ xs) (y ∷ ys) e) in
      absurd (ground arith)
  | inr e ↦ e
]
