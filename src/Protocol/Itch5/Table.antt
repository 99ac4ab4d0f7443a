-- ===== src/Protocol/Itch5/Table.antt =====
-- crates/nf-protocol/src/itch5.rs: the bounds of the table of lengths, and what `validate` accepts.
use hft_proj.Prelude.{
  some, ◌||◌, ap, ◌&&◌, Bool-cases, ◌∙◌, ltb, false, ◌≢◌, sym, true, List, ◌==◌, ℕ, ◌≤◌, ◌≡◌, ◌⊎◌,
  refl, Bool, arith, [], ◌∷◌, length, Bytes, ok, inl, inr, if◌then◌else◌, if-cases, ◌↔◌,
}
use hft_proj.Protocol.Itch5.{msg_len, length_of, validate}

abbrev IsEntry : ℕ → Type 0
IsEntry l = (l ≡ 0) ⊎ (12 ≤ l) × (l ≤ 50)

entry :
    (b : Bool) (n : ℕ) {rest : ℕ}
    → (12 ≤ n) × (n ≤ 50)
    → IsEntry rest
    → IsEntry (if b then n else rest)
entry b n h k = if-cases IsEntry b (λ _. inr h) (λ _. k)

-- Every entry of the table is 0 or lies between 12 and 50 bytes.
pub length_of_range : (t : ℕ) → (length_of t ≡ 0) ⊎ (12 ≤ length_of t) × (length_of t ≤ 50)
unfolding length_of
length_of_range t =
    entry (t == b'S') 12 (omega arith, omega arith)
      (entry (t == b'R') 39 (omega arith, omega arith)
        (entry (t == b'H') 25 (omega arith, omega arith)
          (entry (t == b'Y') 20 (omega arith, omega arith)
            (entry (t == b'L') 26 (omega arith, omega arith)
              (entry (t == b'V') 35 (omega arith, omega arith)
                (entry (t == b'W') 12 (omega arith, omega arith)
                  (entry (t == b'K') 28 (omega arith, omega arith)
                    (entry (t == b'J') 35 (omega arith, omega arith)
                      (entry (t == b'h') 21 (omega arith, omega arith)
                        (entry (t == b'A') 36 (omega arith, omega arith)
                          (entry (t == b'F') 40 (omega arith, omega arith)
                            (entry (t == b'E') 31 (omega arith, omega arith)
                              (entry (t == b'C') 36 (omega arith, omega arith)
                                (entry (t == b'X') 23 (omega arith, omega arith)
                                  (entry (t == b'D') 19 (omega arith, omega arith)
                                    (entry (t == b'U') 35 (omega arith, omega arith)
                                      (entry (t == b'P') 44 (omega arith, omega arith)
                                        (entry (t == b'Q') 40 (omega arith, omega arith)
                                          (entry (t == b'B') 19 (omega arith, omega arith)
                                            (entry (t == b'I') 50 (omega arith, omega arith)
                                              (entry (t == b'N') 20 (omega arith, omega arith)
                                                (inl refl))))))))))))))))))))))

-- The message types that docs/03-itch5.md lists, with their lengths on the wire.
abbrev pub wire_table : List (ℕ × ℕ)
wire_table =
    (0x53, 12)
    ∷ (0x52, 39)
    ∷ (0x48, 25)
    ∷ (0x59, 20)
    ∷ (0x4C, 26)
    ∷ (0x56, 35)
    ∷ (0x57, 12)
    ∷ (0x4B, 28)
    ∷ (0x4A, 35)
    ∷ (0x68, 21)
    ∷ (0x41, 36)
    ∷ (0x46, 40)
    ∷ (0x45, 31)
    ∷ (0x43, 36)
    ∷ (0x58, 23)
    ∷ (0x44, 19)
    ∷ (0x55, 35)
    ∷ (0x50, 44)
    ∷ (0x51, 40)
    ∷ (0x42, 19)
    ∷ (0x49, 50)
    ∷ (0x4E, 20)
    ∷ []

abbrev pub is_listed : (type_byte len : ℕ) → List (ℕ × ℕ) → Bool
is_listed t n [] = false
is_listed t n ((k, l) ∷ rows) = (t == k && n == l) || is_listed t n rows

abbrev length_in : (type_byte : ℕ) → List (ℕ × ℕ) → ℕ
length_in t [] = 0
length_in t ((k, l) ∷ rows) = if t == k then l else length_in t rows

-- No type is listed twice, and none with the length 0.
abbrev is_table : List (ℕ × ℕ) → Bool
is_table [] = true
is_table ((k, l) ∷ rows) = (ltb 0 l && length_in k rows == 0) && is_table rows

listed_iff :
    (rows : List (ℕ × ℕ)) (t n : ℕ)
    → is_table rows ≡ true
    → (is_listed t n rows ≡ true) ↔ ((length_in t rows ≡ n) × (n ≢ 0))
listed_iff [] t n h = (λ e. cc, λ (e, k). absurd (k (sym e)))
listed_iff ((k, l) ∷ rows) t n h =
    let some_len : ltb 0 l ≡ true = ground (arith, h) in
    let once : length_in k rows ≡ 0 = ground (arith, h) in
    let (fwd, bwd) = listed_iff rows t n (ground (arith, h)) in
    elim (Bool-cases (t == k)) [
      | inl e ↦
          let same : t ≡ k = ground (arith, e) in
          let absent : length_in t rows ≡ 0 = ap (λ (x : ℕ). length_in x rows) same ∙ once in
          elim (Bool-cases (n == l)) [
            | inl m ↦ simp (e, m) (λ x. (ground (arith, m), ground (arith, m, some_len)), λ x. refl)
            | inr m ↦
                simp (e, m)
                  (
                    λ x. let (a, b) = fwd x in absurd (b (sym a ∙ absent)),
                    λ (x, y). ground (arith, m, x),
                  )
          ]
      | inr e ↦ simp e (fwd, bwd)
    ]

length_of-eq-length_in : (t : ℕ) → length_of t ≡ length_in t wire_table
unfolding length_of
length_of-eq-length_in t = refl

-- The message starts with a type that is listed with the message's length.
abbrev pub IsListed : Bytes → Type 0
IsListed [] = ⊥
IsListed (t ∷ rest) = is_listed t (length (t ∷ rest)) wire_table ≡ true

accepted_iff :
    (t : ℕ) (rest : Bytes)
    → (validate (t ∷ rest) ≡ ok tt) ↔ ((length_of t ≡ length (t ∷ rest)) × (length (t ∷ rest) ≢ 0))
unfolding validate
accepted_iff t rest = (λ h. (ground (arith, h), ground (arith, h)), λ (h, k). ground (arith, h, k))

-- `validate` accepts a message, the empty one included, exactly when its first byte and its length are
-- listed together in the table of message types of docs/03-itch5.md.
pub validate_iff : (msg : Bytes) → (validate msg ≡ ok tt) ↔ IsListed msg
unfolding validate
validate_iff [] = (λ h. cc, λ h. absurd h)
validate_iff (t ∷ rest) =
    let n : ℕ = length (t ∷ rest) in
    let (fwd, bwd) = accepted_iff t rest in
    let (up, down) = listed_iff wire_table t n refl in
    let same = length_of-eq-length_in t in
    (λ h. down (sym same ∙ (fwd h).0, (fwd h).1), λ h. bwd (same ∙ (up h).0, (up h).1))

-- `msg_len` gives a length for a type byte exactly if docs/03-itch5.md lists the type with this length.
pub msg_len_iff : (t n : ℕ) → (msg_len t ≡ some n) ↔ (is_listed t n wire_table ≡ true)
unfolding msg_len
msg_len_iff t n =
    let (up, down) = listed_iff wire_table t n refl in
    let same = length_of-eq-length_in t in
    (
      λ h.
          let e : length_of t ≡ n = ground (arith, h) in
          let k : n ≢ 0 = ground (arith, h) in down (sym same ∙ e, k),
      λ h.
          let e : length_of t ≡ n = same ∙ (up h).0 in
          let k : n ≢ 0 = (up h).1 in ground (arith, e, k),
    )

-- A message that `validate` accepts has between 12 and 50 bytes.
pub validate_bounds : (msg : Bytes) → validate msg ≡ ok tt → (12 ≤ length msg) × (length msg ≤ 50)
unfolding validate
validate_bounds [] h = ground arith
validate_bounds (t ∷ rest) h = ground (arith, length_of_range t)
