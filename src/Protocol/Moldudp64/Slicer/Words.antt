-- ===== src/Protocol/Moldudp64/Slicer/Words.antt =====
-- crates/nf-protocol/src/moldudp64.rs: exclusive or and rotation of 64-bit words.
use hft_proj.Prelude.{
  ap, sym, ◌∙◌, ◌+◌, ◌-◌, ◌%◌, ◌*◌, ◌/◌, ◌^◌, ◌≤◌, ◌<◌, ◌≡◌, ℕ, zero, suc, arith, refl,
}
use Prim.Native.Nat.{bit_xor, digits, differ, bit_xor-bitwise}

-- Exclusive or with a count of digits that is enough.
abbrev xor_digits : (n a b : ℕ) → ℕ
xor_digits n a b = digits (λ b. b) differ n a b

xor_digits_enough : (n m a b : ℕ) → a ≤ n → a ≤ m → xor_digits n a b ≡ xor_digits m a b
xor_digits_enough zero zero a b h k = refl
xor_digits_enough zero (suc m) zero b h k = refl
xor_digits_enough zero (suc m) (suc a) b h k = absurd (omega arith)
xor_digits_enough (suc n) zero zero b h k = refl
xor_digits_enough (suc n) zero (suc a) b h k = absurd (omega arith)
xor_digits_enough (suc n) (suc m) zero b h k = refl
xor_digits_enough (suc n) (suc m) (suc a) b h k =
    omega (arith, xor_digits_enough n m (suc a / 2) (b / 2) (omega arith) (omega arith))

zero-bit_xor : (b : ℕ) → bit_xor 0 b ≡ b
zero-bit_xor b = bit_xor-bitwise 0 b

differ_zero : (b : ℕ) → differ 0 b ≡ b
differ_zero b = refl

-- The lowest digit, and the others.
bit_xor_step : (a b : ℕ) → bit_xor a b ≡ bit_xor (a / 2) (b / 2) * 2 + differ (a % 2) (b % 2)
bit_xor_step zero b = omega (arith, zero-bit_xor b, zero-bit_xor (b / 2), differ_zero (b % 2))
bit_xor_step (suc a) b = omega (
  arith,
  bit_xor-bitwise (suc a) b,
  bit_xor-bitwise (suc a / 2) (b / 2),
  xor_digits_enough a (suc a / 2) (suc a / 2) (b / 2) (omega arith) (omega arith),
)

differ_bound : (a b : ℕ) → a < 2 → b < 2 → differ a b < 2
differ_bound zero b h k = k
differ_bound (suc a) zero h k = h
differ_bound (suc zero) (suc zero) h k = omega arith
differ_bound (suc zero) (suc (suc b)) h k = absurd (omega arith)
differ_bound (suc (suc a)) (suc b) h k = absurd (omega arith)

twice : (k : ℕ) → 2 ^ suc k ≡ 2 * 2 ^ k
twice k = omega arith

pub bit_xor_bound : (k a b : ℕ) → a < 2 ^ k → b < 2 ^ k → bit_xor a b < 2 ^ k
bit_xor_bound zero a b h g =
    let z : a ≡ 0 = omega arith in
    let y : b ≡ 0 = omega arith in rw (z, y) (omega (arith, zero-bit_xor 0))
bit_xor_bound (suc k) a b h g =
    let ih = bit_xor_bound k (a / 2) (b / 2) (omega (arith, twice k)) (omega (arith, twice k)) in
    omega (
      arith,
      bit_xor_step a b,
      differ_bound (a % 2) (b % 2) (omega arith) (omega arith),
      ih,
      twice k,
    )

doubled : (u k : ℕ) → u * 2 ^ suc k ≡ 2 * (u * 2 ^ k)
doubled u k = ap (λ (z : ℕ). u * z) (twice k) ∙ grind arith

half : (u v k : ℕ) → (u * 2 ^ suc k + v) / 2 ≡ u * 2 ^ k + v / 2
half u v k = omega (arith, doubled u k)

odd : (u v k : ℕ) → (u * 2 ^ suc k + v) % 2 ≡ v % 2
odd u v k = omega (arith, doubled u k)

-- Exclusive or at a cut of the digits.
bit_xor_cut :
    (k u v u' v' : ℕ)
    → v < 2 ^ k
    → v' < 2 ^ k
    → bit_xor (u * 2 ^ k + v) (u' * 2 ^ k + v') ≡ bit_xor u u' * 2 ^ k + bit_xor v v'
bit_xor_cut zero u v u' v' h g =
    let a : u * 2 ^ 0 + v ≡ u = omega arith in
    let b : u' * 2 ^ 0 + v' ≡ u' = omega arith in
    let z : v ≡ 0 = omega arith in
    let y : v' ≡ 0 = omega arith in
    let low : bit_xor v v' ≡ bit_xor 0 0 = λ i. bit_xor (z i) (y i) in
    (λ i. bit_xor (a i) (b i)) ∙ omega (arith, low, zero-bit_xor 0)
bit_xor_cut (suc k) u v u' v' h g =
    let ih =
      bit_xor_cut k u (v / 2) u' (v' / 2) (omega (arith, twice k)) (omega (arith, twice k)) in
    bit_xor_step (u * 2 ^ suc k + v) (u' * 2 ^ suc k + v')
    ∙ (λ i. bit_xor (half u v k i) (half u' v' k i) * 2 + differ (odd u v k i) (odd u' v' k i))
    ∙ omega (arith, ih, bit_xor_step v v', doubled (bit_xor u u') k)

-- `rotate_left` of a 64-bit word, by less than 64.
abbrev pub rotate_left : (x k : ℕ) → ℕ
rotate_left x k = x * 2 ^ k % 2 ^ 64 + x / 2 ^ (64 - k)

-- A rotation by `k` swaps the `k` digits in front with the others, which are `s`.
pub record Turn (k s : ℕ) : Type 0 where
  pub form : (x : ℕ) → x < 2 ^ 64 → rotate_left x k ≡ x % 2 ^ s * 2 ^ k + x / 2 ^ s
  pub low : (x : ℕ) → x < 2 ^ 64 → x / 2 ^ s < 2 ^ k
  pub parts : (h l x : ℕ) → x ≡ h * 2 ^ s + l → l < 2 ^ s → (x / 2 ^ s ≡ h) × (x % 2 ^ s ≡ l)
  pub split : (x : ℕ) → (x ≡ x / 2 ^ s * 2 ^ s + x % 2 ^ s) × (x % 2 ^ s < 2 ^ s)

pub turns : (n : ℕ) → n < 16 → Turn (7 * n % 64) (64 - 7 * n % 64)
turns zero b = record {
  form = λ x h. omega arith;
  low = λ x h. omega arith;
  parts = λ h l x e g. (omega arith, omega arith);
  split = λ x. (omega arith, omega arith);
}
turns (suc zero) b = record {
  form = λ x h. omega arith;
  low = λ x h. omega arith;
  parts = λ h l x e g. (omega arith, omega arith);
  split = λ x. (omega arith, omega arith);
}
turns (suc (suc zero)) b = record {
  form = λ x h. omega arith;
  low = λ x h. omega arith;
  parts = λ h l x e g. (omega arith, omega arith);
  split = λ x. (omega arith, omega arith);
}
turns (suc (suc (suc zero))) b = record {
  form = λ x h. omega arith;
  low = λ x h. omega arith;
  parts = λ h l x e g. (omega arith, omega arith);
  split = λ x. (omega arith, omega arith);
}
turns (suc (suc (suc (suc zero)))) b = record {
  form = λ x h. omega arith;
  low = λ x h. omega arith;
  parts = λ h l x e g. (omega arith, omega arith);
  split = λ x. (omega arith, omega arith);
}
turns (suc (suc (suc (suc (suc zero))))) b = record {
  form = λ x h. omega arith;
  low = λ x h. omega arith;
  parts = λ h l x e g. (omega arith, omega arith);
  split = λ x. (omega arith, omega arith);
}
turns (suc (suc (suc (suc (suc (suc zero)))))) b = record {
  form = λ x h. omega arith;
  low = λ x h. omega arith;
  parts = λ h l x e g. (omega arith, omega arith);
  split = λ x. (omega arith, omega arith);
}
turns (suc (suc (suc (suc (suc (suc (suc zero))))))) b = record {
  form = λ x h. omega arith;
  low = λ x h. omega arith;
  parts = λ h l x e g. (omega arith, omega arith);
  split = λ x. (omega arith, omega arith);
}
turns (suc (suc (suc (suc (suc (suc (suc (suc zero)))))))) b = record {
  form = λ x h. omega arith;
  low = λ x h. omega arith;
  parts = λ h l x e g. (omega arith, omega arith);
  split = λ x. (omega arith, omega arith);
}
turns (suc (suc (suc (suc (suc (suc (suc (suc (suc zero))))))))) b = record {
  form = λ x h. omega arith;
  low = λ x h. omega arith;
  parts = λ h l x e g. (omega arith, omega arith);
  split = λ x. (omega arith, omega arith);
}
turns (suc (suc (suc (suc (suc (suc (suc (suc (suc (suc zero)))))))))) b = record {
  form = λ x h. omega arith;
  low = λ x h. omega arith;
  parts = λ h l x e g. (omega arith, omega arith);
  split = λ x. (omega arith, omega arith);
}
turns (suc (suc (suc (suc (suc (suc (suc (suc (suc (suc (suc zero))))))))))) b = record {
  form = λ x h. omega arith;
  low = λ x h. omega arith;
  parts = λ h l x e g. (omega arith, omega arith);
  split = λ x. (omega arith, omega arith);
}
turns (suc (suc (suc (suc (suc (suc (suc (suc (suc (suc (suc (suc zero)))))))))))) b = record {
  form = λ x h. omega arith;
  low = λ x h. omega arith;
  parts = λ h l x e g. (omega arith, omega arith);
  split = λ x. (omega arith, omega arith);
}
turns (suc (suc (suc (suc (suc (suc (suc (suc (suc (suc (suc (suc (suc zero))))))))))))) b =
    record {
      form = λ x h. omega arith;
      low = λ x h. omega arith;
      parts = λ h l x e g. (omega arith, omega arith);
      split = λ x. (omega arith, omega arith);
    }
turns (suc (suc (suc (suc (suc (suc (suc (suc (suc (suc (suc (suc (suc (suc zero)))))))))))))) b =
    record {
      form = λ x h. omega arith;
      low = λ x h. omega arith;
      parts = λ h l x e g. (omega arith, omega arith);
      split = λ x. (omega arith, omega arith);
    }
turns (suc (suc (suc (suc (suc (suc (suc (suc (suc (suc (suc (suc (suc (suc (suc zero)))))))))))))))
      b =
    record {
      form = λ x h. omega arith;
      low = λ x h. omega arith;
      parts = λ h l x e g. (omega arith, omega arith);
      split = λ x. (omega arith, omega arith);
    }
turns
      (suc
        (suc (suc (suc (suc (suc (suc (suc (suc (suc (suc (suc (suc (suc (suc (suc n))))))))))))))))
      b =
    absurd (omega arith)

pub rotate_left_xor :
    {k s : ℕ} (a b : ℕ)
    → Turn k s
    → a < 2 ^ 64
    → b < 2 ^ 64
    → rotate_left (bit_xor a b) k ≡ bit_xor (rotate_left a k) (rotate_left b k)
rotate_left_xor {k} {s} a b t h g =
    let x : ℕ = bit_xor a b in
    let whole : x ≡ bit_xor (a / 2 ^ s) (b / 2 ^ s) * 2 ^ s + bit_xor (a % 2 ^ s) (b % 2 ^ s) =
      (λ i. bit_xor ((t.split a).0 i) ((t.split b).0 i))
      ∙ bit_xor_cut s (a / 2 ^ s) (a % 2 ^ s) (b / 2 ^ s) (b % 2 ^ s) (t.split a).1 (t.split b).1 in
    let p =
      t.parts (bit_xor (a / 2 ^ s) (b / 2 ^ s)) (bit_xor (a % 2 ^ s) (b % 2 ^ s)) x whole
        (bit_xor_bound s (a % 2 ^ s) (b % 2 ^ s) (t.split a).1 (t.split b).1) in
    t.form x (bit_xor_bound 64 a b h g)
    ∙ (λ i. p.1 i * 2 ^ k + p.0 i)
    ∙ sym (bit_xor_cut k (a % 2 ^ s) (a / 2 ^ s) (b % 2 ^ s) (b / 2 ^ s) (t.low a h) (t.low b g))
    ∙ (λ i. bit_xor (sym (t.form a h) i) (sym (t.form b g) i))

-- Seven places, and `7 * n` more.
pub turn_next :
    (n x : ℕ)
    → n < 16
    → x < 2 ^ 64
    → rotate_left (rotate_left x 7) (7 * n % 64) ≡ rotate_left x (7 * suc n % 64)
turn_next zero x b h = omega arith
turn_next (suc zero) x b h = omega arith
turn_next (suc (suc zero)) x b h = omega arith
turn_next (suc (suc (suc zero))) x b h = omega arith
turn_next (suc (suc (suc (suc zero)))) x b h = omega arith
turn_next (suc (suc (suc (suc (suc zero))))) x b h = omega arith
turn_next (suc (suc (suc (suc (suc (suc zero)))))) x b h = omega arith
turn_next (suc (suc (suc (suc (suc (suc (suc zero))))))) x b h = omega arith
turn_next (suc (suc (suc (suc (suc (suc (suc (suc zero)))))))) x b h = omega arith
turn_next (suc (suc (suc (suc (suc (suc (suc (suc (suc zero))))))))) x b h = omega arith
turn_next (suc (suc (suc (suc (suc (suc (suc (suc (suc (suc zero)))))))))) x b h = omega arith
turn_next (suc (suc (suc (suc (suc (suc (suc (suc (suc (suc (suc zero))))))))))) x b h = omega arith
turn_next (suc (suc (suc (suc (suc (suc (suc (suc (suc (suc (suc (suc zero)))))))))))) x b h =
    omega arith
turn_next (suc (suc (suc (suc (suc (suc (suc (suc (suc (suc (suc (suc (suc zero))))))))))))) x b h =
    omega arith
turn_next (suc (suc (suc (suc (suc (suc (suc (suc (suc (suc (suc (suc (suc (suc zero)))))))))))))) x
      b h =
    omega arith
turn_next
      (suc (suc (suc (suc (suc (suc (suc (suc (suc (suc (suc (suc (suc (suc (suc zero)))))))))))))))
      x b h =
    omega arith
turn_next
      (suc
        (suc (suc (suc (suc (suc (suc (suc (suc (suc (suc (suc (suc (suc (suc (suc n))))))))))))))))
      x b h =
    absurd (omega arith)
