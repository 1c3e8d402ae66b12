-- ===== src/Assessment/Readiness/Rounding.antt =====
-- `round(a / b, 2)` on Python's floats, in hundredths. How a float is divided and rounded is left open; what
-- the score rests on are the laws, which hold of any division and rounding that never reverse an order.
use Prim.Native.Nat.{◌/◌}
use kosa_aws.Base.{arith, refl, ℕ, ◌*◌, ◌+◌, ◌<◌, ◌≡◌, ◌≤◌}

-- For quotients up to 100: whole ones stay, the order is kept, and a result is less than a hundredth away.
pub record Rounds (round_two : ℕ → ℕ → ℕ) : Type 0 where
  pub whole : (c b : ℕ) → 1 ≤ b → c ≤ 100 → round_two (c * b) b ≡ 100 * c
  pub ordered : (a c b : ℕ) → 1 ≤ b → a ≤ c → c ≤ 100 * b → round_two a b ≤ round_two c b
  pub near :
      (a b : ℕ)
      → 1 ≤ b
      → a ≤ 100 * b
      → (b * round_two a b < 100 * a + b) × (100 * a < b * round_two a b + b)

-- The nearest hundredth, a half rounded up.
abbrev pub nearest : ℕ → ℕ → ℕ
nearest a b = (200 * a + b) / (2 * b)

below_quotient : (a b : ℕ) → 1 ≤ b → b * (a / b) ≤ a
below_quotient a b p = grind arith

above_quotient : (a b : ℕ) → 1 ≤ b → a < b * (a / b) + b
above_quotient a b p = grind arith

cancel_factor : (b r s : ℕ) → 1 ≤ b → b * r < b * s + b → r ≤ s
cancel_factor b r s p h = grind arith

-- The two sides of the nearest hundredth.
nearest_within :
    (a b r : ℕ)
    → r ≡ nearest a b
    → 1 ≤ b
    → (2 * (b * r) ≤ 200 * a + b) × (200 * a + b < 2 * (b * r) + 2 * b)
nearest_within a b r e p =
    let low = below_quotient (200 * a + b) (2 * b) (omega arith) in
    let high = above_quotient (200 * a + b) (2 * b) (omega arith) in
    (grind (arith, low, e), grind (arith, high, e))

nearest_whole : (c b : ℕ) → 1 ≤ b → nearest (c * b) b ≡ 100 * c
nearest_whole c b p =
    let (low, high) = nearest_within (c * b) b _ refl p in
    let r = nearest (c * b) b in
    let up = cancel_factor b r (100 * c) p (grind (arith, low)) in
    let down = cancel_factor b (100 * c) r p (grind (arith, high)) in omega (arith, up, down)

nearest_ordered : (a c b : ℕ) → 1 ≤ b → a ≤ c → nearest a b ≤ nearest c b
nearest_ordered a c b p h =
    let (low, _) = nearest_within a b _ refl p in
    let (_, high) = nearest_within c b _ refl p in
    cancel_factor b (nearest a b) (nearest c b) p (omega (arith, low, high, h))

pub nearest-Rounds : Rounds nearest
nearest-Rounds = record {
  whole = λ c b p _. nearest_whole c b p;
  ordered = λ a c b p h _. nearest_ordered a c b p h;
  near = λ a b p _.
      let (low, high) = nearest_within a b _ refl p in
      (omega (arith, low, p), omega (arith, high, p));
}

-- Where a rounded quotient of at most 100 lies: from 0 to 100, and at an end only near it.
module _ (round_two : ℕ → ℕ → ℕ) (laws : Rounds round_two) where
  pub rounded_bound : (a b : ℕ) → 1 ≤ b → a ≤ 100 * b → round_two a b ≤ 10000
  rounded_bound a b p h =
      let top = laws.whole 100 b p (omega arith) in
      let below = laws.ordered a (100 * b) b p h (omega arith) in omega (arith, top, below)

  pub rounded_top : (b : ℕ) → 1 ≤ b → round_two (100 * b) b ≡ 10000
  rounded_top b p = let top = laws.whole 100 b p (omega arith) in omega (arith, top)

  pub rounded_zero : (b : ℕ) → 1 ≤ b → round_two 0 b ≡ 0
  rounded_zero b p = let zeros = laws.whole 0 b p (omega arith) in grind (arith, zeros)

  -- A divisor that is not too large keeps a quotient of hundreds off the ends.
  pub rounded-top : (k b : ℕ) → 1 ≤ b → b ≤ 10000 → k ≤ b → round_two (100 * k) b ≡ 10000 → k ≡ b
  rounded-top k b p small h e =
      let (low, _) = laws.near (100 * k) b p (omega (arith, h)) in
      let bound : b * 10000 < 100 * (100 * k) + b = rw e at low in omega (arith, bound, small, h)

  pub rounded-zero : (k b : ℕ) → 1 ≤ b → b ≤ 10000 → k ≤ b → round_two (100 * k) b ≡ 0 → k ≡ 0
  rounded-zero k b p small h e =
      let (_, high) = laws.near (100 * k) b p (omega (arith, h)) in
      let bound : 100 * (100 * k) < b * 0 + b = rw e at high in omega (arith, bound, small)
