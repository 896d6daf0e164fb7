-- ===== src/Base/Int.antt =====
-- Signed integers over the native numbers, and the wrap-around of Go's int32.
use algo_treading.Base.{
  ℕ, suc, ◌+◌, ◌-◌, ◌*◌, ◌%◌, ◌^◌, ◌≤◌, ◌<◌, ◌≡◌, refl, Bool, arith, ltb, leb, eqb, if◌then◌else◌,
  List, [], ◌∷◌, ◌↔◌, true, ◌∙◌,
}

-- `negsuc n` is -(n + 1).
pub data ℤ : Type 0 where
  pos : ℕ → ℤ
  negsuc : ℕ → ℤ

abbrev pub pos_part : ℤ → ℕ
pos_part (pos n) = n
pos_part (negsuc n) = 0

abbrev pub neg_part : ℤ → ℕ
neg_part (pos n) = 0
neg_part (negsuc n) = suc n

-- a - b, as an integer.
abbrev pub sub_ℕ : ℕ → ℕ → ℤ
sub_ℕ a b = if leb b a then pos (a - b) else negsuc (b - a - 1)

infixl 65 ◌+ℤ◌ ◌-ℤ◌
infix 50 ◌≤ℤ◌ ◌<ℤ◌
unfoldable pub ◌+ℤ◌ : ℤ → ℤ → ℤ
a +ℤ b = sub_ℕ (pos_part a + pos_part b) (neg_part a + neg_part b)

unfoldable pub ◌-ℤ◌ : ℤ → ℤ → ℤ
a -ℤ b = sub_ℕ (pos_part a + neg_part b) (neg_part a + pos_part b)

unfoldable pub ◌*ℤ◌ : ℤ → ℤ → ℤ
◌*ℤ◌ a b =
    sub_ℕ (pos_part a * pos_part b + neg_part a * neg_part b)
      (pos_part a * neg_part b + neg_part a * pos_part b)

abbrev pub ◌≤ℤ◌ : ℤ → ℤ → Type 0
a ≤ℤ b = pos_part a + neg_part b ≤ pos_part b + neg_part a

abbrev pub ◌<ℤ◌ : ℤ → ℤ → Type 0
a <ℤ b = pos_part a + neg_part b < pos_part b + neg_part a

abbrev pub ltb_ℤ : ℤ → ℤ → Bool
ltb_ℤ a b = ltb (pos_part a + neg_part b) (pos_part b + neg_part a)

abbrev pub leb_ℤ : ℤ → ℤ → Bool
leb_ℤ a b = leb (pos_part a + neg_part b) (pos_part b + neg_part a)

abbrev pub eqb_ℤ : ℤ → ℤ → Bool
eqb_ℤ a b = eqb (pos_part a + neg_part b) (pos_part b + neg_part a)

pub eqb_ℤ_iff : (a b : ℤ) → (eqb_ℤ a b ≡ true) ↔ (a ≡ b)
eqb_ℤ_iff a b = ground arith

pub +ℤ_parts :
    (a b : ℤ)
    → pos_part (a +ℤ b) + neg_part a + neg_part b ≡ neg_part (a +ℤ b) + pos_part a + pos_part b
unfolding ◌+ℤ◌
+ℤ_parts a b = ground arith

pub -ℤ_parts :
    (a b : ℤ)
    → pos_part (a -ℤ b) + neg_part a + pos_part b ≡ neg_part (a -ℤ b) + pos_part a + neg_part b
unfolding ◌-ℤ◌
-ℤ_parts a b = ground arith

pub eq_of_parts : (a b : ℤ) → pos_part a + neg_part b ≡ pos_part b + neg_part a → a ≡ b
eq_of_parts a b h = ground arith

pub ruleset int_laws = (arith, +ℤ_parts, -ℤ_parts, eq_of_parts)

-- The value that an int32 holds after an operation whose exact result is the argument.
unfoldable pub wrap32 : ℤ → ℤ
wrap32 z =
    let n = (pos_part z % 2 ^ 32 + 2 ^ 32 - neg_part z % 2 ^ 32) % 2 ^ 32 in
    if ltb n (2 ^ 31) then pos n else negsuc (2 ^ 32 - n - 1)

abbrev pub Fits32 : ℤ → Type 0
Fits32 z = (pos_part z < 2 ^ 31) × (neg_part z ≤ 2 ^ 31)

pub wrap32_id : (z : ℤ) → Fits32 z → wrap32 z ≡ z
unfolding wrap32
wrap32_id (pos n) h = ground arith
wrap32_id (negsuc n) h = ground arith

infixl 65 ◌+32◌ ◌-32◌
-- int32 addition and subtraction.
unfoldable pub ◌+32◌ : ℤ → ℤ → ℤ
unfolding wrap32 ◌+ℤ◌
a +32 b = wrap32 (a +ℤ b)

unfoldable pub ◌-32◌ : ℤ → ℤ → ℤ
unfolding wrap32 ◌-ℤ◌
a -32 b = wrap32 (a -ℤ b)

pub +32_exact : (a b : ℤ) → Fits32 (a +ℤ b) → a +32 b ≡ a +ℤ b
unfolding ◌+32◌
+32_exact a b h = wrap32_id (a +ℤ b) h

pub -32_exact : (a b : ℤ) → Fits32 (a -ℤ b) → a -32 b ≡ a -ℤ b
unfolding ◌-32◌
-32_exact a b h = wrap32_id (a -ℤ b) h

pub +ℤ_pos : (a b : ℕ) → pos a +ℤ pos b ≡ pos (a + b)
unfolding ◌+ℤ◌
+ℤ_pos a b = ground arith

pub -ℤ_pos : (a b : ℕ) → b ≤ a → pos a -ℤ pos b ≡ pos (a - b)
unfolding ◌-ℤ◌
-ℤ_pos a b h = ground arith

pub *ℤ_pos : (a b : ℕ) → ◌*ℤ◌ (pos a) (pos b) ≡ pos (a * b)
unfolding ◌*ℤ◌
*ℤ_pos a b = ground arith

pub +32_pos : (a b : ℕ) → a + b < 2 ^ 31 → pos a +32 pos b ≡ pos (a + b)
unfolding ◌+32◌
+32_pos a b h = rw (+ℤ_pos a b) (wrap32_id (pos (a + b)) (omega arith))

pub -32_pos : (a b : ℕ) → a < 2 ^ 31 → b ≤ a → pos a -32 pos b ≡ pos (a - b)
unfolding ◌-32◌
-32_pos a b h k = rw (-ℤ_pos a b k) (wrap32_id (pos (a - b)) (omega arith))

pub -32_neg : (a b : ℕ) → b < 2 ^ 31 → a < b → pos a -32 pos b ≡ negsuc (b - a - 1)
unfolding ◌-32◌ ◌-ℤ◌
-32_neg a b h k =
    let less : pos a -ℤ pos b ≡ negsuc (b - a - 1) = ground arith in
    rw less (wrap32_id (negsuc (b - a - 1)) (omega arith))

-- The value that an int64 holds after an operation whose exact result is the argument.
unfoldable pub wrap64 : ℤ → ℤ
wrap64 z =
    let n = (pos_part z % 2 ^ 64 + 2 ^ 64 - neg_part z % 2 ^ 64) % 2 ^ 64 in
    if ltb n (2 ^ 63) then pos n else negsuc (2 ^ 64 - n - 1)

pub wrap64_pos : (n : ℕ) → n < 2 ^ 63 → wrap64 (pos n) ≡ pos n
unfolding wrap64
wrap64_pos n h = ground arith
