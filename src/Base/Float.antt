-- ===== src/Base/Float.antt =====
-- What the code does with a float64, as an interface, and exact fractions, which meet it.
use algo_treading.Base.{ℕ, suc, ◌*◌, ◌/◌, ◌-◌, Bool, eqb, if◌then◌else◌}
use algo_treading.Base.Int.{ℤ, pos, negsuc, ◌+ℤ◌, ◌-ℤ◌, ◌*ℤ◌, leb_ℤ, ltb_ℤ, eqb_ℤ}

-- `ratio n d` is the literal n / d; `to_int` is a conversion to an integer type, towards zero.
pub record Float {ℓ} (F : Type ℓ) : Type ℓ where
  pub of_int : ℤ → F
  pub ratio : ℕ → ℕ → F
  pub add : F → F → F
  pub sub : F → F → F
  pub mul : F → F → F
  pub div : F → F → F
  pub floor : F → F
  pub to_int : F → ℤ
  pub lt : F → F → Bool
  pub le : F → F → Bool
  pub eq : F → F → Bool

-- The fraction num / (den + 1).
pub record Frac : Type 0 where
  pub num : ℤ
  pub den : ℕ

abbrev pub frac : ℤ → ℕ → Frac
frac n d = record { num = n; den = d }

abbrev full : Frac → ℕ
full a = suc a.den

unfoldable pub floor_div : ℤ → ℕ → ℤ
floor_div (pos n) d = pos (n / d)
floor_div (negsuc n) d = negsuc (n / d)

unfoldable pub trunc_div : ℤ → ℕ → ℤ
trunc_div (pos n) d = pos (n / d)
trunc_div (negsuc n) d = elim (suc n / d) [ ℕ.zero ↦ pos 0 | ℕ.suc k ↦ negsuc k ]

-- Division by zero, which the code never relies on, gives zero here.
unfoldable pub div_frac : Frac → Frac → Frac
unfolding ◌*ℤ◌
div_frac a b = elim b.num [
  | pos n ↦
      if eqb n 0 then frac (pos 0) 0 else frac (◌*ℤ◌ a.num (pos (suc b.den))) (suc a.den * n - 1)
  | negsuc n ↦ frac (◌*ℤ◌ a.num (negsuc b.den)) (suc a.den * suc n - 1)
]

instance abbrev pub exact : Float Frac
exact = record {
  of_int = λ z. frac z 0;
  ratio = λ n d. frac (pos n) (d - 1);
  add = λ a b.
      frac (◌*ℤ◌ a.num (pos (suc b.den)) +ℤ ◌*ℤ◌ b.num (pos (suc a.den)))
        (suc a.den * suc b.den - 1);
  sub = λ a b.
      frac (◌*ℤ◌ a.num (pos (suc b.den)) -ℤ ◌*ℤ◌ b.num (pos (suc a.den)))
        (suc a.den * suc b.den - 1);
  mul = λ a b. frac (◌*ℤ◌ a.num b.num) (suc a.den * suc b.den - 1);
  div = div_frac;
  floor = λ a. frac (floor_div a.num (suc a.den)) 0;
  to_int = λ a. trunc_div a.num (suc a.den);
  lt = λ a b. ltb_ℤ (◌*ℤ◌ a.num (pos (suc b.den))) (◌*ℤ◌ b.num (pos (suc a.den)));
  le = λ a b. leb_ℤ (◌*ℤ◌ a.num (pos (suc b.den))) (◌*ℤ◌ b.num (pos (suc a.den)));
  eq = λ a b. eqb_ℤ (◌*ℤ◌ a.num (pos (suc b.den))) (◌*ℤ◌ b.num (pos (suc a.den)));
}
