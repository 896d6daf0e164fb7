-- ===== src/MultiLevel/Split/Initial.antt =====
-- computeInitialExitQtys: the parts add up to the filled quantity.
use algo_treading.Base.{
  ℕ, zero, suc, ◌∙◌, ◌+◌, ◌-◌, ap, ◌^◌, ◌≤◌, ◌<◌, ◌≡◌, refl, List, [], ◌∷◌, arith, All, length,
}
use algo_treading.Base.Int.{ℤ, pos, negsuc, ◌+ℤ◌, ◌≤ℤ◌, ◌+32◌, ◌-32◌, +32_pos, -32_pos, int_laws}
use native.Mathlib.Decide.{dec_lt}
use algo_treading.Base.Float.{Float}
use algo_treading.MultiLevel.Split.{
  LevelConfig, portion, clamp, initial_from, compute_initial_exit_qtys,
}

abbrev pub sum_ℤ : List ℤ → ℤ
sum_ℤ [] = pos 0
sum_ℤ (q ∷ qs) = q +ℤ sum_ℤ qs

abbrev pub InRange : ℕ → ℤ → Type 0
InRange n z = (pos 0 ≤ℤ z) × (z ≤ℤ pos n)

-- Below 2 ^ 30 nothing wraps, and the clamp holds the sum at the filled quantity.
clamp_bounds :
    (n a q : ℕ)
    → n < 2 ^ 30
    → a ≤ n
    → q ≤ n
    → (r : ℕ) × (clamp (pos n) (pos a) (pos q) ≡ pos r) × (a + r ≤ n)
unfolding clamp
clamp_bounds n a q h k l = elim (dec_lt n (a + q)) [
  | yes over ↦ (n - a, rw (sum_eq, rest_eq) (ground arith), omega arith)
  | no under ↦ (q, rw sum_eq (ground arith), omega arith)
]
  where
    sum_eq : pos a +32 pos q ≡ pos (a + q)
    sum_eq = +32_pos a q (omega arith)

    rest_eq : pos n -32 pos a ≡ pos (n - a)
    rest_eq = -32_pos n a (omega arith) (omega arith)

InRange-pos : (n : ℕ) (z : ℤ) → InRange n z → (q : ℕ) × (z ≡ pos q) × (q ≤ n)
InRange-pos n (pos q) h = (q, refl, omega arith)
InRange-pos n (negsuc q) h = absurd (omega arith)

module _ {ℓ} {F : Type ℓ} ⦃f : Float F⦄ where
  -- The percentage of the level yields a part between zero and the filled quantity.
  abbrev pub IsPortion : ℕ → LevelConfig F → Type 0
  IsPortion n c = InRange n (portion (pos n) c.qty_pct)

  initial_from_lem :
      (n a : ℕ) (c : LevelConfig F) (rest : List (LevelConfig F))
      → n < 2 ^ 30
      → a ≤ n
      → All (IsPortion n) (c ∷ rest)
      → let out = initial_from (pos n) (pos a) c rest in
        (sum_ℤ out ≡ pos (n - a)) × All (InRange n) out × (length out ≡ suc (length rest))
  unfolding initial_from
  initial_from_lem n a c [] h k p =
      rw (-32_pos n a (omega arith) k) (omega int_laws, omega arith, refl)
  initial_from_lem n a c (d ∷ rest) h k (p, ps) =
      let (q, is_q, q_le) = InRange-pos n (portion (pos n) c.qty_pct) p in
      let (r, is_r, r_le) = clamp_bounds n a q h k q_le in
      rw (is_q, is_r, +32_pos a r (omega arith))
        (let (sum, bounds, len) = initial_from_lem n (a + r) d rest h r_le ps in
          rw sum (omega int_laws, (omega arith, bounds), ap suc len))

  -- Up to 2 ^ 30 filled, with percentages whose parts lie between zero and that quantity, there is
  -- one part for each level, each between zero and the filled quantity, and the parts add up to it.
  pub compute_initial_exit_qtys-sum :
      (c : LevelConfig F) (rest : List (LevelConfig F)) (n : ℕ)
      → 0 < n
      → n < 2 ^ 30
      → All (IsPortion n) (c ∷ rest)
      → let out = compute_initial_exit_qtys (c ∷ rest) (pos n) in
        (sum_ℤ out ≡ pos n) × All (InRange n) out × (length out ≡ suc (length rest))
  unfolding compute_initial_exit_qtys
  compute_initial_exit_qtys-sum c rest zero z h p = elim z [ ]
  compute_initial_exit_qtys-sum c rest (suc n) z h p =
      let (adds, bounds, len) = initial_from_lem (suc n) 0 c rest h (omega arith) p in
      rw open_loop (adds ∙ ap pos (omega arith), bounds, len)
    where
      open_loop :
          compute_initial_exit_qtys (c ∷ rest) (pos (suc n))
          ≡ initial_from (pos (suc n)) (pos 0) c rest
      open_loop = ground arith
