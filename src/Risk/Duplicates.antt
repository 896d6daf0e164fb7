-- ===== src/Risk/Duplicates.antt =====
-- An order that comes again while it is remembered.
use algo_treading.Base.{
  ℕ, ◌+◌, ◌≤◌, ◌<◌, Bool, true, false, ◌&&◌, ◌||◌, List, [], ◌∷◌, any, ltb, leb, ◌≡◌, refl, ◌∙◌,
  sym, arith, Bool-cases, inl, inr,
}
use algo_treading.Base.Int.{ℤ, eqb_ℤ}
use algo_treading.Base.Float.{Float}
use algo_treading.Risk.{
  PreTradeRiskRequest, Fingerprint, Violation, UserKeys, Reads, same_order, check_duplicate_order,
  without, add_duplicate_order, flag_if, fingerprint_order, violations_of, respond, check_pre_trade,
}

-- An entry of an order that lasts until a time.
abbrev pub lasts : Fingerprint → ℕ → Fingerprint × ℕ → Bool
lasts order end e = same_order e.0 order && leb end e.1

-- The order is remembered until then.
abbrev pub IsRemembered : Fingerprint → ℕ → List (Fingerprint × ℕ) → Type 0
IsRemembered order end entries = any (lasts order end) entries ≡ true

same_self : (a : Fingerprint) → same_order a a ≡ true
same_self a = ground arith

eqb_trans : (a b c : ℤ) → eqb_ℤ a b ≡ true → eqb_ℤ a c ≡ true → eqb_ℤ c b ≡ true
eqb_trans a b c h k = ground arith

and_lem :
    (a b c a' b' c' x y z : Bool)
    → (a ≡ true → a' ≡ true → x ≡ true)
    → (b ≡ true → b' ≡ true → y ≡ true)
    → (c ≡ true → c' ≡ true → z ≡ true)
    → a && b && c ≡ true
    → a' && b' && c' ≡ true
    → x && y && z ≡ true
and_lem a b c a' b' c' x y z h k l e e' = ground arith

same_trans :
    (a b c : Fingerprint) → same_order a b ≡ true → same_order a c ≡ true → same_order c b ≡ true
same_trans a b c =
    and_lem _ _ _ _ _ _ _ _ _ (eqb_trans a.stock b.stock c.stock) (eqb_trans a.side b.side c.side)
      (eqb_trans a.quantity b.quantity c.quantity)

-- What is left of a disjunction when its first part contradicts.
or_rest :
    (same in_time rest : Bool)
    → (same ≡ true → false ≡ true)
    → same && in_time || rest ≡ true
    → rest ≡ true
or_rest same in_time rest h e = ground arith

or_keep :
    (first rest others : Bool)
    → (rest ≡ true → others ≡ true)
    → first || rest ≡ true
    → first || others ≡ true
or_keep first rest others h e = ground arith

-- Removing an order keeps an entry of another one.
without_lem :
    (other order : Fingerprint) (end : ℕ) (entries : List (Fingerprint × ℕ))
    → IsRemembered order end entries
    → same_order other order ≡ false
    → IsRemembered order end (without other entries)
unfolding without
without_lem other order end [] h e = h
without_lem other order end (entry ∷ rest) h e = elim (Bool-cases (same_order entry.0 other)) [
  | inl same ↦ rw same (
      without_lem other order end rest
        (or_rest (same_order entry.0 order) (leb end entry.1) (any (lasts order end) rest)
          (λ k. sym e ∙ same_trans entry.0 order other k same) h)
        e)
  | inr distinct ↦ rw distinct (
      or_keep (lasts order end entry) (any (lasts order end) rest)
        (any (lasts order end) (without other rest)) (λ k. without_lem other order end rest k e) h)
]

first_lem : (end time : ℕ) (rest : Bool) → end ≤ time → leb end time || rest ≡ true
first_lem end time rest h = ground arith

-- Setting a key keeps the order, if the new time is not before its end.
add_lem :
    (other order : Fingerprint) (end now : ℕ) (entries : List (Fingerprint × ℕ))
    → IsRemembered order end entries
    → end ≤ now + 30
    → IsRemembered order end (add_duplicate_order other now 30 entries)
unfolding add_duplicate_order
add_lem other order end now entries h late = elim (Bool-cases (same_order other order)) [
  | inl e ↦ rw e (first_lem end (now + 30) _ late)
  | inr e ↦ rw e (without_lem other order end entries h e)
]

later_lem :
    (same rest others : Bool) (end now time : ℕ)
    → now < end
    → (rest ≡ true → now < end → others ≡ true)
    → same && leb end time || rest ≡ true
    → same && ltb now time || others ≡ true
later_lem same rest others end now time early h e = ground arith

check_lem :
    (order : Fingerprint) (end now : ℕ) (entries : List (Fingerprint × ℕ))
    → IsRemembered order end entries
    → now < end
    → check_duplicate_order order now entries ≡ true
unfolding check_duplicate_order
check_lem order end now [] h early = h
check_lem order end now (entry ∷ rest) h early =
    later_lem (same_order entry.0 order) (any (lasts order end) rest)
      (any (λ e. same_order e.0 order && ltb now e.1) rest) end now entry.1 early
      (check_lem order end now rest) h

abbrev NonEmpty : List Violation → Type 0
NonEmpty [] = ⊥
NonEmpty (v ∷ vs) = Unit

flag_if-NonEmpty :
    (b : Bool) (v : Violation) (rest : List Violation) → NonEmpty rest → NonEmpty (flag_if b v rest)
unfolding flag_if
flag_if-NonEmpty true v rest h = tt
flag_if-NonEmpty false v rest h = h

flag_if-true :
    (b : Bool) (v : Violation) (rest : List Violation) → b ≡ true → NonEmpty (flag_if b v rest)
unfolding flag_if
flag_if-true true v rest h = tt
flag_if-true false v rest h = ground arith

and_both : (a b : Bool) → a ≡ true → b ≡ true → a && b ≡ true
and_both a b h k = ground arith

-- One order, as it is checked at a time.
pub record Check {ℓ} (F : Type ℓ) : Type ℓ where
  pub reads : Reads
  pub order : PreTradeRiskRequest F
  pub time : ℕ

module _ {ℓ} {F : Type ℓ} ⦃f : Float F⦄ where
  -- Orders of the user, checked one after another.
  unfoldable pub check_all : List (Check F) → UserKeys F → UserKeys F
  unfolding check_pre_trade
  check_all [] user = user
  check_all (c ∷ cs) user = check_all cs (check_pre_trade c.reads c.order c.time user).0

  abbrev pub AllAfter : ℕ → List (Check F) → Type 0
  AllAfter start [] = Unit
  AllAfter start (c ∷ cs) = (start ≤ c.time) × AllAfter start cs

  respond_keeps :
      (order : Fingerprint) (end : ℕ) (reads : Reads) (r : PreTradeRiskRequest F) (now : ℕ)
      (user : UserKeys F) (vs : List Violation)
      → IsRemembered order end user.fingerprints
      → end ≤ now + 30
      → IsRemembered order end (respond reads r now user vs).0.fingerprints
  unfolding respond
  respond_keeps order end reads r now user [] h late = elim (Bool-cases reads.add_duplicate) [
    | inl e ↦ rw e (add_lem (fingerprint_order r) order end now user.fingerprints h late)
    | inr e ↦ rw e h
  ]
  respond_keeps order end reads r now user (v ∷ vs) h late = h

  check_all_keeps :
      (order : Fingerprint) (start : ℕ) (cs : List (Check F)) (user : UserKeys F)
      → AllAfter start cs
      → IsRemembered order (start + 30) user.fingerprints
      → IsRemembered order (start + 30) (check_all cs user).fingerprints
  unfolding check_all check_pre_trade
  check_all_keeps order start [] user after h = h
  check_all_keeps order start (c ∷ cs) user (now, after) h =
      check_all_keeps order start cs _ after (
        respond_keeps order (start + 30) c.reads c.order c.time user
          (violations_of c.reads c.order c.time user) h (omega arith))

  remember_lem :
      (reads : Reads) (r : PreTradeRiskRequest F) (now : ℕ) (user : UserKeys F)
      (vs : List Violation)
      → reads.add_duplicate ≡ true
      → (respond reads r now user vs).1.approved ≡ true
      → IsRemembered (fingerprint_order r) (now + 30) (respond reads r now user vs).0.fingerprints
  unfolding respond add_duplicate_order
  remember_lem reads r now user [] ok h =
      rw ok (rw (same_self (fingerprint_order r)) (first_lem (now + 30) (now + 30) _ (omega arith)))
  remember_lem reads r now user (v ∷ vs) ok h = ground arith

  refused_lem :
      (reads : Reads) (r : PreTradeRiskRequest F) (now : ℕ) (user : UserKeys F)
      (vs : List Violation)
      → NonEmpty vs
      → (respond reads r now user vs).1.approved ≡ false
  unfolding respond
  refused_lem reads r now user [] h = elim h [ ]
  refused_lem reads r now user (v ∷ vs) h = refl

  duplicate_lem :
      (reads : Reads) (r : PreTradeRiskRequest F) (now : ℕ) (user : UserKeys F)
      → reads.duplicate ≡ true
      → check_duplicate_order (fingerprint_order r) now user.fingerprints ≡ true
      → NonEmpty (violations_of reads r now user)
  unfolding violations_of
  duplicate_lem reads r now user ok h = flag_if-NonEmpty _ Violation.daily_trade_limit _ (
      flag_if-NonEmpty _ Violation.daily_loss_limit _ (
        flag_if-NonEmpty _ Violation.position_size_limit _ (
          flag_if-NonEmpty _ Violation.per_trade_risk_limit _
            (flag_if-true _ Violation.duplicate_order _ (and_both _ _ ok h)))))

  -- An approved order that is remembered is not approved again within thirty seconds, whatever orders of
  -- the user are checked between, where they come after it and Redis answers the question for duplicates.
  pub check_pre_trade-check_all :
      (reads again : Reads) (r same : PreTradeRiskRequest F) (start now : ℕ) (cs : List (Check F))
      (user : UserKeys F)
      → (check_pre_trade reads r start user).1.approved ≡ true
      → reads.add_duplicate ≡ true
      → again.duplicate ≡ true
      → fingerprint_order same ≡ fingerprint_order r
      → AllAfter start cs
      → now < start + 30
      → let later = check_all cs (check_pre_trade reads r start user).0 in
        (check_pre_trade again same now later).1.approved ≡ false
  unfolding check_pre_trade
  check_pre_trade-check_all reads again r same start now cs user approved ok asked is_same after
        early =
      let remembered =
        remember_lem reads r start user (violations_of reads r start user) ok approved in
      let kept = check_all_keeps (fingerprint_order r) start cs _ after remembered in
      let last = check_all cs (respond reads r start user (violations_of reads r start user)).0 in
      refused_lem again same now last _ (
        duplicate_lem again same now last asked (
          coe 0 1 (i. check_duplicate_order (sym is_same i) now last.fingerprints ≡ true)
            (check_lem (fingerprint_order r) (start + 30) now last.fingerprints kept early)))
