-- ===== src/Rules/Signals/Early.antt =====
-- The signals of a morning, where neither the service nor the database has a zone of its own.
use algo_treading.Base.{ℕ, ◌+◌, ◌-◌, ◌*◌, ◌/◌, eqb, ◌≤◌, ◌<◌, true, false, String, List, ◌≡◌, arith}
use algo_treading.Base.Float.{Float}
use algo_treading.Rules.Signals.{Signal, date_in_india, counts, count_rows}
use algo_treading.Rules.Signals.Match.{signal_of}
use algo_treading.Rules.Signals.Calls.{Call, handle_calls, AllCalls, Bounded, calls_lem}
use algo_treading.Rules.Signals.Daily.{utc}

earlier :
    (t today : ℕ)
    → 0 < today
    → (t + 19800) / 86400 ≡ today
    → t + 19800 < today * 86400 + 39600
    → eqb ((t + 0 + 0 - 19800) / 86400) today ≡ false
earlier t today later day early = ground arith

module _ {ℓ} {F : Type ℓ} ⦃f : Float F⦄ where
  -- In UTC, an order that is made on a day, but before eleven o'clock in India.
  abbrev pub Early : ℕ → Call F → Type 0
  Early today c =
      (c.answers.zones ≡ utc)
      × (date_in_india c.answers.timestamp ≡ today)
      × (c.answers.timestamp + 19800 < today * 86400 + 39600)

  uncounted_lem :
      (strategy : String) (since today n : ℕ) (c : Call F) (table : List Signal)
      → 0 < today
      → Early today c
      → Bounded (counts utc strategy since today) n c table
  uncounted_lem strategy since today n c table later (same_zone, same_day, early) s o is_s e h =
      absurd (
        let no_row = earlier c.answers.timestamp today later same_day early in
        let row =
          coe 0 1
            (i.
              counts utc strategy since today
                (signal_of o (c.answers.timestamp + (same_zone i).process))
              ≡ true)
            h in
        ground arith)

  -- Where the service and the database keep UTC, orders that are made on a day before eleven o'clock in
  -- India, over any sequence of handled matches, are not counted on that day, neither for the lock on a
  -- stock nor for the cap.
  pub handle_calls-Early :
      (strategy : String) (since today n : ℕ) (cs : List (Call F)) (table : List Signal)
      → 0 < today
      → AllCalls (Early today) cs
      → count_rows (counts utc strategy since today) table ≤ n
      → count_rows (counts utc strategy since today) (handle_calls cs table) ≤ n
  handle_calls-Early strategy since today n cs table later =
      calls_lem (Early today) (counts utc strategy since today) n
        (λ c t early few. uncounted_lem strategy since today n c t later early) cs table
