-- ===== src/Rules/Signals/Dedup.antt =====
-- How long the deduplicator refuses an event.
use algo_treading.Base.{
  ℕ, ◌+◌, ◌≤◌, ◌<◌, true, false, String, ◌==◌, eq_iff, List, [], ◌∷◌, some, ◌≡◌, refl, ap, ◌∙◌, sym,
  arith, length,
}
use algo_treading.Base.Dict.{Dict, lookup, lookup-insert}
use algo_treading.Rules.Signals.Engine.{Deduper, evict, is_recent, allow}

-- Other events, with the times at which they come.
unfoldable pub allow_all : List (String × ℕ) → Deduper → Deduper
unfolding allow
allow_all [] d = d
allow_all ((id, now) ∷ rest) d = allow_all rest (allow id now d).0

-- The map does not outgrow its bound, so nothing is evicted.
abbrev pub IsSmall : Deduper → Type 0
IsSmall d = length d.items ≤ d.max_entries

-- The map is small before each event, and the events come before a time.
abbrev pub Within : ℕ → List (String × ℕ) → Deduper → Type 0
Within end [] d = IsSmall d
Within end ((id, now) ∷ rest) d = IsSmall d × (now < end) × Within end rest (allow id now d).0

evict_lem : (now : ℕ) (d : Deduper) → IsSmall d → evict now d ≡ d.items
unfolding evict
evict_lem now d h = ground arith

same_lem :
    (id other : String) (t now w : ℕ) (items : Dict ℕ)
    → now < t + w
    → lookup id items ≡ some t
    → other == id ≡ true
    → is_recent w now (lookup other items) ≡ true
same_lem id other t now w items early seen e =
    let is_some = ap (λ k. lookup k items) (((eq_iff other id).0) e) ∙ seen in
    rw is_some (ground arith)

-- An id keeps its time while other events come within the window.
kept_lem :
    (id other : String) (t now : ℕ) (d : Deduper)
    → IsSmall d
    → now < t + d.window
    → lookup id d.items ≡ some t
    → (lookup id (allow other now d).0.items ≡ some t) × ((allow other now d).0.window ≡ d.window)
unfolding allow
kept_lem id other t now d small early seen = rw (evict_lem now d small) (
    ground (
      arith,
      lookup-insert other id now d.items,
      same_lem id other t now d.window d.items early seen,
    ))

all_lem :
    (id : String) (t : ℕ) (events : List (String × ℕ)) (d : Deduper)
    → Within (t + d.window) events d
    → lookup id d.items ≡ some t
    → (lookup id (allow_all events d).items ≡ some t)
      × ((allow_all events d).window ≡ d.window)
      × IsSmall (allow_all events d)
unfolding allow_all
all_lem id t [] d within seen = (seen, refl, within)
all_lem id t ((other, now) ∷ rest) d (small, early, later) seen =
    let (still, same) = kept_lem id other t now d small early seen in
    let (found, kept, fits) =
      all_lem id t rest _ (coe 0 1 (i. Within (t + sym same i) rest (allow other now d).0) later)
        still in
    (found, kept ∙ same, fits)

first_lem :
    (id : String) (t : ℕ) (d : Deduper)
    → id == "" ≡ false
    → (allow id t d).1 ≡ true
    → (lookup id (allow id t d).0.items ≡ some t) × ((allow id t d).0.window ≡ d.window)
unfolding allow
first_lem id t d named allowed = ground (arith, lookup-insert id id t (evict t d), eq_iff id id)

again_lem :
    (id : String) (t now : ℕ) (d : Deduper)
    → id == "" ≡ false
    → IsSmall d
    → now < t + d.window
    → lookup id d.items ≡ some t
    → (allow id now d).1 ≡ false
unfolding allow
again_lem id t now d named small early seen = rw (evict_lem now d small) (rw seen (ground arith))

-- An event id that is let through is refused when it comes again within the window, whatever events come
-- between, as long as they come within it too and the map does not outgrow its bound.
pub allow-allow_all :
    (id : String) (t now : ℕ) (events : List (String × ℕ)) (d : Deduper)
    → id == "" ≡ false
    → (allow id t d).1 ≡ true
    → Within (t + d.window) events (allow id t d).0
    → now < t + d.window
    → (allow id now (allow_all events (allow id t d).0)).1 ≡ false
allow-allow_all id t now events d named allowed within early =
    let (seen, same) = first_lem id t d named allowed in
    let (found, kept, small) =
      all_lem id t events _ (coe 0 1 (i. Within (t + sym same i) events (allow id t d).0) within)
        seen in
    again_lem id t now _ named small (coe 0 1 (i. now < t + (sym (kept ∙ same)) i) early) found
