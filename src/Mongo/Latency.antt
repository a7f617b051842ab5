-- ===== src/Mongo/Latency.antt =====
-- `ping_latency_ms` of middleware_python/db/mongodb.py. Times are in hundredths of a millisecond, to
-- which the code rounds them; `mean` is the rounded quotient of floats, an argument.
use social_graph_engine.Base.{
  ℕ, suc, ◌+◌, ◌*◌, ◌≤◌, ◌<◌, ◌≡◌, ◌↔◌, ◌≢◌, refl, sym, ◌∙◌, ap, subst, Bool, true, false, Option,
  none, some, List, [], ◌∷◌, ◌==◌, ==_iff, length, min, max, All, arith, if◌then◌else◌,
}

-- A sample is `none` where the ping raised; the code lists it as -1.
pub record Latency : Type 0 where
  pub min_ms : ℕ
  pub max_ms : ℕ
  pub avg_ms : ℕ
  pub samples : List (Option ℕ)
  pub healthy : Bool

-- `[l for l in latencies if l >= 0]`
unfoldable pub successful : List (Option ℕ) → List ℕ
successful [] = []
successful (none ∷ latencies) = successful latencies
successful (some l ∷ latencies) = l ∷ successful latencies

-- `min`, `max` and `sum` of a list; the first two of a list that is not empty, with its head first.
unfoldable pub minimum : ℕ → List ℕ → ℕ
minimum l [] = l
minimum l (m ∷ ls) = min l (minimum m ls)

unfoldable pub maximum : ℕ → List ℕ → ℕ
maximum l [] = l
maximum l (m ∷ ls) = max l (maximum m ls)

unfoldable pub sum : List ℕ → ℕ
sum [] = 0
sum (l ∷ ls) = l + sum ls

unfoldable pub unhealthy : List (Option ℕ) → Latency
unhealthy latencies = record {
  min_ms = 0;
  max_ms = 0;
  avg_ms = 0;
  samples = latencies;
  healthy = false;
}

module _ (mean : ℕ → ℕ → ℕ) where
  unfoldable pub summary : List ℕ → List (Option ℕ) → Latency
  unfolding unhealthy minimum maximum sum
  summary [] latencies = unhealthy latencies
  summary (l ∷ ls) latencies = record {
    min_ms = minimum l ls;
    max_ms = maximum l ls;
    avg_ms = mean (sum (l ∷ ls)) (length (l ∷ ls));
    samples = latencies;
    healthy = length (l ∷ ls) == length latencies;
  }

  -- `ping_latency_ms`, given whether there is a database and what each of the `samples` pings takes.
  unfoldable pub ping_latency_ms : Bool → List (Option ℕ) → Latency
  unfolding unhealthy summary successful
  ping_latency_ms db latencies =
      if db then summary (successful latencies) latencies else unhealthy []

  -- The rounded mean of numbers of a range lies in the range.
  abbrev pub IsMean : Type 0
  IsMean = (n s m : ℕ) → 0 < n → (m * n ≤ s → m ≤ mean s n) × (s ≤ m * n → mean s n ≤ m)

-- Every sample that succeeded lies within bounds.
abbrev pub Within : ℕ → ℕ → List (Option ℕ) → Type 0
Within lo hi [] = Unit
Within lo hi (none ∷ ls) = Within lo hi ls
Within lo hi (some l ∷ ls) = ((lo ≤ l) × (l ≤ hi)) × Within lo hi ls

-- Every sample succeeded.
abbrev pub Succeeded : List (Option ℕ) → Type 0
Succeeded [] = Unit
Succeeded (none ∷ ls) = ⊥
Succeeded (some l ∷ ls) = Succeeded ls

abbrev Between : ℕ → ℕ → List ℕ → Type 0
Between lo hi ls = All (λ l. (lo ≤ l) × (l ≤ hi)) ls

sum-bounds :
    (lo hi : ℕ) (ls : List ℕ)
    → Between lo hi ls
    → (lo * length ls ≤ sum ls) × (sum ls ≤ hi * length ls)
unfolding sum
sum-bounds lo hi [] b = (omega arith, omega arith)
sum-bounds lo hi (l ∷ ls) b =
    let (lower, upper) = sum-bounds lo hi ls b.1 in
    let step_lo : lo * suc (length ls) ≡ lo * length ls + lo = grind arith in
    let step_hi : hi * suc (length ls) ≡ hi * length ls + hi = grind arith in
    (omega arith, omega arith)

widen :
    (lo hi lo' hi' : ℕ) (ls : List ℕ) → lo' ≤ lo → hi ≤ hi' → Between lo hi ls → Between lo' hi' ls
widen lo hi lo' hi' [] down up b = tt
widen lo hi lo' hi' (l ∷ ls) down up b =
    ((omega arith, omega arith), widen lo hi lo' hi' ls down up b.1)

extremes : (l : ℕ) (ls : List ℕ) → Between (minimum l ls) (maximum l ls) (l ∷ ls)
unfolding minimum maximum
extremes l [] = ((omega arith, omega arith), tt)
extremes l (m ∷ ls) = (
  (omega arith, omega arith),
  widen (minimum m ls) (maximum m ls) (min l (minimum m ls)) (max l (maximum m ls)) (m ∷ ls)
      (omega arith) (omega arith) (extremes m ls),
)

length-successful :
    (latencies : List (Option ℕ))
    → (length (successful latencies) ≤ length latencies)
      × ((length (successful latencies) ≡ length latencies) ↔ Succeeded latencies)
unfolding successful
length-successful [] = (omega arith, (λ e. tt, λ s. refl))
length-successful (none ∷ ls) =
    let (fewer, same) = length-successful ls in
    (omega arith, (λ e. absurd (omega arith), λ s. absurd s))
length-successful (some l ∷ ls) =
    let (fewer, same) = length-successful ls in
    (omega arith, (λ e. same.0 (omega arith), λ s. ap suc (same.1 s)))

Between-Within :
    (lo hi : ℕ) (latencies : List (Option ℕ))
    → Between lo hi (successful latencies)
    → Within lo hi latencies
unfolding successful
Between-Within lo hi [] b = tt
Between-Within lo hi (none ∷ ls) b = Between-Within lo hi ls b
Between-Within lo hi (some l ∷ ls) b = (b.0, Between-Within lo hi ls b.1)

module _ (mean : ℕ → ℕ → ℕ) where
  -- What the answer of the probe promises.
  pub record IsSummary (db : Bool) (latencies : List (Option ℕ)) (r : Latency) : Type 0 where
    pub lower : r.min_ms ≤ r.avg_ms
    pub upper : r.avg_ms ≤ r.max_ms
    pub within : Within r.min_ms r.max_ms r.samples
    pub all_good : (r.healthy ≡ true) ↔ ((db ≡ true) × Succeeded latencies × (latencies ≢ []))

  summary-IsSummary :
      (ls : List ℕ) (latencies : List (Option ℕ))
      → successful latencies ≡ ls
      → IsMean mean
      → IsSummary true latencies (summary mean ls latencies)
  unfolding summary unhealthy
  summary-IsSummary [] latencies e rounds =
      let (fewer, same) = length-successful latencies in
      let none_there : length (successful latencies) ≡ 0 = ap length e in
      record {
        lower = omega arith;
        upper = omega arith;
        within = Between-Within 0 0 latencies (subst (Between 0 0) (sym e) tt);
        all_good = (
          λ h. absurd (cc),
          λ good. absurd (good.2 (empty latencies (sym (same.1 good.1) ∙ none_there))),
        );
      }
    where
      empty : (xs : List (Option ℕ)) → length xs ≡ 0 → xs ≡ []
      empty [] h = refl
      empty (x ∷ xs) h = absurd (omega arith)
  summary-IsSummary (l ∷ ls) latencies e rounds =
      let (fewer, same) = length-successful latencies in
      let there : length (successful latencies) ≡ suc (length ls) = ap length e in
      let range = extremes l ls in
      let (low, high) = sum-bounds (minimum l ls) (maximum l ls) (l ∷ ls) range in
      let count = suc (length ls) in
      record {
        lower = (rounds count (sum (l ∷ ls)) (minimum l ls) (omega arith)).0 low;
        upper = (rounds count (sum (l ∷ ls)) (maximum l ls) (omega arith)).1 high;
        within =
            Between-Within (minimum l ls) (maximum l ls) latencies
              (subst (Between (minimum l ls) (maximum l ls)) (sym e) range);
        all_good = (
          λ h. (
            refl,
            same.0 (there ∙ (==_iff count (length latencies)).0 h),
            λ gone. absurd (omega (arith, ap length gone)),
          ),
          λ good. (==_iff count (length latencies)).1 (sym there ∙ same.1 good.1),
        );
      }

  -- The mean of the probe lies between its least and its greatest latency, every sample that
  -- succeeded lies between them too, and the answer says healthy exactly where there is a database
  -- and every one of at least one sample succeeded. The rounded mean of numbers of a range lies in
  -- the range.
  pub ping_latency_ms-IsSummary :
      (db : Bool) (latencies : List (Option ℕ))
      → IsMean mean
      → IsSummary db latencies (ping_latency_ms mean db latencies)
  unfolding ping_latency_ms unhealthy
  ping_latency_ms-IsSummary false latencies rounds = record {
    lower = omega arith;
    upper = omega arith;
    within = tt;
    all_good = (λ h. absurd (cc), λ good. absurd (cc good.0));
  }
  ping_latency_ms-IsSummary true latencies rounds =
      summary-IsSummary (successful latencies) latencies refl rounds
