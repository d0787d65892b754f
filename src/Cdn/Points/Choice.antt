-- ===== src/Cdn/Points/Choice.antt =====
-- What `latestSafeIndex` promises of a result.
use qiniu_exporter.Base.{
  All, All-imp, Bool-cases, List, Option, Option-cases, String, [], ap, arith, drop, false,
  get_elem?, if◌then◌else◌, inl, inr, none, refl, some, suc, true, ℕ, ◌+◌, ◌<◌, ◌∙◌, ◌∷◌, ◌≡◌, ◌≤◌,
  ◌⊎◌,
}
use qiniu_exporter.Base.Calendar.{Location}
use qiniu_exporter.Base.Calendar.Layouts.{Layout, parse_in_location}
use qiniu_exporter.Base.Result.{Result, err, ok, ◌>>=◌}
use qiniu_exporter.Cdn.{CdnError, five_minute_bucket}
use qiniu_exporter.Cdn.Points.{follows, found, is_aligned, is_safe, latest_safe_index, scan_points}

abbrev pub IsPoint : Layout → Location → String × ℕ → Type 0
IsPoint layout location (raw, t) = parse_in_location layout location raw ≡ some t

-- The starts are what the raw points spell, one by one.
abbrev pub Spell : (String → Option ℕ) → List String → List ℕ → Type 0
Spell parse [] [] = Unit
Spell parse (raw ∷ rest) (t ∷ ts) = (parse raw ≡ some t) × Spell parse rest ts
Spell parse _ _ = ⊥

-- Each start is one bucket after the one before it.
abbrev pub Continuous : Option ℕ → List ℕ → Type 0
Continuous previous [] = Unit
Continuous previous (t ∷ ts) = (follows previous t ≡ true) × Continuous (some t) ts

-- Index i, counted from `from`, is that of the last start whose bucket ends by `safe_before`, or
-- where there is none the result is the index found before.
abbrev pub IsLastSafe : ℕ → ℕ → Option ℕ → List ℕ → Option ℕ → Type 0
IsLastSafe safe_before from before [] last = last ≡ before
IsLastSafe safe_before from before (t ∷ ts) last =
    IsLastSafe safe_before (suc from) (if is_safe safe_before t then some from else before) ts last

pub record IsAxis (layout : Layout) (location : Location) (raw : List String) (starts : List ℕ)
    : Type 0 where
  pub spelled : Spell (parse_in_location layout location) raw starts
  pub continuous : Continuous none starts
  pub aligned : All (λ t. is_aligned location t ≡ true) starts

module _ (parse : String → Option ℕ) (location : Location) (safe_before : ℕ) where
  -- What a scan from an index on gives, if it gives anything.
  abbrev Scanned :
      ℕ → Option ℕ → Option ℕ → List String → Result CdnError (Option ℕ × List ℕ) → Type 0
  Scanned i previous latest raw (err e) = Unit
  Scanned i previous latest raw (ok (last, starts)) =
      Spell parse raw starts
      × Continuous previous starts
      × All (λ t. is_aligned location t ≡ true) starts
      × IsLastSafe safe_before i latest starts last

  scan_points-Scanned :
      (i : ℕ) (previous latest : Option ℕ) (raw : List String)
      → Scanned i previous latest raw (scan_points parse location safe_before i previous latest raw)
  unfolding scan_points
  scan_points-Scanned i previous latest [] = (tt, tt, tt, refl)
  scan_points-Scanned i previous latest (raw ∷ rest) = elim (Option-cases (parse raw)) [
    | inl e ↦ ground arith
    | inr (t, e) ↦ ground (
      arith,
      scan_points-Scanned (suc i) (some t) (if is_safe safe_before t then some i else latest) rest,
    )
  ]

abbrev Unsafe : ℕ → List ℕ → Type 0
Unsafe safe_before = All (λ t. is_safe safe_before t ≡ false)

abbrev LastSafe : ℕ → ℕ → List ℕ → Option ℕ → Type 0
LastSafe safe_before from starts last =
    (j : ℕ) × (t : ℕ) × (last ≡ some (from + j))
    × (get_elem? starts j ≡ some t)
    × (is_safe safe_before t ≡ true)
    × Unsafe safe_before (drop (suc j) starts)

IsLastSafe-cases :
    (safe_before from : ℕ) (before : Option ℕ) (starts : List ℕ) (last : Option ℕ)
    → IsLastSafe safe_before from before starts last
    → ((last ≡ before) × Unsafe safe_before starts) ⊎ LastSafe safe_before from starts last
IsLastSafe-cases safe_before from before [] last h = inl (h, tt)
IsLastSafe-cases safe_before from before (t ∷ ts) last h =
    elim (IsLastSafe-cases safe_before (suc from) _ ts last h) [
      | inr (j, u, e, g, s, n) ↦ inr (suc j, u, e ∙ ap some (omega arith), g, s, n)
      | inl (e, n) ↦ elim (Bool-cases (is_safe safe_before t)) [
        | inl s ↦ inr (0, t, e ∙ rw s (ap some (omega arith)), refl, s, n)
        | inr u ↦ inl (e ∙ rw u, (u, n))
      ]
    ]

pub record IsSelection (layout : Layout) (location : Location) (safe_before : ℕ) (raw : List String)
    (i : ℕ) (starts : List ℕ) : Type 0 where
  pub axis : IsAxis layout location raw starts
  pub chosen : (t : ℕ) × (get_elem? starts i ≡ some t) × (t + five_minute_bucket ≤ safe_before)
  pub newest : All (λ t. safe_before < t + five_minute_bucket) (drop (suc i) starts)

Unsafe-late :
    (safe_before : ℕ) (ts : List ℕ)
    → Unsafe safe_before ts
    → All (λ t. safe_before < t + five_minute_bucket) ts
Unsafe-late safe_before ts h = All-imp (λ t p. ground arith) ts h

Scanned-IsSelection :
    (layout : Layout) (location : Location) (safe_before : ℕ) (raw : List String)
    (r : Result CdnError (Option ℕ × List ℕ)) {i : ℕ} {starts : List ℕ}
    → Scanned (parse_in_location layout location) location safe_before 0 none none raw r
    → (r >>= found) ≡ ok (i, starts)
    → IsSelection layout location safe_before raw i starts
Scanned-IsSelection layout location safe_before raw (err e) s h = cc
Scanned-IsSelection layout location safe_before raw (ok (none, ts)) s h = cc
Scanned-IsSelection layout location safe_before raw (ok (some k, ts)) {i = i} {starts = starts} s
      h =
    let same : ts ≡ starts = cc in
    let index : k ≡ i = cc in
    elim (IsLastSafe-cases safe_before 0 none ts (some k) s.3) [
      | inl (e, n) ↦ cc
      | inr (j, t, e, g, q, n) ↦
          let at_j : j ≡ i = ground arith in
          rw (← same, ← at_j)
            (record {
              axis = record { spelled = s.0; continuous = s.1; aligned = s.2 };
              chosen = (t, g, ground arith);
              newest = Unsafe-late safe_before (drop (suc j) ts) n;
            })
    ]

-- An index that `latestSafeIndex` returns comes with the whole axis: the raw points spell the starts
-- in the given layout, each start is on a five-minute mark and one bucket after the one before it,
-- the bucket at the index ends by `safe_before`, and no later bucket does.
pub latest_safe_index-IsSelection :
    (raw : List String) (layout : Layout) (safe_before : ℕ) (location : Location) {i : ℕ}
    {starts : List ℕ}
    → latest_safe_index raw layout safe_before (some location) ≡ ok (i, starts)
    → IsSelection layout location safe_before raw i starts
unfolding latest_safe_index
latest_safe_index-IsSelection [] layout safe_before location h = absurd (ground arith)
latest_safe_index-IsSelection (p ∷ ps) layout safe_before location h =
    Scanned-IsSelection layout location safe_before (p ∷ ps) _
      (scan_points-Scanned (parse_in_location layout location) location safe_before 0 none none
        (p ∷ ps))
      (ground arith)
