-- ===== src/Snapshot/Examples.antt =====
-- The theorems on snapshots at concrete inputs.
use qiniu_exporter.Base.{
  List, [], arith, false, if◌then◌else◌, none, not, refl, some, str_eq, true, ℕ, ◌&&◌, ◌+◌, ◌∷◌,
  ◌≡◌,
}
use qiniu_exporter.Base.Int.{pos}
use qiniu_exporter.Base.Keys.{contains, lookup}
use qiniu_exporter.Base.Time.{zero_time}
use qiniu_exporter.Snapshot.{
  Meta, ResourceStore, clear, has_value, load, load_whole, publish, publish_whole, retain, stale,
}
use qiniu_exporter.Snapshot.Lifetime.{load_whole-publish_whole, stale_mono}
use qiniu_exporter.Snapshot.Reads.{lookup-load-publish, lookup-load-retain}
use qiniu_exporter.Snapshot.Scope.{
  Call, IsWellFormed, empty, publishes, retain_drops, retains, run, run-IsWellFormed,
}

abbrev frozen : Meta
frozen = record { collected_at = zero_time + 900; data_at = zero_time + 100; stale_after = pos 500 }

stale_mono_example : stale (zero_time + 700) frozen ≡ true
stale_mono_example =
    stale_mono (zero_time + 601) (zero_time + 700) frozen (omega arith) (unfold stale in refl)

load_whole-publish_whole_example :
    (load_whole {A = ℕ} 0 (publish_whole none 7 frozen) (zero_time + 601)
      ≡ (if stale (zero_time + 601) frozen then (0, frozen, false) else (7, frozen, true)))
    × ((load_whole {A = ℕ} 0 (clear (publish_whole none 7 frozen)) (zero_time + 601)).2 ≡ false)
    × (has_value (clear (publish_whole {A = ℕ} none 7 frozen)) ≡ false)
load_whole-publish_whole_example = load_whole-publish_whole 0 none 7 frozen (zero_time + 601)

abbrev two_calls : List (Call ℕ)
two_calls = publishes "a" 1 frozen ∷ retains ("a" ∷ "b" ∷ []) ∷ []

run-IsWellFormed_example : IsWellFormed (run empty two_calls)
run-IsWellFormed_example = run-IsWellFormed two_calls

retain_drops_example :
    lookup "a"
      (load (run (retain (run empty two_calls) ("b" ∷ [])) (publishes "a" 2 frozen ∷ [])) 0)
    ≡ none
retain_drops_example =
    retain_drops two_calls (publishes "a" 2 frozen ∷ []) ("b" ∷ []) "a" 0 refl (refl, tt)

abbrev store : ResourceStore ℕ
store = run empty two_calls

lookup-load-publish_example : lookup "b" (load (publish store "b" 3 frozen) (zero_time + 600)) ≡ (
    if str_eq "b" "b" && not (store.managed && not (contains "b" store.active))
    then (if stale (zero_time + 600) frozen
        then none
        else some (record { payload = 3; meta = frozen }))
    else lookup "b" (load store (zero_time + 600)))
lookup-load-publish_example =
    lookup-load-publish store (run-IsWellFormed two_calls) (zero_time + 600) "b" "b" 3 frozen

lookup-load-retain_example :
    lookup "a" (load (retain store ("b" ∷ [])) 0)
    ≡ (if contains "a" ("b" ∷ []) then lookup "a" (load store 0) else none)
lookup-load-retain_example = lookup-load-retain store (run-IsWellFormed two_calls) 0 ("b" ∷ []) "a"
