-- ===== src/Tests/CacheTests.antt =====
-- src/spice-channel-cache.h at a small image cache.
use spice_gtk.Base.{ℕ, ◌≡◌, refl, true, false, List, [], ◌∷◌, arith}
use spice_gtk.Base.Table.{lookup}
use spice_gtk.Cache.{Cache}
use spice_gtk.Cache.Refs.{IsValid, Op, add, replace, drop, run, tally, refs, refs-run}

-- Image 7 is referenced twice.
abbrev two_refs : Cache ℕ
two_refs = record {
  table = (7, (record { id = 7; lossy = false; ref_count = 2 }, 40)) ∷ [];
  ref_counted = true;
}

abbrev script : List (Op ℕ)
script = add 9 50 false ∷ drop 7 ∷ replace 7 41 true ∷ add 7 42 false ∷ drop 9 ∷ []

two_refs-IsValid : IsValid two_refs
unfolding lookup
two_refs-IsValid = record { counted = refl; positive = λ id e p. ground arith }

refs-run_example :
    IsValid (run two_refs script)
    × ((j : ℕ) → refs (run two_refs script) j ≡ tally j script (refs two_refs j))
unfolding lookup
refs-run_example = refs-run script two_refs two_refs-IsValid (λ j. ground arith)
