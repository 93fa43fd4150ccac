-- ===== src/Cache/Refs.antt =====
-- The references that a counted cache keeps for each id, against a plain counter.
use spice_gtk.Base.Table.{lookup, lookup-insert, lookup-remove}
use Prim.Native.Nat.{max}
use spice_gtk.Base.{
  ℕ, suc, ◌+◌, ◌-◌, ◌<◌, ◌^◌, ◌≡◌, refl, ◌↔◌, Bool, true, Option, none, some, List, [], ◌∷◌, ◌==◌,
  if◌then◌else◌, arith, length, Option-cases, Bool-cases, ap, ◌∙◌, inl, inr, ◌%◌,
}
use spice_gtk.Cache.{Item, Cache, cache_find, cache_add_lossy, cache_replace_lossy, cache_remove}

-- The calls of a client of the cache.
pub data Op {ℓ} (V : Type ℓ) : Type ℓ where
  add replace : ℕ → V → Bool → Op V
  drop : ℕ → Op V

module _ {ℓ} {V : Type ℓ} where
  abbrev pub entry_refs : Option (Item × V) → ℕ
  entry_refs none = 0
  entry_refs (some (i, v)) = i.ref_count

  -- The references to `id`, 0 for an id that is not in the table.
  abbrev pub refs : Cache V → ℕ → ℕ
  refs c id = entry_refs (lookup id c.table)

  -- A counted cache whose every entry is referenced.
  pub record IsValid (c : Cache V) : Type ℓ where
    pub counted : c.ref_counted ≡ true
    pub positive : (id : ℕ) (e : Item × V) → lookup id c.table ≡ some e → 0 < e.0.ref_count

  pub refs-add :
      (c : Cache V) (id j : ℕ) (v : V) (lossy : Bool)
      → c.ref_counted ≡ true
      → refs c id + 1 < 2 ^ 32
      → refs (cache_add_lossy c id v lossy) j ≡ (if id == j then refs c id + 1 else refs c j)
  unfolding cache_add_lossy
  refs-add c id j v lossy r h = rw lookup-insert (ground arith)

  pub refs-remove :
      (c : Cache V) (id j : ℕ)
      → IsValid c
      → refs c id < 2 ^ 32
      → refs (cache_remove c id).0 j ≡ (if id == j then refs c id - 1 else refs c j)
  unfolding cache_remove
  refs-remove c id j w h = elim (Option-cases (lookup id c.table)) [
    | inl e ↦ ground (arith, e)
    | inr ((i, v), e) ↦ ground (
      arith,
      e,
      w.positive id (i, v) e,
      lookup-remove id j c.table,
      lookup-insert id j (record i { ref_count = (i.ref_count + 2 ^ 32 - 1) % 2 ^ 32 }, v) c.table,
    )
  ]

  pub refs-replace :
      (c : Cache V) (id j : ℕ) (v : V) (lossy : Bool)
      → c.ref_counted ≡ true
      → IsValid c
      → refs (cache_replace_lossy c id v lossy) j
        ≡ (if id == j then max 1 (refs c id) else refs c j)
  unfolding cache_replace_lossy
  refs-replace c id j v lossy r w = elim (Option-cases (lookup id c.table)) [
    | inl e ↦ rw lookup-insert (ground (arith, e))
    | inr (x, e) ↦ rw lookup-insert (ground (arith, e, w.positive id x e))
  ]

  add-IsValid :
      (c : Cache V) (id : ℕ) (v : V) (lossy : Bool)
      → IsValid c
      → refs c id + 1 < 2 ^ 32
      → IsValid (cache_add_lossy c id v lossy)
  unfolding cache_add_lossy
  add-IsValid c id v lossy w h = record {
    counted = w.counted;
    positive = λ j e p. let p' = rw lookup-insert at p in ground (arith, w.positive j e);
  }

  replace-IsValid :
      (c : Cache V) (id : ℕ) (v : V) (lossy : Bool)
      → IsValid c
      → IsValid (cache_replace_lossy c id v lossy)
  unfolding cache_replace_lossy
  replace-IsValid c id v lossy w = record {
    counted = w.counted;
    positive = λ j e p.
        let p' = rw lookup-insert at p in
        elim (Option-cases (lookup id c.table)) [
          | inl none_there ↦ ground (arith, none_there, w.positive j e)
          | inr (x, there) ↦ ground (arith, there, w.positive j e, w.positive id x there)
        ];
  }

  remove-IsValid : (c : Cache V) (id : ℕ) → IsValid c → IsValid (cache_remove c id).0
  unfolding cache_remove
  remove-IsValid c id w = elim (Option-cases (lookup id c.table)) [
    | inl e ↦ rw (e, cache_remove) w
    | inr ((i, v), e) ↦ elim (Bool-cases ((i.ref_count + 2 ^ 32 - 1) % 2 ^ 32 == 0)) [
      | inl last ↦
          rw (e, cache_remove)
            (rw (w.counted, last)
              (record {
                counted = refl;
                positive = λ j x p. ground (arith, lookup-remove id j c.table, w.positive j x);
              }))
      | inr more ↦
          rw (e, cache_remove)
            (rw (w.counted, more)
              (record {
                counted = refl;
                positive =
                    λ j x p. let p' = rw lookup-insert at p in ground (arith, w.positive j x);
              }))
    ]
  ]

  unfoldable pub step : Cache V → Op V → Cache V
  step c (add id v lossy) = cache_add_lossy c id v lossy
  step c (replace id v lossy) = cache_replace_lossy c id v lossy
  step c (drop id) = (cache_remove c id).0

  unfoldable pub run : Cache V → List (Op V) → Cache V
  unfolding step
  run c [] = c
  run c (o ∷ os) = run (step c o) os

  -- The specification: one counter, which the operations on id `j` move.
  unfoldable pub tally : ℕ → List (Op V) → ℕ → ℕ
  tally j [] n = n
  tally j (add id v lossy ∷ os) n = tally j os (if id == j then n + 1 else n)
  tally j (replace id v lossy ∷ os) n = tally j os (if id == j then max 1 n else n)
  tally j (drop id ∷ os) n = tally j os (if id == j then n - 1 else n)

  abbrev pub Room : Cache V → ℕ → Type 0
  Room c n = (j : ℕ) → refs c j + n < 2 ^ 32

  step-IsValid : (c : Cache V) (o : Op V) → IsValid c → Room c 1 → IsValid (step c o)
  unfolding step
  step-IsValid c (add id v lossy) w h = add-IsValid c id v lossy w (h id)
  step-IsValid c (replace id v lossy) w h = replace-IsValid c id v lossy w
  step-IsValid c (drop id) w h = remove-IsValid c id w

  step-Room : (c : Cache V) (o : Op V) (n : ℕ) → IsValid c → Room c (suc n) → Room (step c o) n
  unfolding step
  step-Room c (add id v lossy) n w h j =
      let bound = h id in
      ground (arith, refs-add c id j v lossy w.counted (ground (arith, bound)), h j, h id)
  step-Room c (replace id v lossy) n w h j =
      ground (arith, refs-replace c id j v lossy w.counted w, h j, h id)
  step-Room c (drop id) n w h j =
      let bound = h id in ground (arith, refs-remove c id j w (ground (arith, bound)), h j, h id)

  step-refs :
      (c : Cache V) (o : Op V) (os : List (Op V)) (j : ℕ)
      → IsValid c
      → Room c 1
      → tally j os (refs (step c o) j) ≡ tally j (o ∷ os) (refs c j)
  unfolding step tally
  step-refs c (add id v lossy) os j w h =
      ap (tally j os) (refs-add c id j v lossy w.counted (h id) ∙ ground arith)
  step-refs c (replace id v lossy) os j w h =
      ap (tally j os) (refs-replace c id j v lossy w.counted w ∙ ground arith)
  step-refs c (drop id) os j w h =
      ap (tally j os) (refs-remove c id j w (let b = h id in omega arith) ∙ ground arith)

  -- A run of additions, replacements and removals on a valid counted cache, short enough that no
  -- 32-bit counter overflows, leaves it valid, with for every id the references that a plain
  -- counter of the same operations has.
  pub refs-run :
      (os : List (Op V)) (c : Cache V)
      → IsValid c
      → Room c (length os)
      → IsValid (run c os) × ((j : ℕ) → refs (run c os) j ≡ tally j os (refs c j))
  unfolding run tally
  refs-run [] c w h = (w, λ j. refl)
  refs-run (o ∷ os) c w h =
      let room : Room c 1 = λ j. omega (arith, h j) in
      let rest = refs-run os (step c o) (step-IsValid c o w room) (step-Room c o (length os) w h) in
      (rest.0, λ j. rest.1 j ∙ step-refs c o os j w room)

  -- An id is found exactly while it is referenced.
  pub cache_find-iff_refs :
      (c : Cache V) (id : ℕ) → IsValid c → (cache_find c id ≡ none) ↔ (refs c id ≡ 0)
  unfolding cache_find
  cache_find-iff_refs c id w = elim (Option-cases (lookup id c.table)) [
    | inl e ↦ rw e (ground arith)
    | inr ((i, v), e) ↦ rw e (ground (arith, w.positive id (i, v) e))
  ]
