-- ===== src/Cache.antt =====
-- src/spice-channel-cache.h: the reference-counted image and palette cache of the display and
-- cursor channels. The hash table is `Base.Table`; a value is whatever the channel stores.
pub mod Refs
use spice_gtk.Base.Table.{Table, lookup, insert, remove}
use spice_gtk.Base.{
  ℕ, ◌+◌, ◌-◌, ◌%◌, ◌^◌, Bool, true, false, not, ◌||◌, Option, none, some, List, [], ◌∷◌, ◌==◌,
  if◌then◌else◌,
}

-- `display_cache_item`: `guint64 id`, `gboolean lossy`, `guint32 ref_count`
pub record Item : Type 0 where
  pub id : ℕ
  pub lossy : Bool
  pub ref_count : ℕ

-- `display_cache`
pub record Cache {ℓ} (V : Type ℓ) : Type ℓ where
  pub table : Table (Item × V)
  pub ref_counted : Bool

unfoldable pub cache_item_new : ℕ → Bool → Item
cache_item_new id lossy = record { id = id; lossy = lossy; ref_count = 1 }

module _ {ℓ} {V : Type ℓ} where
  unfoldable pub cache_find : Cache V → ℕ → Option V
  cache_find c id = elim (lookup id c.table) [ none ↦ none | some (i, v) ↦ some v ]

  -- The value, with what `*lossy` is set to.
  unfoldable pub cache_find_lossy : Cache V → ℕ → Option (V × Bool)
  cache_find_lossy c id = elim (lookup id c.table) [ none ↦ none | some (i, v) ↦ some (v, i.lossy) ]

  unfoldable pub cache_add_lossy : Cache V → ℕ → V → Bool → Cache V
  unfolding cache_item_new
  cache_add_lossy c id v lossy =
      let fresh = cache_item_new id lossy in
      let counted : Item = elim (lookup id c.table) [
        | none ↦ fresh
        | some (cur, _) ↦ record fresh { ref_count = (cur.ref_count + 1) % 2 ^ 32 }
      ] in
      record c { table = insert id (if c.ref_counted then counted else fresh, v) c.table }

  unfoldable pub cache_replace_lossy : Cache V → ℕ → V → Bool → Cache V
  unfolding cache_item_new
  cache_replace_lossy c id v lossy =
      let fresh = cache_item_new id lossy in
      let counted : Item = elim (lookup id c.table) [
        | none ↦ fresh
        | some (cur, _) ↦ record fresh { ref_count = cur.ref_count }
      ] in
      record c { table = insert id (if c.ref_counted then counted else fresh, v) c.table }

  unfoldable pub cache_add : Cache V → ℕ → V → Cache V
  unfolding cache_add_lossy
  cache_add c id v = cache_add_lossy c id v false

  -- `--item->ref_count` writes to the item in the table before the entry is dropped or kept.
  unfoldable pub cache_remove : Cache V → ℕ → Cache V × Bool
  cache_remove c id = elim (lookup id c.table) [
    | none ↦ (c, false)
    | some (item, v) ↦
        let left = (item.ref_count + 2 ^ 32 - 1) % 2 ^ 32 in
        let item' : Item = record item { ref_count = left } in
        if not c.ref_counted || left == 0
        then (record c { table = remove id c.table }, true)
        else (record c { table = insert id (item', v) c.table }, true)
  ]

  unfoldable pub cache_clear : Cache V → Cache V
  cache_clear c = record c { table = [] }

unfoldable pub cache_new {ℓ} : (V : Type ℓ) → Cache V
cache_new V = record { table = []; ref_counted = false }

unfoldable pub cache_image_new {ℓ} : (V : Type ℓ) → Cache V
cache_image_new V = record { table = []; ref_counted = true }
