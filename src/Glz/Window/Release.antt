-- ===== src/Glz/Window/Release.antt =====
-- Releasing the images that nothing refers to any more.
use native.Mathlib.Nat.{mod-lt, mod-eq_of_lt, mod-add-mod, mod-eq-sub-mod}
use native.Mathlib.Decide.{dec_lt}
use spice_gtk.Base.{
  ℕ, zero, suc, ◌+◌, ◌-◌, ◌%◌, ◌≤◌, ◌<◌, ◌≡◌, ◌≢◌, refl, ap, sym, ◌∙◌, none, some, List, [], ◌∷◌,
  set, length-set, ◌==◌, ltb, if◌then◌else◌, arith, Bool-cases, Option-cases, inl, inr,
}
use spice_gtk.Glz.{Image}
use spice_gtk.Glz.Window.{Window, add, release_loop, release, clear}
use spice_gtk.Glz.Window.Resize.{Placed-set, IsValid, match_id, find}
use spice_gtk.Glz.Window.Add.{slot-set, add-oldest}

-- Ids less than one turn of the window apart share a slot only if they are one.
mod_window : (a d n : ℕ) → d < n → (a + d) % n ≡ a % n → d ≡ 0
mod_window a d n h e = elim (dec_lt (a % n + d) n) [
  | yes p ↦ omega (arith, mod-add-mod a n d, mod-eq_of_lt p)
  | no p ↦ omega (
    arith,
    mod-lt a {m = n} (omega arith),
    mod-add-mod a n d,
    mod-eq-sub-mod {n = a % n + d} {m = n} (omega arith),
    mod-eq_of_lt {n = a % n + d - n} {m = n}
        (let l = mod-lt a {m = n} (omega arith) in omega arith),
  )
]

-- The held images lie within one turn of the window from `oldest` on.
abbrev pub IsDense : Window → Type 0
IsDense w =
    (id : ℕ) (img : Image) → find w id ≡ some img → (w.oldest ≤ id) × (id < w.oldest + w.nimages)

-- One round of the loop.
drop_oldest : Window → Window
drop_oldest w = record w {
  images = set w.images (w.oldest % w.nimages) none;
  oldest = w.oldest + 1;
}

drop_oldest-IsValid : (w : Window) → IsValid w → IsValid (drop_oldest w)
unfolding drop_oldest
drop_oldest-IsValid w v = record {
  size = length-set w.images _ _ ∙ v.size;
  pos = v.pos;
  placed = Placed-set w.nimages 0 _ w.images none v.placed (λ x e. cc);
}

find-drop_oldest :
    (w : Window) (id : ℕ)
    → IsValid w
    → IsDense w
    → find (drop_oldest w) id ≡ (if id == w.oldest then none else find w id)
unfolding drop_oldest
find-drop_oldest w id v d =
    ap (match_id id) (
      slot-set w.images w.nimages (w.oldest % w.nimages) (id % w.nimages) none v.size
        (mod-lt w.oldest v.pos))
    ∙ elim (Bool-cases (w.oldest % w.nimages == id % w.nimages)) [
      | inl same ↦ rw same (gone (ground arith))
      | inr differ ↦ rw differ (kept (λ e. let e' = ap (λ i. i % w.nimages) e in ground arith))
    ]
  where
    kept : (id ≢ w.oldest) → find w id ≡ (if id == w.oldest then none else find w id)
    kept ne = ground arith

    gone :
        w.oldest % w.nimages ≡ id % w.nimages → none ≡ (if id == w.oldest then none else find w id)
    gone e = elim (Option-cases (find w id)) [
      | inl absent ↦ ground arith
      | inr (img, here) ↦
          let (lo, hi) = d id img here in
          let split : w.oldest + (id - w.oldest) ≡ id = omega arith in
          let zero_apart =
            mod_window w.oldest (id - w.oldest) w.nimages (omega arith)
              (ap (λ i. i % w.nimages) split ∙ sym e) in
          let same : id ≡ w.oldest = omega arith in ground arith
    ]

drop_oldest-IsDense : (w : Window) → IsValid w → IsDense w → IsDense (drop_oldest w)
unfolding drop_oldest
drop_oldest-IsDense w v d id img h =
    let h' = sym (find-drop_oldest w id v d) ∙ h in
    elim (Bool-cases (id == w.oldest)) [
      | inl e ↦ cc (rw e at h')
      | inr e ↦ let (lo, hi) = d id img (rw e at h') in ground arith
    ]

release_loop_lem :
    (c : ℕ) (w : Window)
    → IsValid w
    → IsDense w
    → IsValid (release_loop c w)
      × IsDense (release_loop c w)
      × ((release_loop c w).oldest ≡ w.oldest + c)
      × ((id : ℕ)
          → find (release_loop c w) id ≡ (if ltb id (w.oldest + c) then none else find w id))
unfolding release_loop drop_oldest
release_loop_lem zero w v d = (v, d, omega arith, all)
  where
    all : (id : ℕ) → find w id ≡ (if ltb id (w.oldest + zero) then none else find w id)
    all id = elim (Option-cases (find w id)) [
      | inl e ↦ rw e (ground arith)
      | inr (img, e) ↦ let (lo, hi) = d id img e in ground arith
    ]
release_loop_lem (suc c) w v d =
    let (a, b, o, all) =
      release_loop_lem c (drop_oldest w) (drop_oldest-IsValid w v) (drop_oldest-IsDense w v d) in
    (a, b, o ∙ shift, λ id. all id ∙ both id)
  where
    shift : (drop_oldest w).oldest + c ≡ w.oldest + suc c
    shift = omega arith

    both :
        (id : ℕ)
        → (if ltb id ((drop_oldest w).oldest + c) then none else find (drop_oldest w) id)
          ≡ (if ltb id (w.oldest + suc c) then none else find w id)
    both id = ground (arith, shift, find-drop_oldest w id v d)

-- Releasing up to `oldest` keeps a valid and dense window so, drops every image with a smaller id
-- and keeps every other.
pub release-find :
    (w : Window) (oldest : ℕ)
    → IsValid w
    → IsDense w
    → IsValid (release w oldest)
      × IsDense (release w oldest)
      × ((id : ℕ) → find (release w oldest) id ≡ (if ltb id oldest then none else find w id))
unfolding release
release-find w oldest v d =
    let (a, b, o, all) = release_loop_lem (oldest - w.oldest) w v d in
    (a, b, λ id. all id ∙ upto id)
  where
    upto :
        (id : ℕ)
        → (if ltb id (w.oldest + (oldest - w.oldest)) then none else find w id)
          ≡ (if ltb id oldest then none else find w id)
    upto id = elim (Option-cases (find w id)) [
      | inl e ↦ rw e (ground arith)
      | inr (img, e) ↦ let (lo, hi) = d id img e in ground arith
    ]

unfoldable pub add_all : Window → List Image → Window
add_all w [] = w
add_all w (img ∷ imgs) = add_all (add w img) imgs

add_all-oldest : (w : Window) (imgs : List Image) → (add_all w imgs).oldest ≡ w.oldest
unfolding add_all
add_all-oldest w [] = refl
add_all-oldest w (img ∷ imgs) = add_all-oldest (add w img) imgs ∙ add-oldest w img

release_none : (w : Window) (oldest : ℕ) → oldest ≤ w.oldest → release w oldest ≡ w
unfolding release release_loop
release_none w oldest h =
    let none_due : oldest - w.oldest ≡ 0 = omega arith in ap (λ c. release_loop c w) none_due

-- Clearing a window does not reset `oldest`: whatever images are added afterwards, a release of
-- ids up to the old value frees none of them.
pub clear-release_none :
    (w : Window) (imgs : List Image) (oldest : ℕ)
    → oldest ≤ w.oldest
    → release (add_all (clear w) imgs) oldest ≡ add_all (clear w) imgs
unfolding clear
clear-release_none w imgs oldest h =
    let same = add_all-oldest (clear w) imgs in
    release_none (add_all (clear w) imgs) oldest (omega (arith, same))
