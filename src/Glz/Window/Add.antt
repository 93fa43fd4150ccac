-- ===== src/Glz/Window/Add.antt =====
-- Adding images to the window, closing the gap, and releasing what is no longer referred to.
use native.Mathlib.Nat.{mod-lt}
use native.Mathlib.Decide.{dec_lt}
use mathlib.Core.Path.{ap₂, subst₂}
use spice_gtk.Base.{
  subst, ℕ, zero, suc, ◌+◌, ◌-◌, ◌*◌, ◌%◌, ◌^◌, ◌≤◌, ◌<◌, ◌≡◌, ◌≢◌, refl, ap, sym, ◌∙◌, Bool, true,
  false, ◌&&◌, Option, none, some, List, get_or, set, length, length-set, get_or-set_self,
  get_or-set_ne, ◌==◌, leb, if◌then◌else◌, arith, Bool-cases, inl, inr,
}
use spice_gtk.Glz.{Image}
use spice_gtk.Glz.Window.{Window, slot, is_some, make_room, store, close_gap, add}
use spice_gtk.Glz.Window.Resize.{Placed, Placed-set, IsValid, match_id, find, resize-find}

pub slot-set :
    (xs : List (Option Image)) (n i j : ℕ) (o : Option Image)
    → length xs ≡ n
    → i < n
    → get_or (set xs i o) j none ≡ (if i == j then o else get_or xs j none)
slot-set xs n i j o l h = elim (Bool-cases (i == j)) [
  | inl e ↦
      let same : i ≡ j = ground arith in rw (e, ← same) (get_or-set_self xs i o none (omega arith))
  | inr e ↦ rw e (get_or-set_ne xs i j o none (λ q. ground arith))
]

store-find :
    (w : Window) (img : Image) (id : ℕ)
    → IsValid w
    → find (store w img) id
      ≡ (if img.id % w.nimages == id % w.nimages then match_id id (some img) else find w id)
unfolding store
store-find w img id v =
    ap (match_id id) (
      slot-set w.images w.nimages (img.id % w.nimages) (id % w.nimages) (some img) v.size
        (mod-lt img.id v.pos))
    ∙ ground arith

store-IsValid : (w : Window) (img : Image) → IsValid w → IsValid (store w img)
unfolding store
store-IsValid w img v = record {
  size = length-set w.images _ _ ∙ v.size;
  pos = v.pos;
  placed = Placed-set w.nimages 0 _ w.images (some img) v.placed (λ x e. ground arith);
}

-- The loop that closes the gap only moves `tail_gap`.
close_gap-images :
    (f id : ℕ) (w : Window)
    → ((close_gap f id w).images ≡ w.images)
      × ((close_gap f id w).nimages ≡ w.nimages)
      × ((close_gap f id w).oldest ≡ w.oldest)
unfolding close_gap
close_gap-images zero id w = (refl, refl, refl)
close_gap-images (suc f) id w =
    ground (arith, close_gap-images f id (record w { tail_gap = w.tail_gap + 1 }))

abbrev open_at : Window → ℕ → ℕ → Bool
open_at w id k = leb k id && is_some (slot w k)

passed-cons :
    (w : Window) (id t : ℕ)
    → open_at w id w.tail_gap ≡ true
    → ((k : ℕ) → w.tail_gap + 1 ≤ k → k < t → open_at w id k ≡ true)
    → (k : ℕ) → w.tail_gap ≤ k
    → k < t
    → open_at w id k ≡ true
passed-cons w id t more h k p q = elim (dec_lt w.tail_gap k) [
  | yes lt ↦ h k (omega arith) q
  | no ge ↦ let same : w.tail_gap ≡ k = omega arith in subst (λ i. open_at w id i ≡ true) same more
]

-- With the fuel that `add` gives, the loop ends by its own test: `tail_gap` does not fall, every
-- slot that it passed holds an image, and it stopped behind `id` or at an empty slot.
pub close_gap_lem :
    (f id : ℕ) (w : Window)
    → id + 1 - w.tail_gap ≤ f
    → let t = (close_gap f id w).tail_gap in
      (w.tail_gap ≤ t)
      × ((k : ℕ) → w.tail_gap ≤ k → k < t → open_at w id k ≡ true)
      × (open_at w id t ≡ false)
unfolding close_gap
close_gap_lem zero id w h = (omega arith, (λ k p q. absurd (omega arith)), ground arith)
close_gap_lem (suc f) id w h = elim (Bool-cases (open_at w id w.tail_gap)) [
  | inl more ↦
      let rest = close_gap_lem f id (record w { tail_gap = w.tail_gap + 1 }) (ground arith) in
      rw more (omega (arith, rest.0), passed-cons w id _ more rest.1, rest.2)
  | inr done ↦ rw done (omega arith, (λ k p q. absurd (omega arith)), done)
]

make_room-IsValid :
    (w : Window) (id : ℕ)
    → IsValid w
    → w.nimages * 2 < 2 ^ 32
    → IsValid (make_room w id) × ((i : ℕ) → find (make_room w id) i ≡ find w i)
unfolding make_room
make_room-IsValid w id v h = elim (Bool-cases (is_some (slot w id))) [
  | inl full ↦ let (a, b, c) = resize-find w v h in rw full (a, c)
  | inr free ↦ rw free (v, λ i. refl)
]

is_some-false {ℓ} : {A : Type ℓ} (o : Option A) → is_some o ≡ false → o ≡ none
is_some-false none h = refl
is_some-false (some a) h = cc

-- An id of another slot of the doubled window does not meet the new image.
make_room_apart :
    (w : Window) (img : Image) (id : ℕ)
    → IsValid w
    → w.nimages * 2 < 2 ^ 32
    → id % (w.nimages * 2) ≢ img.id % (w.nimages * 2)
    → let m = make_room w img.id in
      (if img.id % m.nimages == id % m.nimages then match_id id (some img) else find m id)
      ≡ find w id
unfolding make_room
make_room_apart w img id v h ne = elim (Bool-cases (is_some (slot w img.id))) [
  | inl full ↦ let (a, b, c) = resize-find w v h in rw full (ground (arith, b, c id))
  | inr free ↦ rw free (free_slot free)
]
  where
    free_slot :
        is_some (slot w img.id) ≡ false
        → (if img.id % w.nimages == id % w.nimages then match_id id (some img) else find w id)
          ≡ find w id
    free_slot free = elim (Bool-cases (img.id % w.nimages == id % w.nimages)) [
      | inl same ↦
          let e : img.id % w.nimages ≡ id % w.nimages = ground arith in
          let empty : slot w id ≡ none =
            ap (λ i. get_or w.images i none) (sym e) ∙ is_some-false (slot w img.id) free in
          let other : img.id ≢ id = λ q. ne (ap (λ i. i % (w.nimages * 2)) (sym q)) in
          rw (same, empty) (ground arith)
      | inr differ ↦ rw differ
    ]

-- What `store` and the closing of the gap do to a valid window with room for the image.
add_after :
    (m : Window) (img : Image) (f : ℕ)
    → IsValid m
    → let r = close_gap f img.id (store m img) in
      IsValid r
      × ((id : ℕ)
          → find r id
            ≡ (if img.id % m.nimages == id % m.nimages then match_id id (some img) else find m id))
add_after m img f v =
    let (e, n, o) = close_gap-images f img.id (store m img) in
    let s = store-IsValid m img v in
    (
      record {
        size = ap length e ∙ s.size ∙ sym n;
        pos = subst (λ k. 0 < k) (sym n) s.pos;
        placed = subst₂ (λ k xs. Placed k 0 xs) (sym n) (sym e) s.placed;
      },
      λ id. ap₂ (λ k xs. match_id id (get_or xs (id % k) none)) n e ∙ store-find m img id v,
    )

-- Adding an image to a valid window keeps it valid; the image is then found under its id, and so
-- is every image found before whose id differs from the new one modulo twice the slots.
pub add-find :
    (w : Window) (img : Image)
    → IsValid w
    → w.nimages * 2 < 2 ^ 32
    → IsValid (add w img)
      × (find (add w img) img.id ≡ some img)
      × ((id : ℕ)
          → id % (w.nimages * 2) ≢ img.id % (w.nimages * 2)
          → find (add w img) id ≡ find w id)
unfolding add
add-find w img v h =
    let (mv, mf) = make_room-IsValid w img.id v h in
    let (a, b) = add_after (make_room w img.id) img _ mv in
    (a, b img.id ∙ ground arith, λ id ne. b id ∙ make_room_apart w img id v h ne)

make_room-oldest : (w : Window) (id : ℕ) → (make_room w id).oldest ≡ w.oldest
unfolding make_room
make_room-oldest w id = ground arith

pub add-oldest : (w : Window) (img : Image) → (add w img).oldest ≡ w.oldest
unfolding add store
add-oldest w img =
    (close_gap-images _ img.id (store (make_room w img.id) img)).2 ∙ make_room-oldest w img.id
