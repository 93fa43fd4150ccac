-- ===== src/Glz/Window/Resize.antt =====
-- Growing the window moves every image to the slot of its id, and loses none.
use native.Mathlib.Nat.{mod-mod_of_dvd, dvd-mul_right, mod-lt}
use mathlib.Core.Path.{ap₂}
use spice_gtk.Base.{
  sym, ℕ, zero, suc, ◌+◌, ◌-◌, ◌*◌, ◌%◌, ◌^◌, ◌<◌, ◌≡◌, refl, ap, ◌∙◌, Option, none, some, List, [],
  ◌∷◌, get_or, set, take, replicate, length, length-set, length-replicate, get_or-replicate,
  get_or-set_self, get_or-set_ne, ◌==◌, leb, if◌then◌else◌, arith, Bool-cases, inl, inr,
}
use spice_gtk.Glz.{Image}
use spice_gtk.Glz.Window.{Window, slot, move, resize}

-- Every image of `xs`, the array of `n` slots from slot `k` on, stands in the slot of its id.
abbrev pub Placed : ℕ → ℕ → List (Option Image) → Type 0
Placed n k [] = Unit {0}
Placed n k (none ∷ xs) = Placed n (suc k) xs
Placed n k (some img ∷ xs) = (img.id % n ≡ k) × Placed n (suc k) xs

pub record IsValid (w : Window) : Type 0 where
  pub size : length w.images ≡ w.nimages
  pub pos : 0 < w.nimages
  pub placed : Placed w.nimages 0 w.images

-- The image with this id, if the window holds it.
abbrev pub match_id : ℕ → Option Image → Option Image
match_id id none = none
match_id id (some img) = if img.id == id then some img else none

abbrev pub find : Window → ℕ → Option Image
find w id = match_id id (slot w id)

pub mod-double : (x n : ℕ) → x % (n * 2) % n ≡ x % n
mod-double x n = mod-mod_of_dvd n x (dvd-mul_right n 2)

-- What slot `s` of the new array takes from the old slot of the same residue.
pick : ℕ → ℕ → Option Image → Option Image → Option Image
pick m s none d = d
pick m s (some img) d = if img.id % m == s then some img else d

from_slot : ℕ → ℕ → List (Option Image) → Option Image
from_slot k r xs = if leb k r then get_or xs (r - k) none else none

get_or-cons :
    (x : Option Image) (xs : List (Option Image)) (i : ℕ)
    → get_or (x ∷ xs) i none ≡ (if i == 0 then x else get_or xs (i - 1) none)
get_or-cons x xs zero = refl
get_or-cons x xs (suc i) =
    let e : i ≡ suc i - 1 = omega arith in ground (arith, ap (λ k. get_or xs k none) e)

from_slot-cons :
    (k r : ℕ) (x : Option Image) (xs : List (Option Image))
    → from_slot k r (x ∷ xs) ≡ (if k == r then x else from_slot (suc k) r xs)
unfolding from_slot
from_slot-cons k r x xs =
    let shift : r - k - 1 ≡ r - suc k = omega arith in
    ground (arith, get_or-cons x xs (r - k), ap (λ i. get_or xs i none) shift)

from_slot_above : (k r : ℕ) (xs : List (Option Image)) → r < k → from_slot k r xs ≡ none
unfolding from_slot
from_slot_above k r xs h = ground arith

from_slot-nil : (k r : ℕ) → from_slot k r [] ≡ none
unfolding from_slot
from_slot-nil k r = ground arith

from_slot-none :
    (k r : ℕ) (xs : List (Option Image)) → from_slot (suc k) r xs ≡ from_slot k r (none ∷ xs)
from_slot-none k r xs = ground (arith, from_slot-cons k r none xs, from_slot_above (suc k) r xs)

module _ (n m s : ℕ) (e : m ≡ n * 2) (s_lt : s < m) where
  -- An image of another slot leaves slot `s` alone; the one of residue `s % n` goes there or not.
  move-cons :
      (k : ℕ) (img : Image) (xs new : List (Option Image))
      → img.id % n ≡ k
      → length new ≡ m
      → pick m s (from_slot (suc k) (s % n) xs) (get_or (set new (img.id % m) (some img)) s none)
        ≡ pick m s (from_slot k (s % n) (some img ∷ xs)) (get_or new s none)
  unfolding pick
  move-cons k img xs new p l = elim (Bool-cases (k == s % n)) [
    | inl same ↦
        rw (from_slot-cons, same)
          (ground (
            arith,
            from_slot_above (suc k) (s % n) xs,
            get_or-set_self new (img.id % m) (some img) none,
            get_or-set_ne new (img.id % m) s (some img) none,
          ))
    | inr other ↦
        rw (from_slot-cons, other)
          (ap (pick m s (from_slot (suc k) (s % n) xs)) (
            get_or-set_ne new (img.id % m) s (some img) none (λ q.
              let q' : img.id % n ≡ s % n =
                sym (mod-double img.id n) ∙ ap (λ i. img.id % i % n) (sym e) ∙ ap (λ i. i % n) q in
              ground arith)))
  ]

  move-get :
      (k : ℕ) (xs new : List (Option Image))
      → Placed n k xs
      → length new ≡ m
      → get_or (move m xs new) s none ≡ pick m s (from_slot k (s % n) xs) (get_or new s none)
  unfolding move pick
  move-get k [] new p l = rw (from_slot-nil k (s % n))
  move-get k (none ∷ xs) new p l =
      move-get (suc k) xs new p l
      ∙ ap (λ o. pick m s o (get_or new s none)) (from_slot-none k (s % n) xs)
  move-get k (some img ∷ xs) new p l =
      move-get (suc k) xs (set new (img.id % m) (some img)) p.1 (length-set new _ _ ∙ l)
      ∙ move-cons k img xs new p.0 l

length-move : (m : ℕ) (xs new : List (Option Image)) → length new ≡ m → length (move m xs new) ≡ m
unfolding move
length-move m [] new l = l
length-move m (none ∷ xs) new l = length-move m xs new l
length-move m (some img ∷ xs) new l =
    length-move m xs (set new (img.id % m) (some img)) (length-set new _ _ ∙ l)

-- Slots hold images of their residue, whatever else is in the array.
Placed-get :
    (n k i : ℕ) (xs : List (Option Image)) (img : Image)
    → Placed n k xs
    → get_or xs i none ≡ some img
    → img.id % n ≡ k + i
Placed-get n k i [] img p h = cc
Placed-get n k zero (none ∷ xs) img p h = cc
Placed-get n k zero (some x ∷ xs) img p h = ground arith
Placed-get n k (suc i) (none ∷ xs) img p h = omega (arith, Placed-get n (suc k) i xs img p h)
Placed-get n k (suc i) (some x ∷ xs) img p h = omega (arith, Placed-get n (suc k) i xs img p.1 h)

pub Placed-set :
    (n k i : ℕ) (xs : List (Option Image)) (o : Option Image)
    → Placed n k xs
    → ((img : Image) → o ≡ some img → img.id % n ≡ k + i)
    → Placed n k (set xs i o)
Placed-set n k i [] o p h = tt
Placed-set n k zero (none ∷ xs) none p h = p
Placed-set n k zero (none ∷ xs) (some y) p h = (omega (arith, h y refl), p)
Placed-set n k zero (some x ∷ xs) none p h = p.1
Placed-set n k zero (some x ∷ xs) (some y) p h = (omega (arith, h y refl), p.1)
Placed-set n k (suc i) (none ∷ xs) o p h =
    Placed-set n (suc k) i xs o p (λ img e. omega (arith, h img e))
Placed-set n k (suc i) (some x ∷ xs) o p h =
    (p.0, Placed-set n (suc k) i xs o p.1 (λ img e. omega (arith, h img e)))

Placed-replicate : (n k c : ℕ) → Placed n k (replicate c none)
unfolding replicate
Placed-replicate n k zero = tt
Placed-replicate n k (suc c) = Placed-replicate n (suc k) c

Placed-move : (m : ℕ) (xs new : List (Option Image)) → Placed m 0 new → Placed m 0 (move m xs new)
unfolding move
Placed-move m [] new p = p
Placed-move m (none ∷ xs) new p = Placed-move m xs new p
Placed-move m (some x ∷ xs) new p =
    Placed-move m xs (set new (x.id % m) (some x))
      (Placed-set m 0 (x.id % m) new (some x) p (λ img e. ground arith))

take-all {ℓ} : {A : Type ℓ} (xs : List A) → take (length xs) xs ≡ xs
take-all [] = refl
take-all (x ∷ xs) = ap (◌∷◌ x) (take-all xs)

match_id-pick : (m id : ℕ) (o : Option Image) → match_id id (pick m (id % m) o none) ≡ match_id id o
unfolding pick
match_id-pick m id none = refl
match_id-pick m id (some img) = elim (Bool-cases (img.id == id)) [
  | inl e ↦ let same : img.id ≡ id = ground arith in ground (arith, ap (λ i. i % m) same)
  | inr e ↦ ground arith
]

from_slot-zero : (r q : ℕ) (xs : List (Option Image)) → r ≡ q → from_slot 0 r xs ≡ get_or xs q none
unfolding from_slot
from_slot-zero r q xs e =
    let e' : r - 0 ≡ q = omega arith in ground (arith, ap (λ i. get_or xs i none) e')

-- `resize` where the doubling does not wrap.
grown : Window → Window
grown w = record w {
  images = move (w.nimages * 2) w.images (replicate (w.nimages * 2) none);
  nimages = w.nimages * 2;
}

resize-grown :
    (w : Window) → length w.images ≡ w.nimages → w.nimages * 2 < 2 ^ 32 → resize w ≡ grown w
unfolding resize grown
resize-grown w l h =
    let n : w.nimages * 2 % 2 ^ 32 ≡ w.nimages * 2 = omega arith in
    let all : take w.nimages w.images ≡ w.images =
      ap (λ k. take k w.images) (sym l) ∙ take-all w.images in
    rw (n, all)

grown-IsValid : (w : Window) → IsValid w → IsValid (grown w)
unfolding grown
grown-IsValid w v = record {
  size = length-move (w.nimages * 2) w.images _ (length-replicate _ none);
  pos = let p = v.pos in omega arith;
  placed = Placed-move (w.nimages * 2) w.images _ (Placed-replicate _ 0 _);
}

find-grown : (w : Window) (id : ℕ) → IsValid w → find (grown w) id ≡ find w id
unfolding grown
find-grown w id v =
    ap (match_id id) (
      move-get n m (id % m) refl (mod-lt id (omega arith)) 0 w.images _ v.placed
        (length-replicate m none)
      ∙ ap₂ (pick m (id % m)) (from_slot-zero _ _ w.images (mod-double id n))
          (get_or-replicate m (id % m) none))
    ∙ match_id-pick m id (slot w id)
  where
    n : ℕ
    n = w.nimages

    m : ℕ
    m = w.nimages * 2

-- Growing a valid window keeps it valid and doubles its slots, and each id finds what it found
-- before: no image is lost, whatever order the images came in.
pub resize-find :
    (w : Window)
    → IsValid w
    → w.nimages * 2 < 2 ^ 32
    → IsValid (resize w)
      × ((resize w).nimages ≡ w.nimages * 2)
      × ((id : ℕ) → find (resize w) id ≡ find w id)
unfolding grown
resize-find w v h = rw (resize-grown w v.size h) (grown-IsValid w v, refl, λ id. find-grown w id v)
