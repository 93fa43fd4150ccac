-- ===== src/Glz/Stream/Run.antt =====
-- The run shortcut of the copy loop, and references that leave another image.
use spice_gtk.Base.{
  ℕ, zero, suc, ◌+◌, ◌≤◌, ◌<◌, ◌≡◌, ◌≢◌, refl, ap, sym, ◌∙◌, true, false, some, List, [], ◌∷◌,
  length, get_elem?, set, leb, ◌&&◌, drop, ◌==◌, arith, Bool-cases, Option-cases, inl, inr,
  get_elem?-set_self, get_elem?-lt, get_elem?-ne-none, length-set, length-drop,
}
use spice_gtk.Glz.{Pixel, Image}
use spice_gtk.Glz.Window.{bits, slot, back_ref}
use spice_gtk.Glz.Format.{ref_end}
use spice_gtk.Glz.Format.Laws.{IsFormat}
use spice_gtk.Glz.Stream.{
  Job, State, ok, fault, M, bind, write, in_limit, put, run_copy, ref_copy, copy_match, Source,
  inside, outside, is_run, Match, find_source,
}

module _ (j : Job) (fmt : IsFormat j.format) where
  -- Two pixels that write the same over any pixel are copied alike.
  abbrev SameWrite : Pixel → Pixel → Type 0
  SameWrite p q = (x : Pixel) → j.format.over x p ≡ j.format.over x q

  write-same : (p q : Pixel) (s : State) → SameWrite p q → write j p s ≡ write j q s
  unfolding write
  write-same p q s h = elim (Option-cases (get_elem? s.out s.op)) [
    | inl e ↦ rw (e, write)
    | inr (old, e) ↦
        rw (e, write) (ap (λ v. ok tt (record s { out = set s.out s.op v; op = s.op + 1 })) (h old))
  ]

  put-same : (p q : Pixel) (s : State) → SameWrite p q → put j p s ≡ put j q s
  unfolding put
  put-same p q s h = ap (λ x. bind x (λ _. in_limit j)) (write-same p q s h)

  -- What follows a write need only agree in the state that the write leaves.
  put-cong :
      (p : Pixel) (s : State) (f g : M (Unit {0}))
      → ((old : Pixel)
          → get_elem? s.out s.op ≡ some old
          → let t : State = record s {
            out = set s.out s.op (j.format.over old p);
            op = s.op + 1;
          } in
            f t ≡ g t)
      → bind (put j p s) (λ _. f) ≡ bind (put j p s) (λ _. g)
  unfolding put write in_limit
  put-cong p s f g h = elim (Option-cases (get_elem? s.out s.op)) [
    | inl e ↦ rw (e, put, write)
    | inr (old, e) ↦ elim (Bool-cases (leb (s.op + 1) j.size)) [
      | inl fits ↦ let k = h old e in rw (e, put, write) (rw fits k)
      | inr stop ↦ rw (e, put, write) (rw stop)
    ]
  ]

  -- Each step of the copy along `r + 1 ≡ op` reads the pixel that the step before wrote.
  ref_copy-eq-run_copy :
      (n r : ℕ) (p q : Pixel) (s : State)
      → get_elem? s.out r ≡ some q
      → SameWrite q p
      → r + 1 ≡ s.op
      → ref_copy j n (inside r) s ≡ run_copy j n p s
  unfolding ref_copy run_copy
  ref_copy-eq-run_copy zero r p q s e h o = refl
  ref_copy-eq-run_copy (suc n) r p q s e h o =
      rw (e, ref_copy)
        (ap (λ x. bind x (λ _. ref_copy j n (inside (r + 1)))) (put-same q p s h)
          ∙ put-cong p s (ref_copy j n (inside (r + 1))) (run_copy j n p) λ old e'.
            ref_copy-eq-run_copy n (r + 1) p (j.format.over old p) _
              (ap (get_elem? _) o
                ∙ get_elem?-set_self s.out s.op _ (get_elem?-lt s.out s.op old e'))
              (λ x. fmt.over_again x old p) (ap (λ i. i + 1) o))

  -- The shortcut for runs changes nothing: copying a match is copying pixel by pixel from the
  -- source, each read after the writes before it.
  pub copy_match-eq-ref_copy :
      (n : ℕ) (src : Source) (s : State)
      → s.op ≤ length s.out
      → copy_match j n src s ≡ ref_copy j n src s
  unfolding copy_match
  copy_match-eq-ref_copy n (outside ps) s h = refl
  copy_match-eq-ref_copy n (inside r) s h = elim (Bool-cases (is_run (inside r) s.op)) [
    | inr e ↦ rw e
    | inl e ↦ elim (Option-cases (get_elem? s.out r)) [
      | inl q ↦ absurd (get_elem?-ne-none s.out r (ground arith) q)
      | inr (p, q) ↦
          rw e
            (rw (q, copy_match) (sym (ref_copy-eq-run_copy n r p p s q (λ x. refl) (ground arith))))
    ]
  ]

  put-ok :
      (p : Pixel) (s : State)
      → s.op + 1 ≤ j.size
      → j.size ≤ length s.out
      → (t : State) × (put j p s ≡ ok tt t) × (t.op ≡ s.op + 1) × (length t.out ≡ length s.out)
  unfolding put write in_limit
  put-ok p s a b = elim (Option-cases (get_elem? s.out s.op)) [
    | inl e ↦ absurd (get_elem?-ne-none s.out s.op (omega arith) e)
    | inr (old, e) ↦
        let fits : leb (s.op + 1) j.size ≡ true = ground arith in
        (
          record s { out = set s.out s.op (j.format.over old p); op = s.op + 1 },
          rw (e, put, write) (rw fits),
          refl,
          length-set s.out s.op _,
        )
  ]

  -- Copying more pixels than the source has runs past its end, once the output has room.
  ref_copy-ref_end :
      (n : ℕ) (ps : List Pixel) (s : State)
      → length ps < n
      → s.op + n ≤ j.size
      → j.size ≤ length s.out
      → ref_copy j n (outside ps) s ≡ fault ref_end
  unfolding ref_copy
  ref_copy-ref_end zero ps s h a b = absurd (omega arith)
  ref_copy-ref_end (suc n) [] s h a b = refl
  ref_copy-ref_end (suc n) (p ∷ ps) s h a b =
      let (t, e, o, l) = put-ok p s (omega arith) b in
      rw e (ref_copy-ref_end n ps t (omega arith) (omega arith) (omega arith))

  -- The checks on a reference to another image do not bound its length: one that starts inside the
  -- held image and ends behind it passes them all, and the copy reads past the image's pixels.
  pub overread :
      (m : Match) (img : Image) (s : State)
      → m.dist ≢ 0
      → let w = j.wait (back_ref j.image_id m.dist) s.window in
        slot w (back_ref j.image_id m.dist) ≡ some img
        → img.id ≡ back_ref j.image_id m.dist
        → length img.pixels ≡ img.gross_pixels
        → m.ofs ≤ img.gross_pixels
        → img.gross_pixels < m.ofs + m.len
        → s.op + m.len ≤ j.size
        → j.size ≤ length s.out
        → bind (find_source j m s) (copy_match j m.len) ≡ fault ref_end
  unfolding find_source bits copy_match
  overread m img s d held same size start over room out =
      let remote : (m.dist == 0) ≡ false = ground arith in
      let accepted : (img.id == back_ref j.image_id m.dist && leb m.ofs img.gross_pixels) ≡ true =
        ground arith in
      rw remote (
        rw (held, bits)
          (rw accepted (
            ref_copy-ref_end m.len (drop m.ofs img.pixels) _
              (let l = length-drop m.ofs img.pixels in omega arith) room out)))
