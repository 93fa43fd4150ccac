-- ===== src/Glz/Stream/Literal.antt =====
-- Literal runs: what an encoder that finds no match writes is decoded to the same pixels.
use spice_gtk.Base.{
  ℕ, zero, suc, ◌+◌, ◌*◌, ◌-◌, ◌≤◌, ◌<◌, ◌≡◌, refl, ap, sym, ◌∙◌, true, false, List, [], ◌∷◌, ◌++◌,
  append_assoc, append-nil, length, length-append, get_elem?-append, set, set-append, take, drop,
  take-append-drop, length-take, length-drop, length-zero, leb, ltb, arith,
}
use spice_gtk.Glz.{Pixel}
use spice_gtk.Glz.Window.{Window}
use spice_gtk.Glz.Format.{rgb32, comp_rgb32}
use spice_gtk.Glz.Stream.{
  Job, State, ok, bind, get_byte, write, in_limit, literals, copy, round, loop, decode,
}

-- The input bytes of a pixel, and of a run of at most `max_copy` pixels.
pub pixel_bytes : List Pixel → List ℕ
pixel_bytes [] = []
pixel_bytes (p ∷ ps) = p.b ∷ p.g ∷ p.r ∷ pixel_bytes ps

-- A pixel that 32-bit RGB data describes.
abbrev pub AllOpaque : List Pixel → Type 0
AllOpaque [] = Unit {0}
AllOpaque (p ∷ ps) = (p.pad ≡ 0) × AllOpaque ps

opaque_eq :
    (p : Pixel) → p.pad ≡ 0 → ◌≡◌ {A = Pixel} (record { b = p.b; g = p.g; r = p.r; pad = 0 }) p
opaque_eq p e = λ i. record { b = p.b; g = p.g; r = p.r; pad = sym e i }

-- An encoder without matches: a count, then the pixels, for each run.
pub encode : List (List Pixel) → List ℕ → List ℕ
unfolding pixel_bytes
encode [] r = r
encode (run ∷ runs) r = (length run - 1) ∷ (pixel_bytes run ++ encode runs r)

abbrev pub all_pixels : List (List Pixel) → List Pixel
all_pixels [] = []
all_pixels (run ∷ runs) = run ++ all_pixels runs

-- Runs that the format can write: not empty, at most `max_copy` pixels, no pad bytes.
abbrev pub AreRuns : ℕ → List (List Pixel) → Type 0
AreRuns max [] = Unit {0}
AreRuns max (run ∷ runs) = (0 < length run) × (length run ≤ max) × AllOpaque run × AreRuns max runs

length-encode : (runs : List (List Pixel)) (r : List ℕ) → length runs ≤ length (encode runs r)
unfolding encode
length-encode [] r = omega arith
length-encode (run ∷ runs) r =
    omega (arith, length-encode runs r, length-append (pixel_bytes run) (encode runs r))

module _ (job : Job) where
  abbrev j : Job
  j = record job { format = rgb32 }

  -- The state in which `done` is written, `old` is still to be, and `r` is to be read.
  abbrev at : List Pixel → List Pixel → List ℕ → Window → State
  at done old r w = record { input = r; out = done ++ old; op = length done; window = w }

  write-at :
      (p x : Pixel) (done old : List Pixel) (r : List ℕ) (w : Window)
      → write j p (at done (x ∷ old) r w) ≡ ok tt (at (done ++ (p ∷ [])) old r w)
  unfolding write
  write-at p x done old r w =
      let o : set (done ++ (x ∷ old)) (length done) p ≡ (done ++ (p ∷ [])) ++ old =
        set-append done x p old ∙ sym (append_assoc done (p ∷ []) old) in
      let n : length done + 1 ≡ length (done ++ (p ∷ [])) = sym (length-append done (p ∷ [])) in
      rw (get_elem?-append done x old, write)
        (λ i. ok tt (record { input = r; out = o i; op = n i; window = w }))

  literals-cons :
      (n : ℕ) (p x : Pixel) (done old : List Pixel) (r : List ℕ) (w : Window)
      → p.pad ≡ 0
      → length done + 1 ≤ job.size
      → literals j (suc n) (at done (x ∷ old) (p.b ∷ p.g ∷ p.r ∷ r) w)
        ≡ literals j n (at (done ++ (p ∷ [])) old r w)
  unfolding literals in_limit comp_rgb32
  literals-cons n p x done old r w pad h =
      let fits : leb (length (done ++ (p ∷ []))) job.size ≡ true =
        let l = length-append done (p ∷ []) in ground arith in
      ap
        (λ q.
          bind (bind (write j q (at done (x ∷ old) r w)) (λ _ t. ok tt t))
            (λ _ t. bind (in_limit j t) (λ _. literals j n)))
        (opaque_eq p pad)
      ∙ ap (λ y. bind (bind y (λ _ t. ok tt t)) (λ _ t. bind (in_limit j t) (λ _. literals j n)))
          (write-at p x done old r w)
      ∙ rw fits refl

  literals-run :
      (ps olds done tail : List Pixel) (r : List ℕ) (w : Window)
      → AllOpaque ps
      → length olds ≡ length ps
      → length done + length ps ≤ job.size
      → literals j (length ps) (at done (olds ++ tail) (pixel_bytes ps ++ r) w)
        ≡ ok tt (at (done ++ ps) tail r w)
  unfolding literals pixel_bytes
  literals-run [] [] done tail r w a l h = rw append-nil refl
  literals-run [] (x ∷ olds) done tail r w a l h = absurd (omega arith)
  literals-run (p ∷ ps) [] done tail r w a l h = absurd (omega arith)
  literals-run (p ∷ ps) (x ∷ olds) done tail r w a l h =
      literals-cons (length ps) p x done (olds ++ tail) (pixel_bytes ps ++ r) w a.0 (omega arith)
      ∙ literals-run ps olds (done ++ (p ∷ [])) tail r w a.1 (omega arith)
          (let k = length-append done (p ∷ []) in omega arith)
      ∙ ap (λ d. ok tt (at d tail r w)) (append_assoc done (p ∷ []) ps)

  round-run :
      (run olds done : List Pixel) (r : List ℕ) (w : Window)
      → 0 < length run
      → length run ≤ job.max_copy
      → AllOpaque run
      → length run ≤ length olds
      → length done + length run ≤ job.size
      → round j (length run - 1) (at done olds (pixel_bytes run ++ r) w)
        ≡ ok tt (at (done ++ run) (drop (length run) olds) r w)
  unfolding round copy
  round-run run olds done r w some_pixels few a l h =
      let literal : leb job.max_copy (length run - 1) ≡ false = ground arith in
      let count : length run - 1 + 1 ≡ length run = omega arith in
      let fits : leb (length done + length run * 1) job.size ≡ true = ground arith in
      rw literal (
        rw (count, fits)
          (ap (λ o. literals j (length run) (at done o (pixel_bytes run ++ r) w))
              (sym (take-append-drop (length run) olds))
            ∙ literals-run run (take (length run) olds) done (drop (length run) olds) r w a
                (let t = length-take (length run) olds in omega arith) h))

  loop-runs :
      (fuel : ℕ) (runs : List (List Pixel)) (run olds done : List Pixel) (r : List ℕ) (w : Window)
      → length runs < fuel
      → AreRuns job.max_copy (run ∷ runs)
      → length olds ≡ length (all_pixels (run ∷ runs))
      → length done + length olds ≡ job.size
      → loop j fuel (length run - 1) (at done olds (pixel_bytes run ++ encode runs r) w)
        ≡ ok tt (at (done ++ all_pixels (run ∷ runs)) [] r w)
  unfolding loop encode get_byte
  loop-runs zero runs run olds done r w f a l h = absurd (omega arith)
  loop-runs (suc fuel) [] run olds done r w f a l h =
      let same : length olds ≡ length run = l ∙ ap length (append-nil run) in
      let full : ltb (length (done ++ run)) job.size ≡ false =
        let k = length-append done run in ground arith in
      let empty : drop (length run) olds ≡ [] =
        length-zero (drop (length run) olds)
          (let d = length-drop (length run) olds in omega arith) in
      rw (round-run run olds done r w a.0 a.1 a.2 (omega arith) (omega arith))
        (rw (full, empty, append-nil run) refl)
  loop-runs (suc fuel) (run' ∷ runs) run olds done r w f a l h =
      let both = length-append run (all_pixels (run' ∷ runs)) in
      let more = length-append run' (all_pixels runs) in
      let here = length-append done run in
      let rest = length-drop (length run) olds in
      let going : ltb (length (done ++ run)) job.size ≡ true = let p = a.3.0 in ground arith in
      rw
        (round-run run olds done (encode (run' ∷ runs) r) w a.0 a.1 a.2 (omega arith) (omega arith))
        (rw going (
          loop-runs fuel runs run' (drop (length run) olds) (done ++ run) r w (omega arith) a.3
            (omega arith) (omega arith)
          ∙ ap (λ d. ok tt (at d [] r w)) (append_assoc done run (all_pixels (run' ∷ runs)))))

  -- The round trip of literal data: from the encoding of runs that fill the image, the 32-bit RGB
  -- decoder writes exactly their pixels and leaves the input behind them unread.
  pub decode-encode :
      (run : List Pixel) (runs : List (List Pixel)) (olds : List Pixel) (r : List ℕ) (w : Window)
      → AreRuns job.max_copy (run ∷ runs)
      → length (all_pixels (run ∷ runs)) ≡ job.size
      → length olds ≡ job.size
      → decode j (record { input = encode (run ∷ runs) r; out = olds; op = 0; window = w })
        ≡ ok tt (record { input = r; out = all_pixels (run ∷ runs); op = job.size; window = w })
  unfolding decode get_byte encode
  decode-encode run runs olds r w a size l =
      loop-runs (length (encode (run ∷ runs) r)) runs run olds [] r w
        (let k = length-encode runs r in
          let q = length-append (pixel_bytes run) (encode runs r) in omega arith)
        a (omega arith) (omega arith)
      ∙ λ i. ok tt (record {
        input = r;
        out = append-nil (all_pixels (run ∷ runs)) i;
        op = size i;
        window = w;
      })
