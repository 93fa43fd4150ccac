-- ===== src/Glz/Stream/Safety.antt =====
-- The decoder stays inside its output, and ends with the output complete.
use spice_gtk.Base.{
  ℕ, zero, suc, ◌+◌, ◌*◌, ◌≤◌, ◌<◌, ◌≡◌, refl, length, leb, ltb, arith, Bool-cases, inl, inr,
}
use spice_gtk.Glz.Format.{Comp, pixels, no_palette, faulty}
use spice_gtk.Glz.Format.Laws.{IsFormat}
use spice_gtk.Glz.Stream.{
  Job, State, Result, ok, refuse, fault, get_byte, in_limit, write_all, literals, copy, round, loop,
  decode,
}
use spice_gtk.Glz.Stream.Reads.{Holds, bind-Holds, NoWrite, Kept, Moves, Moves-bind, get_byte-Moves}
use spice_gtk.Glz.Stream.Matches.{
  in_limit-Moves, write_all-Moves, Rounds, Rounds-of, checked, reference-Rounds,
}

module _ (n : ℕ) (j : Job) (room : j.size ≤ n) (fmt : IsFormat j.format) where
  literal-step :
      (c : ℕ) (s : State)
      → Kept n s
      → s.op + suc c * j.format.scale ≤ n
      → ((t : State)
          → Kept n t
          → t.op + c * j.format.scale ≤ n
          → Moves n (c * j.format.scale) t (literals j c t))
      → (x : Comp) → j.format.comp j.palette s.input ≡ x
      → Moves n (suc c * j.format.scale) s (literals j (suc c) s)
  unfolding literals
  literal-step c s k h rest no_palette e = rw (e, literals) k
  literal-step c s k h rest (faulty x) e = rw (e, literals) (fmt.no_write _ _ x e)
  literal-step c s k h rest (pixels ps r) e =
      let (len, less) = fmt.fits _ _ ps r e in
      let s' : State = record s { input = r } in
      let here : s.op + length ps ≤ n = omega arith in
      rw (e, literals)
        (longer _
          (Moves-bind n (length ps) (c * j.format.scale) (suc c * j.format.scale) s'
            (write_all j ps s') _ (omega arith) (write_all-Moves n j room ps s' k here)
            (λ x t kt e l.
              Moves-bind n 0 (c * j.format.scale) (c * j.format.scale) t (in_limit j t) _
                (omega arith) (in_limit-Moves n j room t kt)
                λ y u ku e' l'. rest u ku (omega arith)))
          less)
    where
      longer :
          (r' : Result (Unit {0}))
          → Moves n (suc c * j.format.scale) (record s { input = r }) r'
          → length r < length s.input
          → Moves n (suc c * j.format.scale) s r'
      longer (ok x t) m l = (m.0, m.1, omega (arith, m.2))
      longer (refuse t) m l = m
      longer (fault x) m l = m

  literals-Moves :
      (c : ℕ) (s : State)
      → Kept n s
      → s.op + c * j.format.scale ≤ n
      → Moves n (c * j.format.scale) s (literals j c s)
  unfolding literals
  literals-Moves zero s k h = (k, omega arith, omega arith)
  literals-Moves (suc c) s k h =
      literal-step c s k h (λ t kt ht. literals-Moves c t kt ht) (j.format.comp j.palette s.input)
        refl

  pub round-Rounds : (ctrl : ℕ) (s : State) → Kept n s → Rounds n j room s (round j ctrl s)
  unfolding round copy
  round-Rounds ctrl s k = elim (Bool-cases (leb j.max_copy ctrl)) [
    | inl e ↦ rw e (reference-Rounds n j room ctrl s k)
    | inr e ↦ rw e (
        checked n j room (s.op + (ctrl + 1) * j.format.scale) j.size s _ k λ fits.
          Rounds-of n j room ((ctrl + 1) * j.format.scale) s _ fits
            (literals-Moves (ctrl + 1) s k (omega arith)))
  ]

  -- What the whole decoder promises: complete output, or a stop that wrote nothing outside it.
  abbrev pub Complete : Result (Unit {0}) → Type 0
  Complete = Holds (λ _ t. Kept n t × (t.op ≡ j.size)) (Kept n) NoWrite

  loop-Complete : (fuel ctrl : ℕ) (s : State) → Kept n s → Complete (loop j fuel ctrl s)
  unfolding loop
  loop-Complete zero ctrl s k = λ q. cc
  loop-Complete (suc fuel) ctrl s k =
      bind-Holds _ _ _ _ _ (round j ctrl s) (round-Rounds ctrl s k) λ x t h.
        elim (Bool-cases (ltb t.op j.size)) [
          | inr e ↦ rw e (h.0, ground arith)
          | inl e ↦ rw e (
              bind-Holds _ _ _ _ _ (get_byte t) (get_byte-Moves n t h.0)
                λ c u hu. loop-Complete fuel c u hu.0)
        ]

  -- Decoding into a buffer of at least `size` pixels never writes outside it, whatever the input,
  -- the window and the palette are, and keeps its length; where the decoder returns success it has
  -- written exactly up to `size`.
  pub decode-Complete : (s : State) → Kept n s → Complete (decode j s)
  unfolding decode
  decode-Complete s k =
      bind-Holds _ _ _ _ _ (get_byte s) (get_byte-Moves n s k)
        λ c t h. loop-Complete (length s.input) c t h.0
