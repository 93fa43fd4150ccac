-- ===== src/Glz/Stream/Fuel.antt =====
-- The rounds of the loop that the length of the input allows are enough.
use spice_gtk.Base.{
  ℕ, zero, suc, ◌≤◌, ◌<◌, ◌≡◌, refl, ap, length, ltb, if◌then◌else◌, arith, Bool-cases, List-cases,
  inl, inr,
}
use spice_gtk.Glz.Format.Laws.{IsFormat}
use spice_gtk.Glz.Stream.{
  Job, State, Result, ok, refuse, fault, M, bind, get_byte, round, loop, decode,
}
use spice_gtk.Glz.Stream.Reads.{Kept}
use spice_gtk.Glz.Stream.Matches.{Rounds}
use spice_gtk.Glz.Stream.Safety.{round-Rounds}

get_byte-bind :
    (s : State) (f g : ℕ → M (Unit {0}))
    → ((c : ℕ) (t : State)
        → length t.input < length s.input
        → length t.out ≡ length s.out
        → f c t ≡ g c t)
    → bind (get_byte s) f ≡ bind (get_byte s) g
unfolding get_byte
get_byte-bind s f g h = elim (List-cases s.input) [
  | inl e ↦ rw (e, get_byte)
  | inr (x, r, e) ↦
      let k = h x (record s { input = r }) (let l = ap length e in omega arith) refl in
      rw (e, get_byte) k
]

module _ (n : ℕ) (j : Job) (room : j.size ≤ n) (fmt : IsFormat j.format) where
  next : (ℕ → M (Unit {0})) → Unit {0} → M (Unit {0})
  next f _ t = if ltb t.op j.size then bind (get_byte t) f else ok tt t

  next-cong :
      (m : ℕ) (s : State) (r : Result (Unit {0})) (f g : ℕ → M (Unit {0}))
      → Rounds n j room s r
      → length s.input ≤ m
      → ((c : ℕ) (t : State) → length t.input < m → Kept n t → f c t ≡ g c t)
      → bind r (next f) ≡ bind r (next g)
  unfolding next
  next-cong m s (refuse t) f g h b k = refl
  next-cong m s (fault x) f g h b k = refl
  next-cong m s (ok x t) f g h b k = elim (Bool-cases (ltb t.op j.size)) [
    | inr e ↦ rw e
    | inl e ↦ rw e (
        get_byte-bind t f g
          λ c u l o. k c u (let b' = h.2 in omega arith) (let q = h.0 in omega arith))
  ]

  loop-fuel :
      (f g ctrl : ℕ) (s : State)
      → Kept n s
      → length s.input < f
      → length s.input < g
      → loop j f ctrl s ≡ loop j g ctrl s
  unfolding loop next
  loop-fuel zero g ctrl s k a b = absurd (omega arith)
  loop-fuel (suc f) zero ctrl s k a b = absurd (omega arith)
  loop-fuel (suc f) (suc g) ctrl s k a b =
      next-cong (length s.input) s (round j ctrl s) (loop j f) (loop j g)
        (round-Rounds n j room fmt ctrl s k) (omega arith)
        λ c t l kt. loop-fuel f g c t kt (omega arith) (omega arith)

  -- No fuel above the length of the input changes the result: the loop of `decode` never stops for
  -- want of fuel.
  pub decode-fuel :
      (fuel : ℕ) (s : State)
      → Kept n s
      → length s.input ≤ fuel
      → decode j s ≡ bind (get_byte s) (loop j fuel)
  unfolding decode
  decode-fuel fuel s k h =
      get_byte-bind s (loop j (length s.input)) (loop j fuel)
        λ c t l o. loop-fuel (length s.input) fuel c t (let q = k in omega arith) l (omega arith)
