-- ===== src/Glz/Stream/Matches.antt =====
-- Copying matches: where the pixels go, and how far.
use spice_gtk.Base.{
  ℕ, zero, suc, ◌+◌, ◌-◌, ◌%◌, ◌^◌, ◌≤◌, ◌<◌, ◌≡◌, ◌∙◌, Bool, true, false, ◌&&◌, Option, none, some,
  List, [], ◌∷◌, get_elem?, length, length-set, ◌==◌, leb, if◌then◌else◌, arith, Bool-cases, leb→le,
  Option-cases, get_elem?-ne-none, inl, inr,
}
use spice_gtk.Glz.{Pixel}
use spice_gtk.Glz.Window.{bits}
use spice_gtk.Glz.Stream.{
  Job, State, Result, ok, refuse, fault, M, bind, check, get_match, Match, Source, inside, outside,
  find_source, write, in_limit, put, run_copy, ref_copy, copy_match, is_run, reference, write_all,
}
use spice_gtk.Glz.Stream.Reads.{
  Holds, NoWrite, Kept, Moves, Moves-bind, check-Moves, get_match-Moves,
}

module _ (n : ℕ) (j : Job) (room : j.size ≤ n) where
  pub write-Moves : (p : Pixel) (s : State) → Kept n s → s.op < n → Moves n 1 s (write j p s)
  unfolding write
  write-Moves p s k h = elim (Option-cases (get_elem? s.out s.op)) [
    | inl e ↦ absurd (get_elem?-ne-none s.out s.op (omega arith) e)
    | inr (old, e) ↦
        rw (e, write) (length-set s.out s.op (j.format.over old p) ∙ k, omega arith, omega arith)
  ]

  pub in_limit-Moves : (s : State) → Kept n s → Moves n 0 s (in_limit j s)
  unfolding in_limit
  in_limit-Moves s k = check-Moves n (leb s.op j.size) s k

  put-Moves : (p : Pixel) (s : State) → Kept n s → s.op < n → Moves n 1 s (put j p s)
  unfolding put
  put-Moves p s k h =
      Moves-bind n 1 0 1 s (write j p s) _ (omega arith) (write-Moves p s k h)
        λ x t kt e l. in_limit-Moves t kt

  run_copy-Moves :
      (c : ℕ) (p : Pixel) (s : State) → Kept n s → s.op + c ≤ n → Moves n c s (run_copy j c p s)
  unfolding run_copy
  run_copy-Moves zero p s k h = (k, omega arith, omega arith)
  run_copy-Moves (suc c) p s k h =
      Moves-bind n 1 c (suc c) s (put j p s) _ (omega arith) (put-Moves p s k (omega arith))
        λ x t kt e l. run_copy-Moves c p t kt (omega arith)

  ref_copy-Moves :
      (c : ℕ) (src : Source) (s : State)
      → Kept n s
      → s.op + c ≤ n
      → Moves n c s (ref_copy j c src s)
  unfolding ref_copy
  ref_copy-Moves zero src s k h = (k, omega arith, omega arith)
  ref_copy-Moves (suc c) (inside r) s k h = elim (Option-cases (get_elem? s.out r)) [
    | inl e ↦ rw (e, ref_copy) (λ q. cc)
    | inr (p, e) ↦
        rw (e, ref_copy)
          (Moves-bind n 1 c (suc c) s (put j p s) _ (omega arith) (put-Moves p s k (omega arith))
            λ x t kt e l. ref_copy-Moves c (inside (r + 1)) t kt (omega arith))
  ]
  ref_copy-Moves (suc c) (outside []) s k h = λ q. cc
  ref_copy-Moves (suc c) (outside (p ∷ ps)) s k h =
      Moves-bind n 1 c (suc c) s (put j p s) _ (omega arith) (put-Moves p s k (omega arith))
        λ x t kt e l. ref_copy-Moves c (outside ps) t kt (omega arith)

  pub copy_match-Moves :
      (c : ℕ) (src : Source) (s : State)
      → Kept n s
      → s.op + c ≤ n
      → Moves n c s (copy_match j c src s)
  unfolding copy_match
  copy_match-Moves c (outside ps) s k h = ref_copy-Moves c (outside ps) s k h
  copy_match-Moves c (inside r) s k h = elim (Bool-cases (is_run (inside r) s.op)) [
    | inr e ↦ rw e (ref_copy-Moves c (inside r) s k h)
    | inl e ↦ rw e (elim (Option-cases (get_elem? s.out r)) [
      | inl q ↦ rw (q, copy_match) (λ q. cc)
      | inr (p, q) ↦ rw (q, copy_match) (run_copy-Moves c p s k h)
    ])
  ]

  pub write_all-Moves :
      (ps : List Pixel) (s : State)
      → Kept n s
      → s.op + length ps ≤ n
      → Moves n (length ps) s (write_all j ps s)
  unfolding write_all
  write_all-Moves [] s k h = (k, omega arith, omega arith)
  write_all-Moves (p ∷ ps) s k h =
      Moves-bind n 1 (length ps) (suc (length ps)) s (write j p s) _ (omega arith)
        (write-Moves p s k (omega arith)) λ x t kt e l. write_all-Moves ps t kt (omega arith)

  find_source-Moves : (m : Match) (s : State) → Kept n s → Moves n 0 s (find_source j m s)
  unfolding find_source
  find_source-Moves m s k = elim (Bool-cases (m.dist == 0)) [
    | inl e ↦ rw e (near (leb (s.op + m.len) (j.size + m.ofs) && leb m.ofs s.op))
    | inr e ↦ rw e (
        far (
          bits (j.wait ((j.image_id + 2 ^ 64 - m.dist) % 2 ^ 64) s.window) j.image_id m.dist m.ofs))
  ]
    where
      near :
          (b : Bool)
          → Moves n 0 s {A = Source} (if b then ok (inside (s.op - m.ofs)) s else refuse s)
      near true = (k, omega arith, omega arith)
      near false = k

      far :
          (o : Option (List Pixel))
          → Moves n 0 s {A = Source} (elim o [
            | none ↦
                refuse
                  (record s { window = j.wait ((j.image_id + 2 ^ 64 - m.dist) % 2 ^ 64) s.window })
            | some px ↦
                ok
                  (outside px)
                  (record s { window = j.wait ((j.image_id + 2 ^ 64 - m.dist) % 2 ^ 64) s.window })
          ])
      far none = k
      far (some px) = (k, omega arith, omega arith)

  -- A round moves `op` forward, to the limit at most.
  abbrev pub Rounds : State → Result (Unit {0}) → Type 0
  Rounds s =
      Holds (λ _ t. Kept n t × (t.op ≤ j.size) × (length t.input ≤ length s.input)) (Kept n) NoWrite

  pub Rounds-of :
      (d : ℕ) (s : State) (r : Result (Unit {0})) → s.op + d ≤ j.size → Moves n d s r → Rounds s r
  Rounds-of d s (ok x t) h m = (m.0, omega (arith, m.1), m.2)
  Rounds-of d s (refuse t) h m = m
  Rounds-of d s (fault x) h m = m

  -- A check that passes hands its fact on.
  pub checked :
      (a b : ℕ) (s : State) (f : Unit {0} → M (Unit {0}))
      → Kept n s
      → (a ≤ b → Rounds s (f tt s))
      → Rounds s (bind (check (leb a b) s) f)
  checked a b s f k h = elim (Bool-cases (leb a b)) [
    | inl e ↦ rw e (h (leb→le a b e))
    | inr e ↦ rw e k
  ]

  Rounds-bind :
      {A : Type 0} (s : State) (r : Result A) (f : A → M (Unit {0}))
      → Moves n 0 s r
      → ((x : A) (t : State) → Kept n t → t.op ≡ s.op → Rounds t (f x t))
      → Rounds s (bind r f)
  Rounds-bind s (refuse t) f h k = h
  Rounds-bind s (fault x) f h k = h
  Rounds-bind s (ok x t) f h k = shift (f x t) (k x t h.0 (omega (arith, h.1)))
    where
      shift : (r : Result (Unit {0})) → Rounds t r → Rounds s r
      shift (ok y u) m = (m.0, m.1, omega (arith, m.2, h.2))
      shift (refuse u) m = m
      shift (fault y) m = m

  pub reference-Rounds : (ctrl : ℕ) (s : State) → Kept n s → Rounds s (reference j ctrl s)
  unfolding reference
  reference-Rounds ctrl s k =
      Rounds-bind s (get_match j.format ctrl s) _ (get_match-Moves n j.format ctrl s k) λ m t kt e.
        Rounds-bind t (find_source j m t) _ (find_source-Moves m t kt) λ src u ku e.
          checked (u.op + m.len) j.size u _ ku
            λ fits. Rounds-of m.len u _ fits (copy_match-Moves m.len src u ku (omega arith))
