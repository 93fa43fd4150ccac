-- ===== src/Glz/Stream/Reads.antt =====
-- What the parts of the decoder that read the input do to the state.
use spice_gtk.Base.{
  ℕ, zero, suc, ◌+◌, ◌/◌, ◌%◌, ◌^◌, ◌≤◌, ◌<◌, ◌≡◌, ◌≢◌, Bool, true, false, some, List, [], ◌∷◌,
  length, ◌==◌, arith, Bool-cases, Option-cases, List-cases, inl, inr,
}
use spice_gtk.Glz.Format.{Format, Fault, out_end}
use spice_gtk.Glz.Stream.{
  State, Result, ok, refuse, fault, M, bind, check, get_byte, long_len, get_len, get_dist,
  get_place, get_far, get_match,
}

-- What holds of the result: `P` where the code goes on, `R` where a check fails, `F` at a fault.
abbrev pub Holds :
    {A : Type 0} → (A → State → Type 0) → (State → Type 0) → (Fault → Type 0) → Result A → Type 0
Holds P R F (ok a s) = P a s
Holds P R F (refuse s) = R s
Holds P R F (fault x) = F x

pub bind-Holds :
    {A B : Type 0} (P : A → State → Type 0) (Q : B → State → Type 0) (R : State → Type 0)
    (F : Fault → Type 0) (f : A → M B) (r : Result A)
    → Holds P R F r
    → ((a : A) (s : State) → P a s → Holds Q R F (f a s))
    → Holds Q R F (bind r f)
bind-Holds P Q R F f (ok a s) h k = k a s h
bind-Holds P Q R F f (refuse s) h k = h
bind-Holds P Q R F f (fault x) h k = h

abbrev pub NoWrite : Fault → Type 0
NoWrite x = x ≢ out_end

module _ (n : ℕ) where
  -- The output keeps its `n` pixels, also where a check fails, and nothing is written outside it.
  abbrev pub Kept : State → Type 0
  Kept s = length s.out ≡ n

  -- What a part of the code does from `s` on: it moves `op` by `d` and reads no input twice.
  abbrev pub Moves : ℕ → State → {A : Type 0} → Result A → Type 0
  Moves d s =
      Holds (λ _ t. Kept t × (t.op ≡ s.op + d) × (length t.input ≤ length s.input)) Kept NoWrite

  pub Moves-bind :
      {A B : Type 0} (a b c : ℕ) (s : State) (r : Result A) (f : A → M B)
      → c ≡ a + b
      → Moves a s r
      → ((x : A) (t : State)
          → Kept t
          → t.op ≡ s.op + a
          → length t.input ≤ length s.input
          → Moves b t (f x t))
      → Moves c s (bind r f)
  Moves-bind a b c s (refuse t) f e h k = h
  Moves-bind a b c s (fault x) f e h k = h
  Moves-bind {B = B} a b c s (ok x t) f e h k = shift (f x t) (k x t h.0 h.1 h.2)
    where
      shift : (r : Result B) → Moves b t r → Moves c s r
      shift (ok y u) m = (m.0, omega (arith, m.1, h.1), omega (arith, m.2, h.2))
      shift (refuse u) m = m
      shift (fault y) m = m

  pub get_byte-Moves : (s : State) → Kept s → Moves 0 s (get_byte s)
  unfolding get_byte
  get_byte-Moves s k = elim (List-cases s.input) [
    | inl e ↦ rw (e, get_byte) (λ q. cc)
    | inr (x, r, e) ↦ rw (e, get_byte) (k, omega arith, omega arith)
  ]

  pub check-Moves : (b : Bool) (s : State) → Kept s → Moves 0 s (check b s)
  check-Moves true s k = (k, omega arith, omega arith)
  check-Moves false s k = k

  get_dist-Moves : (c shift dist : ℕ) (s : State) → Kept s → Moves 0 s (get_dist c shift dist s)
  unfolding get_dist
  get_dist-Moves zero shift dist s k = (k, omega arith, omega arith)
  get_dist-Moves (suc c) shift dist s k =
      Moves-bind 0 0 0 s (get_byte s) _ (omega arith) (get_byte-Moves s k)
        λ x t kt e l. get_dist-Moves c (shift + 8) _ t kt

  long_len-shorter :
      (len : ℕ) (ip : List ℕ) (m : ℕ) (r : List ℕ)
      → long_len len ip ≡ some (m, r)
      → length r < length ip
  unfolding long_len
  long_len-shorter len [] m r h = cc
  long_len-shorter len (c ∷ ip) m r h = ground (arith, long_len-shorter ((len + c) % 2 ^ 32) ip m r)

  get_len-Moves : (len : ℕ) (s : State) → Kept s → Moves 0 s (get_len len s)
  unfolding get_len
  get_len-Moves len s k = elim (Bool-cases (len == 7)) [
    | inr short ↦ rw short (k, omega arith, omega arith)
    | inl long ↦ rw long (elim (Option-cases (long_len len s.input)) [
      | inl e ↦ rw (e, get_len) (λ q. cc)
      | inr ((m, r), e) ↦
          rw (e, get_len)
            (k, omega arith, let d = long_len-shorter len s.input m r e in omega arith)
    ])
  ]

  get_far-Moves : (ofs code : ℕ) (s : State) → Kept s → Moves 0 s (get_far ofs code s)
  unfolding get_far
  get_far-Moves ofs code s k = elim (Bool-cases (code / 2 ^ 5 % 2 == 1)) [
    | inl e ↦ rw e (
        Moves-bind 0 0 0 s (get_byte s) _ (omega arith) (get_byte-Moves s k)
          λ x u ku e l. (ku, omega arith, omega arith))
    | inr e ↦ rw e (k, omega arith, omega arith)
  ]

  get_place-Moves :
      (far : Bool) (ofs code : ℕ) (s : State) → Kept s → Moves 0 s (get_place far ofs code s)
  unfolding get_place
  get_place-Moves false ofs code s k =
      Moves-bind 0 0 0 s (get_dist (code / 2 ^ 6 % 4) 6 (code % 2 ^ 6) s) _ (omega arith)
        (get_dist-Moves _ _ _ s k) λ x t kt e l. (kt, omega arith, omega arith)
  get_place-Moves true ofs code s k =
      Moves-bind 0 0 0 s (get_dist (code / 2 ^ 6 % 4) 0 0 s) _ (omega arith)
        (get_dist-Moves _ _ _ s k)
        λ dist t kt e l.
          Moves-bind 0 0 0 t (get_far _ code t) _ (omega arith) (get_far-Moves _ code t kt)
            λ x u ku e l. (ku, omega arith, omega arith)

  pub get_match-Moves :
      (f : Format) (ctrl : ℕ) (s : State) → Kept s → Moves 0 s (get_match f ctrl s)
  unfolding get_match
  get_match-Moves f ctrl s k =
      Moves-bind 0 0 0 s (get_len (ctrl / 2 ^ 5) s) _ (omega arith) (get_len-Moves _ s k)
        λ len t kt e l.
          Moves-bind 0 0 0 t (get_byte t) _ (omega arith) (get_byte-Moves t kt) λ low u ku e l.
            Moves-bind 0 0 0 u (get_byte u) _ (omega arith) (get_byte-Moves u ku) λ code v kv e l.
              Moves-bind 0 0 0 v (get_place _ _ code v) _ (omega arith)
                (get_place-Moves _ _ code v kv) λ place x kx e l. (kx, omega arith, omega arith)
