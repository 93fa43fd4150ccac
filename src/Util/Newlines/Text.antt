-- ===== src/Util/Newlines/Text.antt =====
-- The conversions of src/spice-util.c byte by byte, and there and back.
use spice_gtk.Base.{
  ℕ, ◌<◌, ◌≡◌, refl, ap, ◌⊎◌, sym, ◌∙◌, Bool, true, false, ◌&&◌, [], ◌∷◌, ◌++◌, append-nil,
  append_assoc, arith, length, ◌==◌, if◌then◌else◌, if_true, if_false, Bool-cases, inl, inr,
}
use spice_gtk.Util.Newlines.{
  Text, cr, lf, newline_lf, newline_cr_lf, Line, longer, ended, unsearched, lf_line, cr_lf_line,
  last_of, line_end, put_line,
}

-- In front of the first zero byte a CR goes before each LF that has none; `last` is the byte before.
abbrev pub with_cr : (last : ℕ) → Text → Text
with_cr last [] = []
with_cr last (b ∷ s) =
    let rest = with_cr b s in
    if b == 0 then b ∷ s else (if b == lf then line_end newline_cr_lf last ++ rest else b ∷ rest)

-- In front of the first zero byte each CR before an LF is left out.
abbrev pub without_cr : Text → Text
without_cr [] = []
without_cr (b ∷ []) = b ∷ []
without_cr (b ∷ (c ∷ s)) =
    let rest = without_cr (c ∷ s) in
    if b == 0 then b ∷ (c ∷ s) else (if b == cr && c == lf then rest else b ∷ rest)

abbrev last_from : ℕ → Text → ℕ
last_from p [] = p
last_from p (b ∷ s) = last_from b s

-- What a line and what comes behind it become.
abbrev pub lines_with_cr : ℕ → Line → Text
lines_with_cr p l =
    if l.ends
    then l.text ++ (line_end newline_cr_lf (last_from p l.text) ++ with_cr lf l.rest)
    else l.text

longer-with_cr :
    (p b : ℕ) (t : Text) (ends : Bool) (r : Text)
    → let l : Line = record { text = t; ends = ends; rest = r } in
      b ∷ lines_with_cr b l ≡ lines_with_cr p (longer b l)
longer-with_cr p b t true r = refl
longer-with_cr p b t false r = refl

pub lf_line-with_cr : (p : ℕ) (s : Text) → with_cr p s ≡ lines_with_cr p (lf_line s)
unfolding lf_line
lf_line-with_cr p [] = refl
lf_line-with_cr p (b ∷ s) = elim (Bool-cases (b == 0)) [
  | inl z ↦ if_true _ _ z ∙ sym (ap (lines_with_cr p) (if_true _ _ z))
  | inr z ↦
      if_false _ _ z
      ∙ (searched (lf_line-with_cr b s) ∙ sym (ap (lines_with_cr p) (if_false _ _ z)))
]
  where
    searched :
        with_cr b s ≡ lines_with_cr b (lf_line s)
        → (if b == lf then line_end newline_cr_lf p ++ with_cr b s else b ∷ with_cr b s)
          ≡ lines_with_cr p (if b == lf then ended s else longer b (lf_line s))
    searched more = elim (Bool-cases (b == lf)) [
      | inl e ↦
          let same : b ≡ lf = ground arith in
          if_true _ _ e
          ∙ (ap (λ k. line_end newline_cr_lf p ++ with_cr k s) same
              ∙ sym (ap (lines_with_cr p) (if_true _ _ e)))
      | inr e ↦
          let l = lf_line s in
          if_false _ _ e
          ∙ (ap (◌∷◌ b) more
              ∙ (longer-with_cr p b l.text l.ends l.rest
                  ∙ sym (ap (lines_with_cr p) (if_false _ _ e))))
    ]

-- What a line and what comes behind it become in the other direction.
abbrev pub lines_without_cr : Line → Text
lines_without_cr l = if l.ends then l.text ++ (lf ∷ without_cr l.rest) else l.text

longer-without_cr :
    (b : ℕ) (t : Text) (ends : Bool) (r : Text)
    → let l : Line = record { text = t; ends = ends; rest = r } in
      b ∷ lines_without_cr l ≡ lines_without_cr (longer b l)
longer-without_cr b t true r = refl
longer-without_cr b t false r = refl

pub without_cr-lf : (s : Text) → without_cr (lf ∷ s) ≡ lf ∷ without_cr s
without_cr-lf [] = refl
without_cr-lf (c ∷ s) = refl

pub cr_lf_line-without_cr : (s : Text) → without_cr s ≡ lines_without_cr (cr_lf_line s)
unfolding cr_lf_line
cr_lf_line-without_cr [] = refl
cr_lf_line-without_cr (b ∷ []) = refl
cr_lf_line-without_cr (b ∷ (c ∷ s)) = elim (Bool-cases (b == 0)) [
  | inl z ↦ if_true _ _ z ∙ sym (ap lines_without_cr (if_true _ _ z))
  | inr z ↦
      if_false _ _ z
      ∙ (searched (cr_lf_line-without_cr (c ∷ s)) ∙ sym (ap lines_without_cr (if_false _ _ z)))
]
  where
    searched :
        without_cr (c ∷ s) ≡ lines_without_cr (cr_lf_line (c ∷ s))
        → (if b == cr && c == lf then without_cr (c ∷ s) else b ∷ without_cr (c ∷ s))
          ≡ lines_without_cr (if b == cr && c == lf then ended s else longer b (cr_lf_line (c ∷ s)))
    searched more = elim (Bool-cases (b == cr && c == lf)) [
      | inl e ↦
          let same : c ≡ lf = ground arith in
          if_true _ _ e
          ∙ (ap (λ k. without_cr (k ∷ s)) same
              ∙ (without_cr-lf s ∙ sym (ap lines_without_cr (if_true _ _ e))))
      | inr e ↦
          let l = cr_lf_line (c ∷ s) in
          if_false _ _ e
          ∙ (ap (◌∷◌ b) more
              ∙ (longer-without_cr b l.text l.ends l.rest
                  ∙ sym (ap lines_without_cr (if_false _ _ e))))
    ]

-- The last line leaves nothing; another one leaves less.
abbrev pub Leaves : Text → Line → Type 0
Leaves s l = ((l.ends ≡ false) × (l.rest ≡ [])) ⊎ ((l.ends ≡ true) × (length l.rest < length s))

Leaves-if :
    (s : Text) (b : Bool) (x y : Line) → Leaves s x → Leaves s y → Leaves s (if b then x else y)
Leaves-if s true x y p q = p
Leaves-if s false x y p q = q

longer-Leaves : (b : ℕ) (s : Text) (l : Line) → Leaves s l → Leaves (b ∷ s) (longer b l)
longer-Leaves b s l (inl h) = inl h
longer-Leaves b s l (inr (e, h)) = inr (e, omega arith)

pub lf_line-Leaves : (s : Text) → Leaves s (lf_line s)
unfolding lf_line
lf_line-Leaves [] = inl (refl, refl)
lf_line-Leaves (b ∷ s) = Leaves-if (b ∷ s) (b == 0) (unsearched (b ∷ s)) _ (inl (refl, refl)) (
    Leaves-if (b ∷ s) (b == lf) (ended s) (longer b (lf_line s)) (inr (refl, omega arith))
      (longer-Leaves b s (lf_line s) (lf_line-Leaves s)))

pub cr_lf_line-Leaves : (s : Text) → Leaves s (cr_lf_line s)
unfolding cr_lf_line
cr_lf_line-Leaves [] = inl (refl, refl)
cr_lf_line-Leaves (b ∷ []) = inl (refl, refl)
cr_lf_line-Leaves (b ∷ (c ∷ s)) =
    Leaves-if (b ∷ (c ∷ s)) (b == 0) (unsearched (b ∷ (c ∷ s))) _ (inl (refl, refl)) (
      Leaves-if (b ∷ (c ∷ s)) (b == cr && c == lf) (ended s) (longer b (cr_lf_line (c ∷ s)))
        (inr (refl, omega arith))
        (longer-Leaves b (c ∷ s) (cr_lf_line (c ∷ s)) (cr_lf_line-Leaves (c ∷ s))))

last_of-append : (xs ys : Text) → last_of (xs ++ ys) ≡ last_from (last_of xs) ys
last_of-append [] [] = refl
last_of-append [] (y ∷ []) = refl
last_of-append [] (y ∷ (z ∷ ys)) = last_of-append [] (z ∷ ys)
last_of-append (x ∷ []) [] = refl
last_of-append (x ∷ []) (y ∷ ys) = last_of-append [] (y ∷ ys)
last_of-append (x ∷ (x' ∷ xs)) ys = last_of-append (x' ∷ xs) ys

last_from-line_end : (p last : ℕ) → last_from p (line_end newline_cr_lf last) ≡ lf
last_from-line_end p last = elim (Bool-cases (last == cr)) [
  | inl e ↦ ap (last_from p) (if_true _ _ e)
  | inr e ↦ ap (last_from p) (if_false _ _ e)
]

-- One round and what comes behind it.
pub put_line-with_cr :
    (out : Text) (t : Text) (ends : Bool) (r : Text)
    → let l : Line = record { text = t; ends = ends; rest = r } in
      (ends ≡ false → r ≡ [])
      → put_line newline_cr_lf l out ++ with_cr (last_of (put_line newline_cr_lf l out)) r
        ≡ out ++ lines_with_cr (last_of out) l
put_line-with_cr out t false r h =
    ap (λ k. (out ++ t) ++ with_cr (last_of (out ++ t)) k) (h refl) ∙ append-nil (out ++ t)
put_line-with_cr out t true r h =
    let end = line_end newline_cr_lf (last_of (out ++ t)) in
    let last : last_of ((out ++ t) ++ end) ≡ lf =
      last_of-append (out ++ t) end
      ∙ last_from-line_end (last_of (out ++ t)) (last_of (out ++ t)) in
    ap (λ k. ((out ++ t) ++ end) ++ with_cr k r) last
    ∙ (append_assoc (out ++ t) end (with_cr lf r)
        ∙ (append_assoc out t (end ++ with_cr lf r)
            ∙ ap (λ k. out ++ (t ++ (line_end newline_cr_lf k ++ with_cr lf r)))
                (last_of-append out t)))

pub put_line-without_cr :
    (out : Text) (t : Text) (ends : Bool) (r : Text)
    → let l : Line = record { text = t; ends = ends; rest = r } in
      (ends ≡ false → r ≡ [])
      → put_line newline_lf l out ++ without_cr r ≡ out ++ lines_without_cr l
put_line-without_cr out t false r h =
    ap (λ k. (out ++ t) ++ without_cr k) (h refl) ∙ append-nil (out ++ t)
put_line-without_cr out t true r h =
    append_assoc (out ++ t) (lf ∷ []) (without_cr r) ∙ append_assoc out t (lf ∷ without_cr r)
