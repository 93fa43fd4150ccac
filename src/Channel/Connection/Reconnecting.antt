-- ===== src/Channel/Connection/Reconnecting.antt =====
-- How often the coroutine of src/spice-channel.c connects again by itself.
use spice_gtk.Base.{
  ℕ, ◌-◌, ◌<◌, ◌≡◌, ◌⊎◌, refl, ap, sym, ◌∙◌, subst, Bool, true, false, none, List, [], ◌∷◌, arith,
  length, inl, inr, if◌then◌else◌, Bool-cases, if_true, if_false,
}
use spice_gtk.Channel.Connection.{
  Connection, channel_connect, start_connect, connect_by, channel_reset, Replies, Progress, goes_on,
  waiting, cleanup,
}
use spice_gtk.Channel.Connection.Coroutine.{
  run_coroutine, reconnects, exit, finished, connect_delayed, attempts,
}
use spice_gtk.Channel.Connection.Attempt.{left_to_try, Known, Settled, Fine, run_coroutine-Fine}

module _ (version_major m : ℕ) where
  -- The next coroutine is to be started, with fewer changes left, or there is none.
  abbrev Ends : Connection → Type 0
  Ends c =
      (c.connect_delayed ≡ false)
      ⊎ ((reconnects c ≡ false) × Known version_major c × (left_to_try c < m))

  Ends-if :
      (b : Bool) (x y : Connection)
      → (b ≡ true → Ends x)
      → (b ≡ false → Ends y)
      → Ends (if b then x else y)
  Ends-if true x y p q = p refl
  Ends-if false x y p q = q refl

  connect_by-Ends :
      (provided : Bool) (c : Connection)
      → c.connect_delayed ≡ false
      → c.sock ≡ false
      → reconnects c ≡ false
      → Known version_major c
      → left_to_try c < m
      → let d = (connect_by provided none c).0 in Ends (record d { refs = d.refs - 1 })
  connect_by-Ends true c off no_sock s k l = inl off
  connect_by-Ends false c off no_sock s k l = elim (Bool-cases c.sock) [
    | inl e ↦ absurd (let t : true ≡ false = sym e ∙ no_sock in cc t)
    | inr e ↦
        subst (λ b. let d = (start_connect b c).0 in Ends (record d { refs = d.refs - 1 })) (sym e)
          (inr (s, k, l))
  ]

  exit-Ends : (c : Connection) → Fine version_major m (cleanup c) → Ends (exit c)
  unfolding exit channel_connect channel_reset
  exit-Ends c (inl s) =
      Ends-if (reconnects c) _ _ (λ e. absurd (let t : true ≡ false = sym e ∙ s in cc t))
        (λ e. inl refl)
  exit-Ends c (inr (k, l)) =
      Ends-if (reconnects c) _ _
        (λ e. connect_by-Ends c.client_provided_socket _ refl refl refl k l) (λ e. inl refl)

  finished-Ends : (p : Progress) → Fine version_major m p → Ends (finished p)
  finished-Ends (goes_on c) f = inl f.1
  finished-Ends (waiting c) f = inl f
  finished-Ends (cleanup c) f = exit-Ends c f

-- Once no coroutine is to be started, none is.
attempts-idle :
    (version_major : ℕ) (rs : List Replies) (c : Connection)
    → c.connect_delayed ≡ false
    → (attempts version_major rs c).connect_delayed ≡ false
unfolding attempts
attempts-idle version_major [] c e = e
attempts-idle version_major (r ∷ rs) c e =
    ap (λ (d : Connection). d.connect_delayed) (if_false _ _ e) ∙ e

abbrev pub AllSettled : List Replies → Type 0
AllSettled [] = Unit {0}
AllSettled (r ∷ rs) = Settled r × AllSettled rs

-- With a protocol that the client knows, a server that does not ask for TLS where it is used, and
-- handlers that do not switch hosts, a channel connects again by itself no more often than there is
-- left to try: the oldest protocol and TLS, so that a third coroutine is the last.
pub attempts-end :
    (version_major : ℕ) (rs : List Replies) (c : Connection)
    → AllSettled rs
    → Known version_major c
    → reconnects c ≡ false
    → left_to_try c < length rs
    → (attempts version_major rs c).connect_delayed ≡ false
unfolding attempts connect_delayed
attempts-end version_major [] c v k s l = absurd (omega arith)
attempts-end version_major (r ∷ rs) c (v, vs) k s l = elim (Bool-cases c.connect_delayed) [
  | inr e ↦ ap (λ (d : Connection). d.connect_delayed) (if_false _ _ e) ∙ e
  | inl e ↦
      let c0 : Connection = record c { connect_delayed = false } in
      let d = finished (run_coroutine version_major r c0) in
      let f = run_coroutine-Fine version_major (left_to_try c) r c0 v (s, refl, k, omega arith) in
      ap (λ (d : Connection). d.connect_delayed) (if_true _ _ e)
      ∙ elim (finished-Ends version_major (left_to_try c) (run_coroutine version_major r c0) f) [
        | inl off ↦ attempts-idle version_major rs d off
        | inr (s', k', l') ↦ attempts-end version_major rs d vs k' s' (omega arith)
      ]
]
