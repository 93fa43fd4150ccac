-- ===== src/Agent/Rounds.antt =====
-- What one packet of a message from the agent leaves, of `main_handle_agent_data` in src/channel-main.c.
use spice_gtk.Base.{
  ℕ, zero, suc, ◌+◌, ◌^◌, ◌&&◌, ◌≤◌, ◌<◌, ◌≡◌, refl, ap, sym, ◌∙◌, true, false, some, [], ◌∷◌, ◌++◌,
  ltb, leb, ◌==◌, if◌then◌else◌, arith, length, take, drop, length-append, take_all, Bool-cases,
  if_true, if_false, inl, inr, ltb→lt,
}
use spice_gtk.Agent.{Bytes, Header, Layout}
use spice_gtk.Agent.Receiving.{
  Partial, idle, Fed, feed_head, head_fails, feed_body, complete, handle_agent_data_msg, feed_loop,
  handle_agent_data,
}
use spice_gtk.Agent.Feed.{partial_of, fed_short, fed_cross, fed_body, fed_rest}

module _ (l : Layout) where
  -- What a packet of a message leaves and completes.
  abbrev pub outcome_of : Header → Bytes → Fed
  outcome_of h got =
      if length got == l.head_size + h.size
      then record { state = idle; left = []; handled = (h, drop l.head_size got) ∷ [] }
      else record { state = partial_of l got; left = []; handled = [] }

  completed :
      (got : Bytes) (h : Header)
      → l.head_size ≤ length got
      → l.read (take l.head_size got) ≡ h
      → complete l (partial_of l got) [] ≡ outcome_of h got
  unfolding complete
  completed got h past head =
      let now : leb l.head_size (length got) ≡ true = ground arith in rw (head, now) refl

  not_completed :
      (got : Bytes) (h : Header)
      → length got < l.head_size
      → complete l (partial_of l got) [] ≡ outcome_of h got
  unfolding complete
  not_completed got h short =
      let a : (length got == l.head_size + (l.read (take l.head_size got)).size) ≡ false =
        ground arith in
      let b : (length got == l.head_size + h.size) ≡ false = ground arith in
      if_false _ _ a ∙ sym (if_false _ _ b)

  unfed :
      (got : Bytes)
      → leb l.head_size (length got) ≡ false
      → feed_body l (partial_of l got) [] ≡ (partial_of l got, [])
  unfolding feed_body
  unfed got was = if_false _ _ was

  short_body :
      (got c : Bytes)
      → length got + length c < l.head_size
      → (h : Header)
      → let r = feed_body l (partial_of l (got ++ c)) [] in
        complete l r.0 r.1 ≡ outcome_of h (got ++ c)
  short_body got c short h =
      let len = length-append got c in
      let was : leb l.head_size (length (got ++ c)) ≡ false = ground arith in
      rw (unfed (got ++ c) was) (not_completed (got ++ c) h (omega (arith, len)))

  -- A packet behind the header passes the first part untouched.
  skip :
      (got c : Bytes)
      → l.head_size ≤ length got
      → feed_head l (partial_of l got) c ≡ (partial_of l got, c)
  unfolding feed_head
  skip got c there =
      let past : ltb (length got) l.head_size ≡ false = ground arith in if_false _ _ past

  -- The data of a message is not there before its header is complete.
  head_fails_lem : (got : Bytes) (p : Partial) → head_fails l (partial_of l got) p ≡ false
  unfolding head_fails
  head_fails_lem got p = elim (Bool-cases (ltb (length got) l.head_size)) [
    | inl t ↦
        let short = ltb→lt _ _ t in
        let was : leb l.head_size (length got) ≡ false = ground arith in rw was (ground arith)
    | inr t ↦ rw t refl
  ]

  fed_msg :
      (got c : Bytes) (h : Header)
      → l.head_size + h.size < 2 ^ 32
      → length got + length c ≤ l.head_size + h.size
      → (l.head_size ≤ length (got ++ c) → l.read (take l.head_size (got ++ c)) ≡ h)
      → handle_agent_data_msg l (partial_of l got) c ≡ outcome_of h (got ++ c)
  unfolding handle_agent_data_msg
  fed_msg got c h narrow fits known =
      let len = length-append got c in
      let narrow' : l.head_size < 2 ^ 32 = omega arith in
      if_false _ _ (head_fails_lem got (feed_head l (partial_of l got) c).0)
      ∙ elim (Bool-cases (ltb (length got + length c) l.head_size)) [
        | inl t ↦
            let short = ltb→lt _ _ t in
            rw (fed_short l got c short narrow') (short_body got c short h)
        | inr t ↦
            let past : l.head_size ≤ length got + length c = ground arith in
            let head = known (omega (arith, len)) in
            elim (Bool-cases (ltb (length got) l.head_size)) [
              | inl u ↦
                  let before = ltb→lt _ _ u in
                  rw (fed_cross l got c before past narrow') (
                    rw (fed_rest l got c h before past fits narrow head)
                      (completed (got ++ c) h (omega (arith, len)) head))
              | inr u ↦
                  let there : l.head_size ≤ length got = ground arith in
                  rw (skip got c there) (
                    rw (fed_body l got c h there fits narrow head)
                      (completed (got ++ c) h (omega (arith, len)) head))
            ]
      ]

  loop_empty : (fuel : ℕ) (p : Partial) → feed_loop l fuel p [] ≡ (p, [])
  unfolding feed_loop
  loop_empty zero p = refl
  loop_empty (suc fuel) p = refl

  -- The loop ends after one round, which takes the whole packet.
  one_round :
      (got : Bytes) (x : ℕ) (xs : Bytes) (h : Header)
      → l.head_size + h.size < 2 ^ 32
      → length got + length (x ∷ xs) ≤ l.head_size + h.size
      → (l.head_size ≤ length (got ++ (x ∷ xs)) → l.read (take l.head_size (got ++ (x ∷ xs))) ≡ h)
      → feed_loop l (length (x ∷ xs)) (partial_of l got) (x ∷ xs)
        ≡ ((outcome_of h (got ++ (x ∷ xs))).state, (outcome_of h (got ++ (x ∷ xs))).handled)
  unfolding feed_loop
  one_round got x xs h narrow fits known =
      let more : (suc (length xs) == 0) ≡ false = ground arith in
      if_false _ _ more
      ∙ rw (fed_msg got (x ∷ xs) h narrow fits known)
          (elim (Bool-cases (length (got ++ (x ∷ xs)) == l.head_size + h.size)) [
            | inl t ↦ rw (t, loop_empty) refl
            | inr t ↦ rw (t, loop_empty) refl
          ])

  idle_lem : 0 < l.head_size → idle ≡ partial_of l []
  idle_lem pos =
      let none_yet : leb l.head_size 0 ≡ false = ground arith in
      let nothing : Bytes = [] in
      let m : take l.head_size nothing ≡ nothing = take_all l.head_size nothing (omega arith) in
      rw (none_yet, m) refl

  pub data_more :
      (got : Bytes) (x : ℕ) (xs : Bytes) (h : Header)
      → l.head_size + h.size < 2 ^ 32
      → length (x ∷ xs) < 2 ^ 31
      → 0 < length got
      → length got + length (x ∷ xs) ≤ l.head_size + h.size
      → (l.head_size ≤ length (got ++ (x ∷ xs)) → l.read (take l.head_size (got ++ (x ∷ xs))) ≡ h)
      → handle_agent_data l (partial_of l got) (x ∷ xs)
        ≡ some ((outcome_of h (got ++ (x ∷ xs))).state, (outcome_of h (got ++ (x ∷ xs))).handled)
  unfolding handle_agent_data
  data_more got x xs h narrow int begun fits known =
      let e : (length got == 0) ≡ false = ground arith in
      let positive : ltb (suc (length xs)) (2 ^ 31) ≡ true = ground arith in
      if_false _ _ e ∙ ap some (if_true _ _ positive ∙ one_round got x xs h narrow fits known)

  pub data_first :
      (x : ℕ) (xs : Bytes) (h : Header)
      → l.head_size + h.size < 2 ^ 32
      → length (x ∷ xs) < 2 ^ 31
      → 0 < l.head_size
      → l.head_size ≤ length (x ∷ xs)
      → length (x ∷ xs) ≤ l.head_size + h.size
      → l.read (take l.head_size (x ∷ xs)) ≡ h
      → handle_agent_data l idle (x ∷ xs)
        ≡ some ((outcome_of h (x ∷ xs)).state, (outcome_of h (x ∷ xs)).handled)
  unfolding handle_agent_data
  data_first x xs h narrow int pos opens fits known =
      let long : ltb (suc (length xs)) l.head_size ≡ false = ground arith in
      let positive : ltb (suc (length xs)) (2 ^ 31) ≡ true = ground arith in
      if_false _ _ long ∙ elim (Bool-cases (h.size + l.head_size == suc (length xs))) [
        | inl t ↦
            let whole : (suc (length xs) == l.head_size + h.size) ≡ true = ground arith in
            rw (known, t, positive, whole) refl
        | inr t ↦
            let u : ((l.read (take l.head_size (x ∷ xs))).size + l.head_size == suc (length xs)
                  && ltb (suc (length xs)) (2 ^ 31))
                ≡ false =
              rw (known, t) refl in
            if_false _ _ u
            ∙ ap some (
                if_true _ _ positive
                ∙ (ap (λ p. feed_loop l (suc (length xs)) p (x ∷ xs)) (idle_lem pos)
                    ∙ one_round [] x xs h narrow (omega arith) (λ _. known)))
      ]
