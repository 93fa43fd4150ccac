-- ===== src/Agent/Feed.antt =====
-- One packet of a message from the agent: its header and its data, of `main_handle_agent_data_msg` in src/channel-main.c.
use spice_gtk.Base.{
  ℕ, ◌+◌, ◌-◌, ◌%◌, ◌^◌, ◌≤◌, ◌<◌, ◌≡◌, refl, min, ap, sym, ◌∙◌, true, false, Option, none, some,
  [], ◌++◌, append-nil, ltb, leb, ◌==◌, if◌then◌else◌, arith, length, take, drop, length-append,
  length-drop, length-take, take-append, drop-append, take_all, drop_all, if_true,
}
use spice_gtk.Agent.{Bytes, Header, Layout}
use spice_gtk.Agent.Receiving.{Partial, feed_head, feed_body}

pub same_state :
    (p q : Partial) (b c : Bytes)
    → p.agent_msg ≡ q.agent_msg
    → p.agent_msg_data ≡ q.agent_msg_data
    → p.agent_msg_pos ≡ q.agent_msg_pos
    → b ≡ c
    → ◌≡◌ {A = Partial × Bytes} (p, b) (q, c)
same_state p q b c m d n e = cc

pub ==_self : (n : ℕ) → (n == n) ≡ true
==_self n = ground arith

module _ (l : Layout) where
  abbrev pub body_of : Bytes → Option Bytes
  body_of got = if leb l.head_size (length got) then some (drop l.head_size got) else none

  -- The state behind the first bytes of a message.
  abbrev pub partial_of : Bytes → Partial
  partial_of got = record {
    agent_msg = take l.head_size got;
    agent_msg_data = body_of got;
    agent_msg_pos = length got;
  }

  pub fed_short :
      (got c : Bytes)
      → length got + length c < l.head_size
      → l.head_size < 2 ^ 32
      → feed_head l (partial_of got) c ≡ (partial_of (got ++ c), [])
  unfolding feed_head
  fed_short got c short narrow =
      let n : min (l.head_size - length got) (length c) ≡ length c = omega arith in
      let len = length-append got c in
      let before : ltb (length got) l.head_size ≡ true = ground arith in
      let wrap : (length got + length c) % 2 ^ 32 ≡ length got + length c = omega arith in
      let had : take (length got) (take l.head_size got) ≡ take l.head_size got =
        take_all (length got) (take l.head_size got) (omega (arith, length-take l.head_size got)) in
      let still : (length got + length c == l.head_size) ≡ false = ground arith in
      let was : leb l.head_size (length got) ≡ false = ground arith in
      let now : leb l.head_size (length (got ++ c)) ≡ false = ground arith in
      if_true _ _ before
      ∙ rw (n, wrap, had, still, was, now)
          (same_state _ _ _ _
            (ap (λ t. take l.head_size got ++ t)
                (take_all (length c) c (omega arith)
                  ∙ sym (take_all (l.head_size - length got) c (omega arith)))
              ∙ sym (take-append l.head_size got c))
            refl (sym len) (drop_all (length c) c (omega arith)))

  pub fed_cross :
      (got c : Bytes)
      → length got < l.head_size
      → l.head_size ≤ length got + length c
      → l.head_size < 2 ^ 32
      → feed_head l (partial_of got) c ≡ (
        record {
          agent_msg = take l.head_size (got ++ c);
          agent_msg_data = some [];
          agent_msg_pos = l.head_size;
        },
        drop (l.head_size - length got) c,
      )
  unfolding feed_head
  fed_cross got c before after narrow =
      let n : min (l.head_size - length got) (length c) ≡ l.head_size - length got = omega arith in
      let less : ltb (length got) l.head_size ≡ true = ground arith in
      let full : (length got + (l.head_size - length got)) % 2 ^ 32 ≡ l.head_size = omega arith in
      let had : take (length got) (take l.head_size got) ≡ take l.head_size got =
        take_all (length got) (take l.head_size got) (omega (arith, length-take l.head_size got)) in
      let was : leb l.head_size (length got) ≡ false = ground arith in
      if_true _ _ less
      ∙ rw (n, full, had, was, ==_self l.head_size)
          (refl ∙ same_state _ _ _ _ (sym (take-append l.head_size got c)) refl refl refl)

  pub fed_body :
      (got c : Bytes) (h : Header)
      → l.head_size ≤ length got
      → length got + length c ≤ l.head_size + h.size
      → l.head_size + h.size < 2 ^ 32
      → l.read (take l.head_size (got ++ c)) ≡ h
      → feed_body l (partial_of got) c ≡ (partial_of (got ++ c), [])
  unfolding feed_body
  fed_body got c h past fits narrow head =
      let none_left : l.head_size - length got ≡ 0 = omega arith in
      let m : take l.head_size (got ++ c) ≡ take l.head_size got =
        take-append l.head_size got c ∙ rw none_left (append-nil (take l.head_size got)) in
      let d : drop l.head_size (got ++ c) ≡ drop l.head_size got ++ c =
        drop-append l.head_size got c ∙ rw none_left refl in
      let size : l.read (take l.head_size got) ≡ h = ap l.read (sym m) ∙ head in
      let n : min (l.head_size + h.size - length got) (length c) ≡ length c = omega arith in
      let len = length-append got c in
      let was : leb l.head_size (length got) ≡ true = ground arith in
      let now : leb l.head_size (length (got ++ c)) ≡ true = ground arith in
      let wrap : (length got + length c) % 2 ^ 32 ≡ length got + length c = omega arith in
      let had : take (length got - l.head_size) (drop l.head_size got) ≡ drop l.head_size got =
        take_all (length got - l.head_size) (drop l.head_size got)
          (omega (arith, length-drop l.head_size got)) in
      if_true _ _ was
      ∙ rw (size, n, wrap, was, now, had)
          (same_state _ _ _ _ (sym m)
            (ap some
              (ap (λ t. drop l.head_size got ++ t) (take_all (length c) c (omega arith)) ∙ sym d))
            (sym len) (drop_all (length c) c (omega arith)))

  pub fed_rest :
      (got c : Bytes) (h : Header)
      → length got < l.head_size
      → l.head_size ≤ length got + length c
      → length got + length c ≤ l.head_size + h.size
      → l.head_size + h.size < 2 ^ 32
      → l.read (take l.head_size (got ++ c)) ≡ h
      → feed_body l
          (record {
            agent_msg = take l.head_size (got ++ c);
            agent_msg_data = some [];
            agent_msg_pos = l.head_size;
          })
          (drop (l.head_size - length got) c)
        ≡ (partial_of (got ++ c), [])
  unfolding feed_body
  fed_rest got c h before after fits narrow head =
      let b = drop (l.head_size - length got) c in
      let lb : length b ≡ length c - (l.head_size - length got) =
        length-drop (l.head_size - length got) c in
      let n : min (l.head_size + h.size - l.head_size) (length b) ≡ length b = omega (arith, lb) in
      let len = length-append got c in
      let now : leb l.head_size (length (got ++ c)) ≡ true = ground arith in
      let self : leb l.head_size l.head_size ≡ true = ground arith in
      let d : drop l.head_size (got ++ c) ≡ b =
        drop-append l.head_size got c ∙ ap (λ t. t ++ b) (drop_all l.head_size got (omega arith)) in
      let wrap : (l.head_size + length b) % 2 ^ 32 ≡ l.head_size + length b = omega (arith, lb) in
      let nothing : Bytes = [] in
      let had : take (l.head_size - l.head_size) nothing ≡ nothing =
        take_all (l.head_size - l.head_size) nothing (omega arith) in
      if_true _ _ self
      ∙ rw (head, n, wrap, now, had)
          (same_state _ _ _ _ refl (ap some (take_all (length b) b (omega arith) ∙ sym d))
            (omega (arith, lb, len)) (drop_all (length b) b (omega arith)))
