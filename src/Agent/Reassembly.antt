-- ===== src/Agent/Reassembly.antt =====
-- Messages from the agent in src/channel-main.c, put together from any packets.
use spice_gtk.Base.{
  ◌+◌, ◌-◌, ◌^◌, ◌≤◌, ◌<◌, ◌≡◌, refl, ap, sym, ◌∙◌, Option, none, some, List, [], ◌∷◌, ◌++◌,
  append-nil, append_assoc, ◌==◌, arith, length, take, drop, length-append, take-append,
  drop-append, take_all, drop_all, Bool-cases, inl, inr,
}
use spice_gtk.Agent.{Bytes, Header, IsHeader, Layout, IsLayout}
use spice_gtk.Agent.Receiving.{Partial, idle, Handled, handle_agent_data}
use spice_gtk.Agent.Packets.{flatten, Nonempty, Short}
use spice_gtk.Agent.Feed.{partial_of}
use spice_gtk.Agent.Rounds.{outcome_of, data_more, data_first}

abbrev join_handled : Option (Partial × Handled) → Handled → Option (Partial × Handled)
join_handled none ms = none
join_handled (some (p, ms')) ms = some (p, ms ++ ms')

module _ (l : Layout) where
  -- The packets one after the other; `none` is a packet that is read too far.
  unfoldable pub feed_all : Partial → List Bytes → Option (Partial × Handled)
  feed_all p [] = some (p, [])
  feed_all p (c ∷ cs) = elim (handle_agent_data l p c) [
    | none ↦ none
    | some (p', ms) ↦ join_handled (feed_all p' cs) ms
  ]

  -- What a prefix of a message says of its header and its length.
  prefix_head :
      (g r body : Bytes) (h : Header)
      → g ++ r ≡ l.write h ++ body
      → length (l.write h) ≡ l.head_size
      → l.read (l.write h) ≡ h
      → l.head_size ≤ length g
      → l.read (take l.head_size g) ≡ h
  prefix_head g r body h same size read past =
      let no_r : l.head_size - length g ≡ 0 = omega arith in
      let no_body : l.head_size - length (l.write h) ≡ 0 = omega arith in
      let a : take l.head_size (g ++ r) ≡ take l.head_size g =
        take-append l.head_size g r ∙ rw no_r (append-nil (take l.head_size g)) in
      let b : take l.head_size (l.write h ++ body) ≡ l.write h =
        take-append l.head_size (l.write h) body
        ∙ rw no_body (
            append-nil (take l.head_size (l.write h))
            ∙ take_all l.head_size (l.write h) (omega arith)) in
      ap l.read (sym a ∙ (ap (take l.head_size) same ∙ b)) ∙ read

  drop_head :
      (body : Bytes) (h : Header)
      → length (l.write h) ≡ l.head_size
      → drop l.head_size (l.write h ++ body) ≡ body
  drop_head body h size =
      let no_body : l.head_size - length (l.write h) ≡ 0 = omega arith in
      drop-append l.head_size (l.write h) body
      ∙ rw no_body (ap (λ t. t ++ body) (drop_all l.head_size (l.write h) (omega arith)))

  message_length :
      (g r body : Bytes) (h : Header)
      → g ++ r ≡ l.write h ++ body
      → length body ≡ h.size
      → length (l.write h) ≡ l.head_size
      → length g + length r ≡ l.head_size + h.size
  message_length g r body h same size head =
      let a = length-append g r in
      let b = length-append (l.write h) body in let e = ap length same in omega arith

  no_more : (cs : List Bytes) → Nonempty cs → length (flatten cs) ≡ 0 → cs ≡ []
  no_more [] n e = refl
  no_more (c ∷ cs) n e = let a = length-append c (flatten cs) in absurd (omega arith)

  -- Behind a packet, what the other packets do.
  after :
      (g : Bytes) (cs : List Bytes) (body : Bytes) (h : Header)
      → length g ≤ l.head_size + h.size
      → g ++ flatten cs ≡ l.write h ++ body
      → length body ≡ h.size
      → length (l.write h) ≡ l.head_size
      → Nonempty cs
      → (length g < l.head_size + h.size
          → feed_all (partial_of l g) cs ≡ some (idle, (h, body) ∷ []))
      → join_handled (feed_all (outcome_of l h g).state cs) (outcome_of l h g).handled
        ≡ some (idle, (h, body) ∷ [])
  unfolding feed_all
  after g cs body h within same size head n more =
      let len = message_length g (flatten cs) body h same size head in
      elim (Bool-cases (length g == l.head_size + h.size)) [
        | inl t ↦
            let done : length (flatten cs) ≡ 0 = ground arith in
            let end : cs ≡ [] = no_more cs n done in
            let whole : g ≡ l.write h ++ body =
              sym (append-nil g) ∙ (sym (ap (λ c. g ++ flatten c) end) ∙ same) in
            rw (t, end)
              (ap (λ b. some (idle, (h, b) ∷ []))
                (ap (drop l.head_size) whole ∙ drop_head body h head))
        | inr t ↦ rw t (ap (λ r. join_handled r []) (more (ground arith)))
      ]

  -- The rest of a message completes it.
  rest_of_message :
      (cs : List Bytes) (got body : Bytes) (h : Header)
      → l.head_size + h.size < 2 ^ 32
      → Short (2 ^ 31 - 1) cs
      → 0 < length got
      → length got < l.head_size + h.size
      → got ++ flatten cs ≡ l.write h ++ body
      → length body ≡ h.size
      → length (l.write h) ≡ l.head_size
      → l.read (l.write h) ≡ h
      → Nonempty cs
      → feed_all (partial_of l got) cs ≡ some (idle, (h, body) ∷ [])
  unfolding feed_all
  rest_of_message [] got body h narrow ints begun open' same size head read n =
      let len = message_length got [] body h same size head in absurd (omega arith)
  rest_of_message ([] ∷ cs) got body h narrow ints begun open' same size head read n =
      absurd (omega arith)
  rest_of_message ((x ∷ xs) ∷ cs) got body h narrow ints begun open' same size head read n =
      let g = got ++ (x ∷ xs) in
      let same' : g ++ flatten cs ≡ l.write h ++ body =
        append_assoc got (x ∷ xs) (flatten cs) ∙ same in
      let len = message_length g (flatten cs) body h same' size head in
      let lg = length-append got (x ∷ xs) in
      rw
        (
          data_more l got x xs h narrow (omega (arith, ints.0)) begun (omega arith)
              (prefix_head g (flatten cs) body h same' head read),
          feed_all,
        )
        (after g cs body h (omega arith) same' size head n.1 (λ lt.
          rest_of_message cs g body h narrow ints.1 (omega (arith, lg)) lt same' size head read
            n.1))

-- Whatever packets the agent cuts a message of less than 2 ^ 32 bytes, its header counted, into,
-- none of them empty or of 2 ^ 31 bytes or more and the first with room for the header, a client
-- between messages reads them without a fault, handles the message once, with its header and all its
-- data, and is between messages again; the header's fields are within their widths, and its size is
-- the length of the data.
pub feed_all-idle :
    (l : Layout) (h : Header) (c : Bytes) (cs : List Bytes) (body : Bytes)
    → IsLayout l
    → IsHeader h
    → l.head_size + h.size < 2 ^ 32
    → length body ≡ h.size
    → c ++ flatten cs ≡ l.write h ++ body
    → l.head_size ≤ length c
    → Nonempty cs
    → Short (2 ^ 31 - 1) (c ∷ cs)
    → feed_all l idle (c ∷ cs) ≡ some (idle, (h, body) ∷ [])
unfolding feed_all
feed_all-idle l h [] cs body v valid narrow size same opens n ints =
    let p = v.nonempty in absurd (omega arith)
feed_all-idle l h (x ∷ xs) cs body v valid narrow size same opens n ints =
    let head = v.write_length h in
    let read = v.read_write h valid in
    let c = x ∷ xs in
    let len = message_length l c (flatten cs) body h same size head in
    rw
      (
        data_first l x xs h narrow (omega (arith, ints.0)) v.nonempty opens (omega arith)
            (prefix_head l c (flatten cs) body h same head read opens),
        feed_all,
      )
      (after l c cs body h (omega arith) same size head n
        (λ lt. rest_of_message l cs c body h narrow ints.1 (omega arith) lt same size head read n))
