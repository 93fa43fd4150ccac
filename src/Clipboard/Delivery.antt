-- ===== src/Clipboard/Delivery.antt =====
-- Clipboard messages of src/channel-main.c from one end of the transport to the other.
use spice_gtk.Base.{
  ℕ, ◌+◌, ◌-◌, ◌%◌, ◌^◌, ◌<◌, ◌≡◌, inl, inr, subst, ap, ap₂, sym, ◌∙◌, Bool, true, false, ◌&&◌,
  some, List, [], ◌∷◌, ◌++◌, append-nil, ltb, ◌==◌, arith, length, length-append, if_true, if_false,
}
use spice_gtk.Agent.{Bytes, Header, Layout, IsLayout}
use spice_gtk.Agent.Cutting.{header_for, total, agent_msg_queue_many}
use spice_gtk.Agent.Receiving.{idle}
use spice_gtk.Agent.Packets.{flatten, total-flatten}
use spice_gtk.Agent.Reassembly.{feed_all}
use spice_gtk.Agent.Chunks.{queue_many-feed_all}
use spice_gtk.Clipboard.{
  Protocol, Caps, Clip, notify, grab, request, release, below_max, words, with_selection, to_queue,
  clipboard_notify_msg, clipboard_grab_msg, clipboard_request_msg, clipboard_release_msg, send,
  emit, is_clipboard, handle_clipboard_msg,
}
use spice_gtk.Clipboard.Reading.{
  IsProtocol, Fits, Named, type_of, body_of, data_of, received, length-words, emit_lem,
}

module _ (p : Protocol) (v : IsProtocol p) (c : Caps) where
  abbrev prefix : Bool → ℕ → Bytes
  prefix true s = s % 2 ^ 8 ∷ (0 ∷ (0 ∷ (0 ∷ [])))
  prefix false s = []

  abbrev buffers : Bool → ℕ → Clip → List Bytes
  buffers b s clip = (prefix b s ++ body_of p clip) ∷ data_of p clip

  with_selection_lem :
      (s : ℕ) (body : Bytes)
      → Named p c s
      → with_selection p c s body ≡ some (prefix c.selection s ++ body)
  unfolding with_selection
  with_selection_lem s body (inl (cap, small)) =
      if_true _ _ cap ∙ ap (λ b. some (prefix b s ++ body)) (sym cap)
  with_selection_lem s body (inr (cap, e)) =
      let clip : (s == p.clipboard) ≡ true = ground arith in
      if_false _ _ cap ∙ (if_true _ _ clip ∙ ap (λ b. some (prefix b s ++ body)) (sym cap))

  send_lem :
      (s : ℕ) (clip : Clip)
      → c.agent_connected ≡ true
      → c.by_demand ≡ true
      → Named p c s
      → Fits c clip
      → send p c s clip ≡ some (type_of p clip, buffers c.selection s clip)
  unfolding clipboard_notify_msg clipboard_grab_msg clipboard_request_msg clipboard_release_msg
  send_lem s (notify type data') connected demand named (fits, small, limit) =
      let go : (c.agent_connected && c.by_demand && below_max (length data') c.max_clipboard)
          ≡ true =
        ground arith in
      if_true _ _ go
      ∙ ap (to_queue p p.data_type (data' ∷ [])) (with_selection_lem s (p.word type) named)
  send_lem s (grab types) connected demand named fits =
      let go : (c.agent_connected && c.by_demand) ≡ true = ground arith in
      if_true _ _ go ∙ ap (to_queue p p.grab_type []) (with_selection_lem s (words p types) named)
  send_lem s (request type) connected demand named fits =
      let go : (c.agent_connected && c.by_demand) ≡ true = ground arith in
      if_true _ _ go ∙ ap (to_queue p p.request_type []) (with_selection_lem s (p.word type) named)
  send_lem s release connected demand named fits =
      let go : (c.agent_connected && c.by_demand) ≡ true = ground arith in
      if_true _ _ go ∙ ap (to_queue p p.release_type []) (with_selection_lem s [] named)

  type_fits : (clip : Clip) → type_of p clip < 2 ^ 32
  type_fits (notify type data') = v.data_fits
  type_fits (grab types) = v.grab_fits
  type_fits (request type) = v.request_fits
  type_fits release = v.release_fits

  is_clipboard_lem :
      (clip : Clip) → (p.version == p.version && is_clipboard p (type_of p clip)) ≡ true
  is_clipboard_lem (notify type data') = ground arith
  is_clipboard_lem (grab types) = ground arith
  is_clipboard_lem (request type) = ground arith
  is_clipboard_lem release = ground arith

  small_message :
      (clip : Clip) → Fits c clip → length (body_of p clip ++ flatten (data_of p clip)) + 4 < 2 ^ 32
  small_message (notify type data') (fits, small, limit) =
      let len = v.word_length type in
      let l = length-append (p.word type) (data' ++ []) in
      let l' = ap length (append-nil data') in omega arith
  small_message (grab types) (fits, small) =
      let len = length-words p v types in
      let l = ap length (append-nil (words p types)) in omega arith
  small_message (request type) fits =
      let len = v.word_length type in let l = ap length (append-nil (p.word type)) in omega arith
  small_message release fits = omega arith

  -- The message without a selection.
  handle_plain :
      (h : Header) (bytes : Bytes)
      → ((h.protocol == p.version) && is_clipboard p h.kind) ≡ true
      → handle_clipboard_msg p false h bytes ≡ emit p h.kind p.clipboard h.size bytes
  unfolding handle_clipboard_msg
  handle_plain h [] e = if_true _ _ e
  handle_plain h (b ∷ bytes) e = if_true _ _ e

  abbrev header : Bool → ℕ → Clip → Header
  header b s clip = header_for p.version (type_of p clip) (buffers b s clip)

  total_small : (b : Bool) (s : ℕ) (clip : Clip) → Fits c clip → total (buffers b s clip) < 2 ^ 32
  total_small true s clip fits =
      let all = total-flatten (buffers true s clip) in
      let small = small_message clip fits in omega arith
  total_small false s clip fits =
      let all = total-flatten (buffers false s clip) in
      let small = small_message clip fits in omega arith

  total_narrow :
      (n : ℕ) (b : Bool) (s : ℕ) (clip : Clip)
      → n + length (body_of p clip ++ flatten (data_of p clip)) + 4 < 2 ^ 32
      → n + total (buffers b s clip) < 2 ^ 32
  total_narrow n true s clip narrow = let all = total-flatten (buffers true s clip) in omega arith
  total_narrow n false s clip narrow = let all = total-flatten (buffers false s clip) in omega arith

  size_lem :
      (b : Bool) (s : ℕ) (clip : Clip)
      → Fits c clip
      → (header b s clip).size ≡ length (flatten (buffers b s clip))
  size_lem b s clip fits =
      let all = total-flatten (buffers b s clip) in
      let small = total_small b s clip fits in
      let no_wrap : total (buffers b s clip) % 2 ^ 32 ≡ total (buffers b s clip) = ground arith in
      no_wrap ∙ sym all

  handle_named :
      (s : ℕ) (clip : Clip)
      → s < 2 ^ 8
      → Fits c clip
      → handle_clipboard_msg p true (header true s clip) (flatten (buffers true s clip))
        ≡ some (received p s clip)
  unfolding handle_clipboard_msg
  handle_named s clip byte fits =
      let bytes = body_of p clip ++ flatten (data_of p clip) in
      let size = size_lem true s clip fits in
      let long : ltb (header true s clip).size 4 ≡ false = ground arith in
      let selection : s % 2 ^ 8 ≡ s = ground arith in
      let left : (header true s clip).size - 4 ≡ length bytes = omega arith in
      if_true _ _ (is_clipboard_lem clip)
      ∙ (if_false _ _ long
          ∙ (ap₂ (λ t n. emit p (type_of p clip) t n bytes) selection left
              ∙ emit_lem p v c s clip fits))

  handle_bare :
      (s : ℕ) (clip : Clip)
      → s ≡ p.clipboard
      → Fits c clip
      → handle_clipboard_msg p false (header false s clip) (flatten (buffers false s clip))
        ≡ some (received p s clip)
  handle_bare s clip e fits =
      let bytes = body_of p clip ++ flatten (data_of p clip) in
      handle_plain (header false s clip) bytes (is_clipboard_lem clip)
      ∙ (ap₂ (λ t n. emit p (type_of p clip) t n bytes) (sym e) (size_lem false s clip fits)
          ∙ emit_lem p v c s clip fits)

  handle_lem :
      (s : ℕ) (clip : Clip)
      → Named p c s
      → Fits c clip
      → handle_clipboard_msg p c.selection
          (header c.selection s clip)
          (flatten (buffers c.selection s clip))
        ≡ some (received p s clip)
  handle_lem s clip (inl (cap, byte)) fits =
      subst
        (λ b.
          handle_clipboard_msg p b (header b s clip) (flatten (buffers b s clip))
          ≡ some (received p s clip))
        (sym cap) (handle_named s clip byte fits)
  handle_lem s clip (inr (cap, e)) fits =
      subst
        (λ b.
          handle_clipboard_msg p b (header b s clip) (flatten (buffers b s clip))
          ≡ some (received p s clip))
        (sym cap) (handle_bare s clip e fits)

-- A clipboard message of either client reaches the other side of the transport: it is sent, its
-- packets are put together to one message, and reading that gives the signals of the same selection,
-- types and data, once more for the clipboard itself. Both sides agree on naming selections, and
-- without that only the clipboard is sent; the message fits the limits, and with the header and a
-- selection it is shorter than 2 ^ 32 bytes.
pub clip-delivered :
    (l : Layout) (p : Protocol) (c : Caps) (s : ℕ) (clip : Clip)
    → IsLayout l
    → IsProtocol p
    → c.agent_connected ≡ true
    → c.by_demand ≡ true
    → Named p c s
    → Fits c clip
    → l.head_size + length (body_of p clip ++ flatten (data_of p clip)) + 4 < 2 ^ 32
    → (sent : ℕ × List Bytes) × (h : Header) × (payload : Bytes) × (send p c s clip ≡ some sent)
      × (feed_all l idle (agent_msg_queue_many l p.version sent.0 sent.1).queued
          ≡ some (idle, (h, payload) ∷ []))
      × (handle_clipboard_msg p c.selection h payload ≡ some (received p s clip))
clip-delivered l p c s clip layout v connected demand named fits narrow =
    let ds = buffers p v c c.selection s clip in
    (
      (type_of p clip, ds),
      header p v c c.selection s clip,
      flatten ds,
      send_lem p v c s clip connected demand named fits,
      queue_many-feed_all l p.version (type_of p clip) ds layout v.version_fits
          (type_fits p v c clip) (total_narrow p v c l.head_size c.selection s clip narrow),
      handle_lem p v c s clip named fits,
    )
