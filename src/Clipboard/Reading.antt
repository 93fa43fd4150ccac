-- ===== src/Clipboard/Reading.antt =====
-- What `main_agent_handle_msg` of src/channel-main.c reads from a clipboard message.
use spice_gtk.Base.{
  ℕ, ◌+◌, ◌-◌, ◌*◌, ◌/◌, ◌^◌, ◌<◌, ◌≡◌, ◌⊎◌, refl, ap, ap₂, ◌∙◌, true, false, some, List, [], ◌∷◌,
  ◌++◌, append-nil, ltb, ◌==◌, arith, length, take, drop, length-append, take_all, drop_all,
  drop-append, if_true, if_false,
}
use spice_gtk.Agent.{Bytes}
use spice_gtk.Agent.Packets.{flatten}
use spice_gtk.Clipboard.{
  Protocol, Caps, Clip, notify, grab, request, release, Signal, clipboard_selection, clipboard_only,
  clipboard_selection_grab, clipboard_grab, clipboard_selection_request, clipboard_request,
  clipboard_selection_release, clipboard_release, below_max, words, read_words, signals, emit,
}

-- A word has four bytes and is read back; the numbers are words, and the types differ.
pub record IsProtocol (p : Protocol) : Type 0 where
  pub word_length : (n : ℕ) → length (p.word n) ≡ 4
  pub read_word : (n : ℕ) (rest : Bytes) → n < 2 ^ 32 → p.read_word (p.word n ++ rest) ≡ n
  pub version_fits : p.version < 2 ^ 32
  pub data_fits : p.data_type < 2 ^ 32
  pub grab_fits : p.grab_type < 2 ^ 32
  pub request_fits : p.request_type < 2 ^ 32
  pub release_fits : p.release_type < 2 ^ 32
  pub grab_data : (p.grab_type == p.data_type) ≡ false
  pub request_data : (p.request_type == p.data_type) ≡ false
  pub request_grab : (p.request_type == p.grab_type) ≡ false
  pub release_data : (p.release_type == p.data_type) ≡ false
  pub release_grab : (p.release_type == p.grab_type) ≡ false
  pub release_request : (p.release_type == p.request_type) ≡ false

abbrev pub AllWords : List ℕ → Type 0
AllWords [] = Unit {0}
AllWords (t ∷ types) = (t < 2 ^ 32) × AllWords types

-- The types are words, and the message is shorter than 4 GiB and the limit of the client.
abbrev pub Fits : Caps → Clip → Type 0
Fits c (notify type data') =
    (type < 2 ^ 32)
    × (length data' + 8 < 2 ^ 32)
    × (below_max (length data') c.max_clipboard ≡ true)
Fits c (grab types) = AllWords types × (4 * length types + 4 < 2 ^ 32)
Fits c (request type) = type < 2 ^ 32
Fits c release = Unit {0}

-- The selection can be named, or is the clipboard.
abbrev pub Named : Protocol → Caps → ℕ → Type 0
Named p c selection =
    ((c.selection ≡ true) × (selection < 2 ^ 8))
    ⊎ ((c.selection ≡ false) × (selection ≡ p.clipboard))

module _ (p : Protocol) where
  abbrev pub type_of : Clip → ℕ
  type_of (notify type data') = p.data_type
  type_of (grab types) = p.grab_type
  type_of (request type) = p.request_type
  type_of release = p.release_type

  -- The message behind the selection, and the data in a buffer of its own.
  abbrev pub body_of : Clip → Bytes
  body_of (notify type data') = p.word type
  body_of (grab types) = words p types
  body_of (request type) = p.word type
  body_of release = []

  abbrev pub data_of : Clip → List Bytes
  data_of (notify type data') = data' ∷ []
  data_of _ = []

  -- What the other side signals.
  abbrev pub received : ℕ → Clip → List Signal
  received s (notify type data') =
      signals p s (clipboard_selection s type data') (clipboard_only type data')
  received s (grab types) = signals p s (clipboard_selection_grab s types) (clipboard_grab types)
  received s (request type) =
      signals p s (clipboard_selection_request s type) (clipboard_request type)
  received s release = signals p s (clipboard_selection_release s) clipboard_release

  drop_word : IsProtocol p → (n : ℕ) (rest : Bytes) → drop 4 (p.word n ++ rest) ≡ rest
  drop_word v n rest =
      let len = v.word_length n in
      let no_rest : 4 - length (p.word n) ≡ 0 = omega arith in
      drop-append 4 (p.word n) rest
      ∙ rw no_rest (ap (λ b. b ++ rest) (drop_all 4 (p.word n) (omega arith)))

  pub length-words : IsProtocol p → (types : List ℕ) → length (words p types) ≡ 4 * length types
  length-words v [] = refl
  length-words v (t ∷ types) =
      let len = v.word_length t in
      let more = length-append (p.word t) (words p types) in
      let rest = length-words v types in omega arith

  read_words-words :
      IsProtocol p
      → (types : List ℕ) → AllWords types
      → read_words p (length types) (words p types) ≡ types
  read_words-words v [] a = refl
  read_words-words v (t ∷ types) (fits, a) =
      ap₂ (λ n ns. n ∷ ns) (v.read_word t (words p types) fits)
        (ap (read_words p (length types)) (drop_word v t (words p types))
          ∙ read_words-words v types a)

  pub same : (n : ℕ) → (n == n) ≡ true
  same n = ground arith

  pub emit_lem :
      (v : IsProtocol p) (c : Caps) (s : ℕ) (clip : Clip)
      → Fits c clip
      → let bytes = body_of clip ++ flatten (data_of clip) in
        emit p (type_of clip) s (length bytes) bytes ≡ some (received s clip)
  unfolding emit
  emit_lem v c s (notify type data') (fits, small, limit) =
      let bytes = p.word type ++ (data' ++ []) in
      let len = v.word_length type in
      let l = length-append (p.word type) (data' ++ []) in
      let l' = length-append data' [] in
      let long : ltb (length bytes) 4 ≡ false = ground arith in
      let rest : drop 4 bytes ≡ data' = drop_word v type (data' ++ []) ∙ append-nil data' in
      let all : take (length bytes - 4) (drop 4 bytes) ≡ data' =
        ap (take (length bytes - 4)) rest ∙ take_all (length bytes - 4) data' (omega arith) in
      if_true _ _ (same p.data_type)
      ∙ (if_false _ _ long
          ∙ ap₂ (λ t b. some (signals p s (clipboard_selection s t b) (clipboard_only t b)))
              (v.read_word type (data' ++ []) fits) all)
  emit_lem v c s (grab types) (fits, small) =
      let bytes = words p types ++ [] in
      let len = length-words v types in
      let n : length (words p types) / 4 ≡ length types = omega arith in
      let e = append-nil (words p types) in
      if_false _ _ v.grab_data
      ∙ (if_true _ _ (same p.grab_type)
          ∙ ap (λ ts. some (signals p s (clipboard_selection_grab s ts) (clipboard_grab ts)))
              (ap (λ b. read_words p (length b / 4) b) e
                ∙ (ap (λ k. read_words p k (words p types)) n ∙ read_words-words v types fits)))
  emit_lem v c s (request type) fits =
      let bytes = p.word type ++ [] in
      let len = v.word_length type in
      let l = length-append (p.word type) [] in
      let long : ltb (length bytes) 4 ≡ false = ground arith in
      if_false _ _ v.request_data
      ∙ (if_false _ _ v.request_grab
          ∙ (if_true _ _ (same p.request_type)
              ∙ (if_false _ _ long
                  ∙ ap
                      (λ t.
                        some (signals p s (clipboard_selection_request s t) (clipboard_request t)))
                      (v.read_word type [] fits))))
  emit_lem v c s release fits =
      if_false _ _ v.release_data ∙ (if_false _ _ v.release_grab ∙ if_false _ _ v.release_request)
