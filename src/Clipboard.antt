-- ===== src/Clipboard.antt =====
-- src/channel-main.c: the clipboard messages, as they are sent to the agent and as they are read from
-- it. The numbers of spice-protocol and the four bytes of a word in memory are parameters.
pub mod Delivery
pub mod Reading
use spice_gtk.Base.{
  ℕ, zero, suc, ◌+◌, ◌-◌, ◌/◌, ◌%◌, ◌^◌, ◌<◌, ◌≡◌, ◌≢◌, Bool, true, false, not, ◌&&◌, ◌||◌, Option,
  none, some, List, [], ◌∷◌, ◌++◌, ltb, ◌==◌, if◌then◌else◌, length, take, drop,
}
use spice_gtk.Agent.{Bytes, Header}

-- VD_AGENT_PROTOCOL, the types of the messages, VD_AGENT_CLIPBOARD_SELECTION_CLIPBOARD, and a `uint32_t`.
pub record Protocol : Type 0 where
  pub version : ℕ
  pub data_type : ℕ
  pub grab_type : ℕ
  pub request_type : ℕ
  pub release_type : ℕ
  pub clipboard : ℕ
  pub word : ℕ → Bytes
  pub read_word : Bytes → ℕ

-- What the agent can do, and the largest clipboard, which is `none` for the -1 of the source.
pub record Caps : Type 0 where
  pub agent_connected : Bool
  pub by_demand : Bool
  pub selection : Bool
  pub max_clipboard : Option ℕ

-- A clipboard message of a selection.
pub data Clip : Type 0 where
  notify : (type : ℕ) (data' : Bytes) → Clip
  grab : (types : List ℕ) → Clip
  request : (type : ℕ) → Clip
  release : Clip

-- The signals; those without a selection are for the clipboard itself.
pub data Signal : Type 0 where
  clipboard_selection : (selection type : ℕ) (data' : Bytes) → Signal
  clipboard_only : (type : ℕ) (data' : Bytes) → Signal
  clipboard_selection_grab : (selection : ℕ) (types : List ℕ) → Signal
  clipboard_grab : (types : List ℕ) → Signal
  clipboard_selection_request : (selection type : ℕ) → Signal
  clipboard_request : (type : ℕ) → Signal
  clipboard_selection_release : (selection : ℕ) → Signal
  clipboard_release : Signal

abbrev pub below_max : ℕ → Option ℕ → Bool
below_max size none = true
below_max size (some limit) = ltb size limit

module _ (p : Protocol) where
  abbrev pub words : List ℕ → Bytes
  words [] = []
  words (t ∷ types) = p.word t ++ words types

  -- The message of `msgsize` bytes in front of the data; none without the capability for the selection.
  unfoldable pub with_selection : Caps → ℕ → Bytes → Option Bytes
  with_selection c selection body =
      if c.selection
      then some ((selection % 2 ^ 8 ∷ (0 ∷ (0 ∷ (0 ∷ [])))) ++ body)
      else (if selection == p.clipboard then some body else none)

  -- A message's type and buffers, for `agent_msg_queue_many`.
  abbrev pub to_queue : ℕ → List Bytes → Option Bytes → Option (ℕ × List Bytes)
  to_queue type more none = none
  to_queue type more (some msg) = some (type, msg ∷ more)

  unfoldable pub clipboard_notify_msg : Caps → ℕ → ℕ → Bytes → Option (ℕ × List Bytes)
  unfolding with_selection
  clipboard_notify_msg c selection type data' =
      if c.agent_connected && c.by_demand && below_max (length data') c.max_clipboard
      then to_queue p.data_type (data' ∷ []) (with_selection c selection (p.word type))
      else none

  unfoldable pub clipboard_grab_msg : Caps → ℕ → List ℕ → Option (ℕ × List Bytes)
  unfolding with_selection
  clipboard_grab_msg c selection types =
      if c.agent_connected && c.by_demand
      then to_queue p.grab_type [] (with_selection c selection (words types))
      else none

  unfoldable pub clipboard_request_msg : Caps → ℕ → ℕ → Option (ℕ × List Bytes)
  unfolding with_selection
  clipboard_request_msg c selection type =
      if c.agent_connected && c.by_demand
      then to_queue p.request_type [] (with_selection c selection (p.word type))
      else none

  unfoldable pub clipboard_release_msg : Caps → ℕ → Option (ℕ × List Bytes)
  unfolding with_selection
  clipboard_release_msg c selection =
      if c.agent_connected && c.by_demand
      then to_queue p.release_type [] (with_selection c selection [])
      else none

  abbrev pub send : Caps → ℕ → Clip → Option (ℕ × List Bytes)
  send c selection (notify type data') = clipboard_notify_msg c selection type data'
  send c selection (grab types) = clipboard_grab_msg c selection types
  send c selection (request type) = clipboard_request_msg c selection type
  send c selection release = clipboard_release_msg c selection

  abbrev pub read_words : ℕ → Bytes → List ℕ
  read_words zero bytes = []
  read_words (suc n) bytes = p.read_word bytes ∷ read_words n (drop 4 bytes)

  -- A signal for the selection, and one more for the clipboard itself.
  abbrev pub signals : ℕ → Signal → Signal → List Signal
  signals selection any only = any ∷ (if selection == p.clipboard then only ∷ [] else [])

  -- The second `switch`, for the size that is left. `none` is a read behind the payload.
  unfoldable pub emit : ℕ → ℕ → ℕ → Bytes → Option (List Signal)
  emit type selection size payload =
      let t = p.read_word payload in
      let types = read_words (size / 4) payload in
      if type == p.data_type
      then (if ltb size 4
          then none
          else some (
              signals selection (clipboard_selection selection t (take (size - 4) (drop 4 payload)))
                (clipboard_only t (take (size - 4) (drop 4 payload)))))
      else (if type == p.grab_type
          then some
              (signals selection (clipboard_selection_grab selection types) (clipboard_grab types))
          else (if type == p.request_type
              then (if ltb size 4
                  then none
                  else some (
                      signals selection (clipboard_selection_request selection t)
                        (clipboard_request t)))
              else some
                  (signals selection (clipboard_selection_release selection) clipboard_release)))

  abbrev pub is_clipboard : ℕ → Bool
  is_clipboard type =
      type == p.release_type || type == p.request_type || type == p.grab_type || type == p.data_type

  -- `main_agent_handle_msg` for the clipboard's types; a message of another type gives none of its
  -- signals, and a message that is too short for its selection is read too far.
  unfoldable pub handle_clipboard_msg : Bool → Header → Bytes → Option (List Signal)
  unfolding emit
  handle_clipboard_msg selection_cap h [] =
      if (h.protocol == p.version) && is_clipboard h.kind
      then (if selection_cap then none else emit h.kind p.clipboard h.size [])
      else some []
  handle_clipboard_msg selection_cap h (b ∷ payload) =
      let bytes = b ∷ payload in
      if (h.protocol == p.version) && is_clipboard h.kind
      then (if selection_cap
          then (if ltb h.size 4 then none else emit h.kind b (h.size - 4) (drop 4 bytes))
          else emit h.kind p.clipboard h.size bytes)
      else some []
