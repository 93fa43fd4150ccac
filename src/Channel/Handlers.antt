-- ===== src/Channel/Handlers.antt =====
-- src/channel-base.c and `spice_channel_handle_msg` of src/spice-channel.c: the table of a class's
-- handlers, and two of those that all channels have. `H` stands for the functions of the table.
use spice_gtk.Base.{
  ℕ, zero, suc, ◌≡◌, refl, ap, sym, ◌∙◌, Bool, true, false, not, ◌&&◌, Option, none, some, List, [],
  ◌∷◌, arith, length, get_elem?, ltb, if◌then◌else◌, if_true, if_false, inl, inr, Bool-cases,
}
use spice_gtk.Channel.{Bytes}
use spice_gtk.Channel.Messages.{Protocol, Channel, Run, send_internal}

-- The first `n` entries of a longer table are written over by the handlers that there are; a table
-- that is too short grows first, by empty entries.
unfoldable pub set_handlers {ℓ} :
    {H : Type ℓ} → (handlers table : List (Option H)) → List (Option H)
set_handlers [] table = table
set_handlers (some h ∷ handlers) [] = some h ∷ set_handlers handlers []
set_handlers (none ∷ handlers) [] = none ∷ set_handlers handlers []
set_handlers (some h ∷ handlers) (t ∷ table) = some h ∷ set_handlers handlers table
set_handlers (none ∷ handlers) (t ∷ table) = t ∷ set_handlers handlers table

-- A class's own handlers go over those of `base`.
unfoldable pub channel_set_handlers {ℓ} :
    {H : Type ℓ} → (base handlers : List (Option H)) → List (Option H)
unfolding set_handlers
channel_set_handlers base handlers = set_handlers handlers (set_handlers base [])

abbrev pub join {ℓ} : {A : Type ℓ} → Option (Option A) → Option A
join none = none
join (some o) = o

-- The entry for a type, if the table has it and it is not empty.
abbrev pub entry {ℓ} : {H : Type ℓ} → List (Option H) → (type : ℕ) → Option H
entry table type = join (get_elem? table type)

-- The handler that `spice_channel_handle_msg` calls: none for a type behind the table or without a
-- handler, which violates a precondition, or for one of the channel's own while those are
-- disabled.
unfoldable pub handler_of {ℓ} :
    {H : Type ℓ} → (base_last : ℕ) → (disabled : Bool) → List (Option H) → (type : ℕ) → Option H
handler_of base_last disabled table type =
    if not (ltb type (length table))
    then none
    else (if ltb base_last type && disabled then none else entry table type)

-- `spice_channel_handle_set_ack`; `sync` is the marshalled generation.
unfoldable pub handle_set_ack :
    Protocol → (msgc_ack_sync : ℕ) → (window : ℕ) → (sync : Bytes) → Channel → Run Channel
unfolding send_internal
handle_set_ack pr msgc_ack_sync window sync c =
    send_internal pr msgc_ack_sync sync
      (record c { message_ack_window = window; message_ack_count = window })

abbrev pub or_else {ℓ} : {A : Type ℓ} → Option A → Option A → Option A
or_else none b = b
or_else (some a) b = some a

module _ {ℓ} {H : Type ℓ} where
  entry-nil : (type : ℕ) → entry {H = H} [] type ≡ none
  entry-nil type = refl

  entry-set_handlers :
      (handlers table : List (Option H)) (type : ℕ)
      → entry (set_handlers handlers table) type ≡ or_else (entry handlers type) (entry table type)
  unfolding set_handlers
  entry-set_handlers [] table type = refl
  entry-set_handlers (some h ∷ handlers) [] zero = refl
  entry-set_handlers (some h ∷ handlers) [] (suc type) = entry-set_handlers handlers [] type
  entry-set_handlers (none ∷ handlers) [] zero = refl
  entry-set_handlers (none ∷ handlers) [] (suc type) = entry-set_handlers handlers [] type
  entry-set_handlers (some h ∷ handlers) (t ∷ table) zero = refl
  entry-set_handlers (some h ∷ handlers) (t ∷ table) (suc type) =
      entry-set_handlers handlers table type
  entry-set_handlers (none ∷ handlers) (t ∷ table) zero = refl
  entry-set_handlers (none ∷ handlers) (t ∷ table) (suc type) =
      entry-set_handlers handlers table type

  or_else-none : (o : Option H) → or_else o none ≡ o
  or_else-none none = refl
  or_else-none (some h) = refl

  entry-behind :
      (table : List (Option H)) (type : ℕ)
      → ltb type (length table) ≡ false
      → entry table type ≡ none
  entry-behind [] type e = refl
  entry-behind (t ∷ table) zero e = absurd (ground arith)
  entry-behind (t ∷ table) (suc type) e = entry-behind table type (ground arith)

  -- A message's handler is its class's own, if it has one, and else that of all channels; but there is
  -- none for a type above the common ones while the channel's own messages are disabled.
  pub handler_of-channel_set_handlers :
      (base_last : ℕ) (disabled : Bool) (base handlers : List (Option H)) (type : ℕ)
      → handler_of base_last disabled (channel_set_handlers base handlers) type ≡ (
          if ltb base_last type && disabled
          then none
          else or_else (entry handlers type) (entry base type))
  unfolding handler_of channel_set_handlers
  handler_of-channel_set_handlers base_last disabled base handlers type =
      let table = set_handlers handlers (set_handlers base []) in
      let found : entry table type ≡ or_else (entry handlers type) (entry base type) =
        entry-set_handlers handlers (set_handlers base []) type
        ∙ ap (or_else (entry handlers type))
            (entry-set_handlers base [] type ∙ or_else-none (entry base type)) in
      elim (Bool-cases (ltb type (length table))) [
        | inl e ↦
            if_false _ _ (ap not e)
            ∙ ap (λ o. if ltb base_last type && disabled then none else o) found
        | inr e ↦
            if_true _ _ (ap not e)
            ∙ (either (ltb base_last type && disabled) none
                ∙ ap (λ o. if ltb base_last type && disabled then none else o)
                    (sym (entry-behind table type e) ∙ found))
      ]
    where
      either : (b : Bool) (o : Option H) → o ≡ (if b then o else o)
      either true o = refl
      either false o = refl
