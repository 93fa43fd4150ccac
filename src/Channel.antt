-- ===== src/Channel.antt =====
-- src/spice-channel.c and src/channel-base.c: what all channels share. Messages have a header, whose
-- layout is of the SPICE protocol and a parameter; its two kinds are the full one and the mini one.
pub mod Caps
pub mod Connection
pub mod Handlers
pub mod Header
pub mod Messages
pub mod Queue
pub mod Wire
use spice_gtk.Base.{
  ℕ, zero, suc, ◌+◌, ◌*◌, ◌/◌, ◌%◌, ◌≤◌, ◌<◌, Bool, true, false, List, [], ◌∷◌, ◌++◌, take, drop,
  if◌then◌else◌,
}

abbrev pub Bytes : Type 0
Bytes = List ℕ

-- A little-endian number of `width` bytes, and back.
unfoldable pub to_le : (width value : ℕ) → Bytes
to_le zero value = []
to_le (suc width) value = value % 256 ∷ to_le width (value / 256)

unfoldable pub from_le : Bytes → ℕ
from_le [] = 0
from_le (b ∷ bytes) = b + 256 * from_le bytes

-- How many numbers `width` bytes hold.
abbrev pub limit : ℕ → ℕ
limit zero = 1
limit (suc width) = 256 * limit width

unfoldable pub get_field : (offset width : ℕ) → Bytes → ℕ
unfolding from_le
get_field offset width bytes = from_le (take width (drop offset bytes))

unfoldable pub set_field : (offset width value : ℕ) → Bytes → Bytes
unfolding to_le
set_field offset width value bytes =
    take offset bytes ++ (to_le width value ++ drop (offset + width) bytes)

-- The offsets of `SpiceMiniDataHeader`, `SpiceDataHeader`, `SpiceSubMessageList` and
-- `SpiceSubMessage`, and the sizes of the three that have one.
pub record Layout : Type 0 where
  pub mini_size : ℕ
  pub mini_type : ℕ
  pub mini_msg_size : ℕ
  pub full_size : ℕ
  pub serial : ℕ
  pub type : ℕ
  pub msg_size : ℕ
  pub sub_list : ℕ
  pub list_count : ℕ
  pub list_offsets : ℕ
  pub sub_size : ℕ
  pub sub_type : ℕ
  pub sub_msg_size : ℕ

-- The protocol's packed headers: 16 bits of type and 32 of size, behind 64 bits of serial and before
-- 32 bits of sub-list in the full one.
pub record IsLayout (l : Layout) : Type 0 where
  pub mini_order : l.mini_type + 2 ≤ l.mini_msg_size
  pub mini_end : l.mini_msg_size + 4 ≤ l.mini_size
  pub serial_order : l.serial + 8 ≤ l.type
  pub type_order : l.type + 2 ≤ l.msg_size
  pub size_order : l.msg_size + 4 ≤ l.sub_list
  pub full_end : l.sub_list + 4 ≤ l.full_size

module _ (l : Layout) (is_mini_header : Bool) where
  unfoldable pub set_msg_type : (type : ℕ) → Bytes → Bytes
  unfolding set_field
  set_msg_type type h = set_field (if is_mini_header then l.mini_type else l.type) 2 type h

  unfoldable pub set_msg_size : (size : ℕ) → Bytes → Bytes
  unfolding set_field
  set_msg_size size h = set_field (if is_mini_header then l.mini_msg_size else l.msg_size) 4 size h

  unfoldable pub get_msg_type : Bytes → ℕ
  unfolding get_field
  get_msg_type h = get_field (if is_mini_header then l.mini_type else l.type) 2 h

  unfoldable pub get_msg_size : Bytes → ℕ
  unfolding get_field
  get_msg_size h = get_field (if is_mini_header then l.mini_msg_size else l.msg_size) 4 h

  abbrev pub get_header_size : ℕ
  get_header_size = if is_mini_header then l.mini_size else l.full_size

  unfoldable pub set_msg_serial : (serial : ℕ) → Bytes → Bytes
  unfolding set_field
  set_msg_serial serial h = if is_mini_header then h else set_field l.serial 8 serial h

  unfoldable pub reset_msg_sub_list : Bytes → Bytes
  unfolding set_field
  reset_msg_sub_list h = if is_mini_header then h else set_field l.sub_list 4 0 h

  -- The serial of a message that comes in is `in_serial` where the header has none. It is read
  -- without a change of the byte order, which the bytes of a little-endian host do not need.
  unfoldable pub get_in_msg_serial : (in_serial : ℕ) → Bytes → ℕ
  unfolding get_field
  get_in_msg_serial in_serial h = if is_mini_header then in_serial else get_field l.serial 8 h

  unfoldable pub get_out_msg_serial : (out_serial : ℕ) → Bytes → ℕ
  unfolding get_field
  get_out_msg_serial out_serial h = if is_mini_header then out_serial else get_field l.serial 8 h

  unfoldable pub get_msg_sub_list : Bytes → ℕ
  unfolding get_field
  get_msg_sub_list h = if is_mini_header then 0 else get_field l.sub_list 4 h
