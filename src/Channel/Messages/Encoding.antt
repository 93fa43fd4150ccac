-- ===== src/Channel/Messages/Encoding.antt =====
-- The bytes of a message of src/spice-channel.c, and what they tell its receiver.
use spice_gtk.Base.{
  ℕ, ◌+◌, ◌-◌, ◌<◌, ◌≡◌, refl, ap, ◌∙◌, Bool, true, false, ◌++◌, append-nil, arith, length,
  if◌then◌else◌,
}
use spice_gtk.Channel.{
  Bytes, Layout, limit, set_field, set_msg_type, set_msg_size, get_msg_type, get_msg_size,
  get_header_size, set_msg_serial, reset_msg_sub_list, get_in_msg_serial, get_msg_sub_list,
}
use spice_gtk.Channel.Header.{
  length-set_field, get_field-set_field_same, get_field-set_field_before,
  get_field-set_field_behind,
}
use spice_gtk.Channel.Messages.Acks.{encoded, ack_of}
use spice_gtk.Channel.Messages.{Protocol, IsProtocol, Channel, new_header, linearize}

-- The header of a message of `size` bytes, as it is written.
abbrev pub header_of : Protocol → (mini : Bool) → (type serial size : ℕ) → Bytes
header_of pr mini type serial size =
    set_msg_size pr.layout mini size (new_header pr mini type serial)

-- What the receiver gets out of a header.
pub record Tells (l : Layout) (mini : Bool) (h : Bytes) (type serial size : ℕ) : Type 0 where
  pub tells_length : length h ≡ get_header_size l mini
  pub tells_type : get_msg_type l mini h ≡ type
  pub tells_size : get_msg_size l mini h ≡ size
  pub tells_sub_list : get_msg_sub_list l mini h ≡ 0
  pub tells_serial :
      (in_serial : ℕ) → get_in_msg_serial l mini in_serial h ≡ (if mini then in_serial else serial)

module _ (pr : Protocol) (v : IsProtocol pr) (type serial size : ℕ) (type_fits : type < limit 2)
    (serial_fits : serial < limit 8) (size_fits : size < limit 4) where
  mini_Tells : Tells pr.layout true (header_of pr true type serial size) type serial size
  unfolding set_msg_type set_msg_size set_msg_serial reset_msg_sub_list get_msg_type get_msg_size
      get_msg_sub_list get_in_msg_serial
  mini_Tells =
      let l = pr.layout in
      let o1 = v.is_layout.mini_order in
      let o2 = v.is_layout.mini_end in
      let h0 = pr.reserved l.mini_size in
      let n0 : length h0 ≡ l.mini_size = v.length-reserved l.mini_size in
      let n1 = length-set_field l.mini_type 2 type h0 (omega arith) in
      let h1 = set_field l.mini_type 2 type h0 in
      let n2 = length-set_field l.mini_msg_size 4 size h1 (omega arith) in
      record {
        tells_length = n2 ∙ (n1 ∙ n0);
        tells_type =
            get_field-set_field_before l.mini_type 2 l.mini_msg_size 4 size h1 o1 (omega arith)
            ∙ get_field-set_field_same l.mini_type 2 type h0 (omega arith) type_fits;
        tells_size = get_field-set_field_same l.mini_msg_size 4 size h1 (omega arith) size_fits;
        tells_sub_list = refl;
        tells_serial = λ in_serial. refl;
      }

  full_Tells : Tells pr.layout false (header_of pr false type serial size) type serial size
  unfolding set_msg_type set_msg_size set_msg_serial reset_msg_sub_list get_msg_type get_msg_size
      get_msg_sub_list get_in_msg_serial
  full_Tells =
      let l = pr.layout in
      let o1 = v.is_layout.serial_order in
      let o2 = v.is_layout.type_order in
      let o3 = v.is_layout.size_order in
      let o4 = v.is_layout.full_end in
      let h0 = pr.reserved l.full_size in
      let n0 : length h0 ≡ l.full_size = v.length-reserved l.full_size in
      let h1 = set_field l.type 2 type h0 in
      let n1 = length-set_field l.type 2 type h0 (omega arith) in
      let h2 = set_field l.serial 8 serial h1 in
      let n2 = length-set_field l.serial 8 serial h1 (omega arith) in
      let h3 = set_field l.sub_list 4 0 h2 in
      let n3 = length-set_field l.sub_list 4 0 h2 (omega arith) in
      let n4 = length-set_field l.msg_size 4 size h3 (omega arith) in
      record {
        tells_length = n4 ∙ (n3 ∙ (n2 ∙ (n1 ∙ n0)));
        tells_type =
            get_field-set_field_before l.type 2 l.msg_size 4 size h3 (omega arith) (omega arith)
            ∙ (get_field-set_field_before l.type 2 l.sub_list 4 0 h2 (omega arith) (omega arith)
                ∙ (get_field-set_field_behind l.type 2 l.serial 8 serial h1 (omega arith)
                      (omega arith)
                    ∙ get_field-set_field_same l.type 2 type h0 (omega arith) type_fits));
        tells_size = get_field-set_field_same l.msg_size 4 size h3 (omega arith) size_fits;
        tells_sub_list =
            get_field-set_field_behind l.sub_list 4 l.msg_size 4 size h3 (omega arith) (omega arith)
            ∙ get_field-set_field_same l.sub_list 4 0 h2 (omega arith) (omega arith);
        tells_serial = λ in_serial.
            get_field-set_field_before l.serial 8 l.msg_size 4 size h3 (omega arith) (omega arith)
            ∙ (get_field-set_field_before l.serial 8 l.sub_list 4 0 h2 (omega arith) (omega arith)
                ∙ get_field-set_field_same l.serial 8 serial h1 (omega arith) serial_fits);
      }

  pub header_of-Tells :
      (mini : Bool) → Tells pr.layout mini (header_of pr mini type serial size) type serial size
  header_of-Tells true = mini_Tells
  header_of-Tells false = full_Tells

pub length-new_header :
    (pr : Protocol) (v : IsProtocol pr) (mini : Bool) (type serial : ℕ)
    → length (new_header pr mini type serial) ≡ get_header_size pr.layout mini
unfolding set_msg_type set_msg_serial reset_msg_sub_list
length-new_header pr v true type serial =
    let l = pr.layout in
    let o1 = v.is_layout.mini_order in
    let o2 = v.is_layout.mini_end in
    let n0 : length (pr.reserved l.mini_size) ≡ l.mini_size = v.length-reserved l.mini_size in
    length-set_field l.mini_type 2 type (pr.reserved l.mini_size) (omega arith) ∙ n0
length-new_header pr v false type serial =
    let l = pr.layout in
    let o1 = v.is_layout.serial_order in
    let o2 = v.is_layout.type_order in
    let o3 = v.is_layout.size_order in
    let o4 = v.is_layout.full_end in
    let h0 = pr.reserved l.full_size in
    let n0 : length h0 ≡ l.full_size = v.length-reserved l.full_size in
    let h1 = set_field l.type 2 type h0 in
    let n1 = length-set_field l.type 2 type h0 (omega arith) in
    let h2 = set_field l.serial 8 serial h1 in
    let n2 = length-set_field l.serial 8 serial h1 (omega arith) in
    length-set_field l.sub_list 4 0 h2 (omega arith) ∙ (n2 ∙ (n1 ∙ n0))

-- What is written is the header with the size of the body, and the body.
pub encoded-parts :
    (pr : Protocol) (v : IsProtocol pr) (mini : Bool) (type serial : ℕ) (body : Bytes)
    → encoded pr mini type serial body ≡ header_of pr mini type serial (length body) ++ body
unfolding linearize
encoded-parts pr v mini type serial body =
    let n = length-new_header pr v mini type serial in
    let e : length (new_header pr mini type serial) + length body - get_header_size pr.layout mini
        ≡ length body =
      omega arith in
    ap (λ size. header_of pr mini type serial size ++ body) e

length-set_msg_size :
    (pr : Protocol) (v : IsProtocol pr) (mini : Bool) (size : ℕ) (h : Bytes)
    → length h ≡ get_header_size pr.layout mini
    → length (set_msg_size pr.layout mini size h) ≡ get_header_size pr.layout mini
unfolding set_msg_size
length-set_msg_size pr v true size h e =
    let o2 = v.is_layout.mini_end in
    length-set_field pr.layout.mini_msg_size 4 size h (omega arith) ∙ e
length-set_msg_size pr v false size h e =
    let o3 = v.is_layout.size_order in
    let o4 = v.is_layout.full_end in length-set_field pr.layout.msg_size 4 size h (omega arith) ∙ e

pub length-ack_of :
    (pr : Protocol) (v : IsProtocol pr) (c : Channel)
    → length (ack_of pr c) ≡ get_header_size pr.layout c.use_mini_header
unfolding linearize
length-ack_of pr v c =
    let mini = c.use_mini_header in
    let n = length-new_header pr v mini pr.msgc_ack c.out_serial in
    let h = new_header pr mini pr.msgc_ack c.out_serial in
    ap length
      (append-nil (set_msg_size pr.layout mini (length h + 0 - get_header_size pr.layout mini) h))
    ∙ length-set_msg_size pr v mini _ h n
