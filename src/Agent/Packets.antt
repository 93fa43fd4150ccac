-- ===== src/Agent/Packets.antt =====
-- Lists of packets in src/channel-main.c.
use spice_gtk.Base.{
  ℕ, ◌≤◌, ◌<◌, ◌≡◌, refl, ap, sym, ◌∙◌, Option, none, some, List, [], ◌∷◌, ◌++◌, append-nil,
  append_assoc, arith, length, length-append,
}
use spice_gtk.Agent.{Bytes, written}
use spice_gtk.Agent.Cutting.{total}

abbrev pub flatten : List Bytes → Bytes
flatten [] = []
flatten (c ∷ cs) = c ++ flatten cs

abbrev pub Nonempty : List Bytes → Type 0
Nonempty [] = Unit {0}
Nonempty (c ∷ cs) = (0 < length c) × Nonempty cs

-- No packet is longer than `n`.
abbrev pub Short : ℕ → List Bytes → Type 0
Short n [] = Unit {0}
Short n (c ∷ cs) = (length c ≤ n) × Short n cs

pub flatten-append : (cs : List Bytes) (c : Bytes) → flatten (cs ++ (c ∷ [])) ≡ flatten cs ++ c
flatten-append [] c = append-nil c
flatten-append (x ∷ cs) c =
    ap (λ t. x ++ t) (flatten-append cs c) ∙ sym (append_assoc x (flatten cs) c)

pub Nonempty-append :
    (cs : List Bytes) (c : Bytes) → Nonempty cs → 0 < length c → Nonempty (cs ++ (c ∷ []))
Nonempty-append [] c n p = (p, tt)
Nonempty-append (x ∷ cs) c n p = (n.0, Nonempty-append cs c n.1 p)

pub Short-append :
    (k : ℕ) (cs : List Bytes) (c : Bytes) → Short k cs → length c ≤ k → Short k (cs ++ (c ∷ []))
Short-append k [] c s p = (p, tt)
Short-append k (x ∷ cs) c s p = (s.0, Short-append k cs c s.1 p)

-- A bound on packets may grow.
pub Short-le : (k n : ℕ) (cs : List Bytes) → k ≤ n → Short k cs → Short n cs
Short-le k n [] le s = tt
Short-le k n (c ∷ cs) le s = (omega (arith, s.0), Short-le k n cs le s.1)

pub total-flatten : (ds : List Bytes) → length (flatten ds) ≡ total ds
total-flatten [] = refl
total-flatten (d ∷ ds) = omega (arith, length-append d (flatten ds), total-flatten ds)

-- The first of the packets, which may be under construction.
abbrev pub first_packet : List Bytes → Option Bytes → Bytes
first_packet [] out = written out
first_packet (c ∷ cs) out = c

pub first_packet-append :
    (cs : List Bytes) (c : Bytes) (out : Option Bytes)
    → first_packet (cs ++ (c ∷ [])) out ≡ first_packet cs (some c)
first_packet-append [] c out = refl
first_packet-append (x ∷ cs) c out = refl

-- The first packet does not lose bytes.
pub first_packet-grows :
    (cs : List Bytes) (b c : Bytes) (k : ℕ)
    → k ≤ length (first_packet cs (some b))
    → k ≤ length (first_packet cs (some (b ++ c)))
first_packet-grows [] b c k le = omega (arith, length-append b c)
first_packet-grows (x ∷ cs) b c k le = le

pub first_packet-none : (cs : List Bytes) → first_packet cs (some []) ≡ first_packet cs none
first_packet-none [] = refl
first_packet-none (x ∷ cs) = refl
