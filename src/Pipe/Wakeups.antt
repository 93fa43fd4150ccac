-- ===== src/Pipe/Wakeups.antt =====
-- The sources that wait for the streams of src/giopipe.c.
use spice_gtk.Base.{
  ℕ, ◌≡◌, refl, sym, ◌∙◌, subst, arith, Bool, true, false, not, ◌||◌, Option, none, some, List, [],
  ◌∷◌, ◌==◌, leb, Bool-cases, if_true, if_false, inl, inr, length, min,
}
use spice_gtk.Pipe.{
  Pipe, Source, Buffer, Result, is_some, is_readable, is_writable, set_all_sources_ready,
  input_check_source, output_check_source, take_from, answer, input_read, output_write, may_offer,
  input_close, output_close,
}

-- Every source is ready, and none is destroyed.
abbrev pub AllReady : List Source → Type 0
AllReady [] = Unit {0}
AllReady (s ∷ sources) = (s.ready ≡ true) × (s.destroyed ≡ false) × AllReady sources

set_all_sources_ready-AllReady : (sources : List Source) → AllReady (set_all_sources_ready sources)
unfolding set_all_sources_ready
set_all_sources_ready-AllReady [] = tt
set_all_sources_ready-AllReady (s ∷ sources) =
    let rest = set_all_sources_ready-AllReady sources in
    elim (Bool-cases s.destroyed) [ inl t ↦ rw t rest | inr t ↦ rw t (refl, refl, rest) ]

-- No reader or writer is left waiting: where a call makes a stream ready, its sources are.
abbrev pub Woken : Pipe → Pipe → Type 0
Woken p q =
    (is_readable p ≡ false → is_readable q ≡ true → AllReady q.in_sources)
    × (is_writable p ≡ false → is_writable q ≡ true → AllReady q.out_sources)

clash : {A : Type 0} → (b : Bool) → b ≡ false → b ≡ true → A
clash b e f = absurd (cc (sym e ∙ f))

same-Woken : (p : Pipe) → Woken p p
same-Woken p = (λ e f. clash (is_readable p) e f, λ e f. clash (is_writable p) e f)

input_check_source-AllReady :
    (p : Pipe) → is_readable p ≡ true → AllReady (input_check_source p).in_sources
unfolding input_check_source
input_check_source-AllReady p t =
    subst AllReady (sym (if_true _ _ t)) (set_all_sources_ready-AllReady p.in_sources)

output_check_source-AllReady :
    (p : Pipe) → is_writable p ≡ true → AllReady (output_check_source p).out_sources
unfolding output_check_source
output_check_source-AllReady p t =
    subst AllReady (sym (if_true _ _ t)) (set_all_sources_ready-AllReady p.out_sources)

last_true : (a b : Bool) → b ≡ true → (a || b) ≡ true
last_true a b t = ground arith

writable_open : (p : Pipe) → is_writable p ≡ false → p.out_peer_closed ≡ false
unfolding is_writable
writable_open p e = elim (Bool-cases p.out_peer_closed) [
  | inl t ↦ clash (is_writable p) e (last_true _ _ t)
  | inr t ↦ t
]

readable_open : (p : Pipe) → is_readable p ≡ false → p.in_peer_closed ≡ false
unfolding is_readable
readable_open p e = elim (Bool-cases p.in_peer_closed) [
  | inl t ↦ clash (is_readable p) e (last_true _ _ t)
  | inr t ↦ t
]

take_from-Woken :
    (o : Option Buffer) (k : ℕ) (p : Pipe) → p.in_peer_closed ≡ false → Woken p (take_from o k p).0
unfolding take_from is_readable is_writable output_check_source
take_from-Woken none k p u = same-Woken p
take_from-Woken (some b) k p u =
    let p1 = record p { read = some (min p.count k); buffer = none } in
    (λ e f. clash p.in_peer_closed u f, λ e f. output_check_source-AllReady p1 refl)

-- A read wakes the writers.
input_read-Woken : (k : ℕ) (p : Pipe) → Woken p (input_read k p).0
unfolding input_read
input_read-Woken k p =
    let go : (r : Pipe × Result × List ℕ)
        → input_read k p ≡ r
        → Woken p r.0
        → Woken p (input_read k p).0 =
      λ r e w. subst (λ x. Woken p x.0) (sym e) w in
    elim (Bool-cases (k == 0)) [
      | inl t ↦ go _ (if_true _ _ t) (same-Woken p)
      | inr t ↦ elim (Bool-cases p.in_peer_closed) [
        | inl u ↦ go _ (if_false _ _ t ∙ if_true _ _ u) (same-Woken p)
        | inr u ↦ elim (Bool-cases p.in_closed) [
          | inl v ↦ go _ (if_false _ _ t ∙ (if_false _ _ u ∙ if_true _ _ v)) (same-Woken p)
          | inr v ↦
              go _ (if_false _ _ t ∙ (if_false _ _ u ∙ if_false _ _ v))
                (take_from-Woken p.buffer k p u)
        ]
      ]
    ]

only_last : (r : Option ℕ) (c : Bool) → r ≡ none → (is_some r || c) ≡ true → c ≡ true
only_last none c e t = t
only_last (some n) c e t = absurd (cc e)

not_first :
    (r : Option ℕ) (c : Bool) (n : ℕ) → r ≡ some n → (not (is_some r) || c) ≡ true → c ≡ true
not_first none c n e t = absurd (cc e)
not_first (some m) c n e t = t

middle : (a c : Bool) (r : Option ℕ) (n : ℕ) → r ≡ some n → (a || is_some r || c) ≡ true
middle a c none n e = absurd (cc e)
middle a c (some m) n e = ground arith

-- A write wakes the readers.
answer-Woken :
    (taken : Option ℕ) (b : Buffer) (p : Pipe)
    → p.read ≡ taken
    → Woken p
        (answer taken b
          (input_check_source (record p { buffer = some b; count = length b.bytes }))).0
unfolding is_readable is_writable input_check_source
answer-Woken none b p t = (
  λ e f. input_check_source-AllReady (record p { buffer = some b; count = length b.bytes }) f,
  λ e f. clash p.out_peer_closed (writable_open p e) (only_last p.read p.out_peer_closed t f),
)
answer-Woken (some n) b p t =
    let writable : is_writable p ≡ true =
      middle (not (is_some p.buffer)) p.out_peer_closed p.read n t in
    elim (Bool-cases (leb n (length b.bytes))) [
      | inl u ↦
          subst (λ (r : Pipe × Result). Woken p r.0) (sym (if_true _ _ u))
            (
              λ e f. clash p.in_peer_closed (readable_open p e) f,
              λ e f. clash (is_writable p) e writable,
            )
      | inr u ↦
          subst (λ (r : Pipe × Result). Woken p r.0) (sym (if_false _ _ u))
            (
              λ e f.
                  clash p.in_peer_closed (readable_open p e)
                    (not_first p.read p.in_peer_closed n t f),
              λ e f. clash (is_writable p) e writable,
            )
    ]

output_write-Woken : (b : Buffer) (p : Pipe) → Woken p (output_write b p).0
unfolding output_write
output_write-Woken b p =
    let go : (r : Pipe × Result)
        → output_write b p ≡ r
        → Woken p r.0
        → Woken p (output_write b p).0 =
      λ r e w. subst (λ x. Woken p x.0) (sym e) w in
    elim (Bool-cases (p.out_closed || p.out_peer_closed)) [
      | inl t ↦ go _ (if_true _ _ t) (same-Woken p)
      | inr t ↦ elim (Bool-cases (may_offer b p.buffer)) [
        | inl u ↦ go _ (if_false _ _ t ∙ if_true _ _ u) (answer-Woken p.read b p refl)
        | inr u ↦ go _ (if_false _ _ t ∙ if_false _ _ u) (same-Woken p)
      ]
    ]

-- No wake-up is lost: where a read or a write makes a stream ready that was not, every source that
-- waits for the stream is ready; and closing one stream makes the other ready with all its sources,
-- whatever GIO's close of the other does, if it leaves `peer_closed` of the other set.
pub calls-Woken :
    (b : Buffer) (k : ℕ) (close_peer : Pipe → Pipe) (p : Pipe)
    → ((q : Pipe) → q.out_peer_closed ≡ true → (close_peer q).out_peer_closed ≡ true)
    → ((q : Pipe) → q.in_peer_closed ≡ true → (close_peer q).in_peer_closed ≡ true)
    → Woken p (input_read k p).0
      × Woken p (output_write b p).0
      × ((is_writable (input_close close_peer p) ≡ true)
          × AllReady (input_close close_peer p).out_sources)
      × ((is_readable (output_close close_peer p) ≡ true)
          × AllReady (output_close close_peer p).in_sources)
unfolding input_close output_close is_writable is_readable output_check_source input_check_source
calls-Woken b k close_peer p keeps_out keeps_in =
    let out = last_true _ _ (keeps_out (record p { out_peer_closed = true }) refl) in
    let into = last_true _ _ (keeps_in (record p { in_peer_closed = true }) refl) in
    (
      input_read-Woken k p,
      output_write-Woken b p,
      (out, output_check_source-AllReady (close_peer (record p { out_peer_closed = true })) out),
      (into, input_check_source-AllReady (close_peer (record p { in_peer_closed = true })) into),
    )
