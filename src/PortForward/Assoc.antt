-- ===== src/PortForward/Assoc.antt =====
-- The associations of src/port-forward.c between ports of the guest and addresses here.
use spice_gtk.Base.Table.{lookup, insert, remove, lookup-insert, lookup-remove}
use spice_gtk.Base.{
  ℕ, ◌≡◌, refl, ap, sym, append-nil, Bool-cases, if_true, if_false, ==_iff, ◌∙◌, Bool, true, false,
  Option, none, some, List, [], ◌∷◌, ◌++◌, ◌==◌, if◌then◌else◌, Option-cases, inl, inr,
}
use spice_gtk.PortForward.{
  Bytes, AddressPort, World, Effect, listen, shutdown, emit, bound_address, associate_remote,
  disassociate_remote,
}

abbrev pub is_some : Option AddressPort → Bool
is_some none = false
is_some (some a) = true

-- The commands that end an association.
abbrev pub ended : Option AddressPort → ℕ → List Effect
ended none port = []
ended (some a) port = shutdown port ∷ []

dissociated :
    (rport : ℕ) (a : AddressPort) (w : World)
    → lookup rport w.remote_assocs ≡ some a
    → disassociate_remote rport w
      ≡ (true, emit (shutdown rport) (record w { remote_assocs = remove rport w.remote_assocs }))
unfolding disassociate_remote
dissociated rport a w e = rw (e, disassociate_remote) refl

associate_remote_lem :
    (bind : Option Bytes) (rport : ℕ) (host : Bytes) (lport : ℕ) (w : World)
    → let w1 = associate_remote bind rport host lport w in
      let now : AddressPort = record { port = lport; address = host } in
      ((p : ℕ)
        → lookup p w1.remote_assocs ≡ (if rport == p then some now else lookup p w.remote_assocs))
      × (w1.out
          ≡ w.out
            ++ ended (lookup rport w.remote_assocs) rport
            ++ (listen rport (bound_address bind) ∷ []))
unfolding associate_remote disassociate_remote
associate_remote_lem bind rport host lport w =
    let now : AddressPort = record { port = lport; address = host } in
    elim (Option-cases (lookup rport w.remote_assocs)) [
      | inl e ↦ (
        (λ p. rw (e, associate_remote) (lookup-insert rport p now w.remote_assocs)),
        rw (e, associate_remote) (rw (append-nil w.out) refl),
      )
      | inr (a, e) ↦ (
        (λ p. rw (e, associate_remote) (rw (dissociated rport a w e) (again p))),
        rw (e, associate_remote) (rw (dissociated rport a w e) refl),
      )
    ]
  where
    again :
        (p : ℕ)
        → let now : AddressPort = record { port = lport; address = host } in
          lookup p (insert rport now (remove rport w.remote_assocs))
          ≡ (if rport == p then some now else lookup p w.remote_assocs)
    again p =
        let now : AddressPort = record { port = lport; address = host } in
        let i = lookup-insert rport p now (remove rport w.remote_assocs) in
        let r = lookup-remove rport p w.remote_assocs in
        elim (Bool-cases (rport == p)) [
          | inl t ↦ rw t (i ∙ if_true _ _ t)
          | inr t ↦ rw t (i ∙ (if_false _ _ t ∙ (r ∙ if_false _ _ t)))
        ]

disassociate_remote_lem :
    (port p : ℕ) (w : World)
    → let r = disassociate_remote port w in
      (r.0 ≡ is_some (lookup port w.remote_assocs))
      × (lookup p r.1.remote_assocs ≡ (if port == p then none else lookup p w.remote_assocs))
      × (r.1.out ≡ w.out ++ ended (lookup port w.remote_assocs) port)
unfolding disassociate_remote
disassociate_remote_lem port p w = elim (Option-cases (lookup port w.remote_assocs)) [
  | inl e ↦ (
    rw (e, disassociate_remote) refl,
    unchanged e,
    rw (e, disassociate_remote) (sym (append-nil w.out)),
  )
  | inr (a, e) ↦ (
    rw (e, disassociate_remote) refl,
    rw (e, disassociate_remote) (lookup-remove port p w.remote_assocs),
    rw (e, disassociate_remote) refl,
  )
]
  where
    unchanged :
        lookup port w.remote_assocs ≡ none
        → lookup p (disassociate_remote port w).1.remote_assocs
          ≡ (if port == p then none else lookup p w.remote_assocs)
    unchanged e = elim (Bool-cases (port == p)) [
      | inl t ↦
          rw t (let q : port ≡ p = (==_iff port p).0 t in rw (e, disassociate_remote) (rw (← q) e))
      | inr t ↦ rw t (rw (e, disassociate_remote) refl)
    ]

-- Associating a port, and then dissociating one: the port has the new address and no other port is
-- touched; the agent is told to listen, after a shutdown where the port had an association. A
-- dissociation answers whether there was one, tells the agent just then, and forgets this one only.
pub associate-disassociate :
    (bind : Option Bytes) (rport : ℕ) (host : Bytes) (lport port other : ℕ) (w : World)
    → let w1 = associate_remote bind rport host lport w in
      let r = disassociate_remote port w1 in
      let now : AddressPort = record { port = lport; address = host } in
      let at : ℕ → Option AddressPort =
        λ p. if rport == p then some now else lookup p w.remote_assocs in
      (lookup other w1.remote_assocs ≡ at other)
      × (w1.out
          ≡ w.out
            ++ ended (lookup rport w.remote_assocs) rport
            ++ (listen rport (bound_address bind) ∷ []))
      × (r.0 ≡ is_some (at port))
      × (lookup other r.1.remote_assocs ≡ (if port == other then none else at other))
      × (r.1.out ≡ w1.out ++ ended (at port) port)
associate-disassociate bind rport host lport port other w =
    let w1 = associate_remote bind rport host lport w in
    let (at, log) = associate_remote_lem bind rport host lport w in
    let (answer, left, said) = disassociate_remote_lem port other w1 in
    (
      at other,
      log,
      answer ∙ ap is_some (at port),
      left ∙ ap (λ t. if port == other then none else t) (at other),
      said ∙ ap (λ t. w1.out ++ ended t port) (at port),
    )
