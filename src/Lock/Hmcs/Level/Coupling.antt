-- ===== src/Lock/Hmcs/Level/Coupling.antt =====
-- A node of zm_hmcs.c and its parent: while the node has the parent and does not release it, its own
-- number stays past the acquisition there.
use izem.Prelude.{ℕ, ◌≡◌, refl, sym, ap, ◌∙◌, true, false, arith, ℕ_discrete, inl, inr, Bool-cases}
use mathlib.Core.Path.{subst}
use izem.Prelude.Family.{put, put_other}
use izem.Interleave.{State}
use izem.Lock.Hmcs.Level.{Config, Level, Pc, climbing, critical, descending, Move}
use izem.Lock.Hmcs.Level.Held.{climbs, descends, held-climbs, descends-held}

abbrev pub Coupling : State Level Pc → ℕ → State Level Pc → Type 0
Coupling parent c s =
    s.mem.held ≡ true → ((i : ℕ) → descends (s.pc i) ≡ false) → (l : ℕ) × (parent.pc c ≡ critical l)

pub climbing_of : (p : Pc) → climbs p ≡ true → (k : ℕ) × (p ≡ climbing k)
climbing_of (climbing k) e = (k, refl)
climbing_of p e = absurd (ground arith)

pub descending_of : (p : Pc) → descends p ≡ true → (k : ℕ) × (p ≡ descending k)
descending_of (descending k) e = (k, refl)
descending_of p e = absurd (ground arith)

module _ (parent : State Level Pc) (c : ℕ) (s : State Level Pc)
    (coupled : Coupling parent c s) where
  -- A move at the node keeps it.
  pub child_keeps :
      {g : Config} (i : ℕ) {m : Level} {p : Pc}
      → Move g i s.mem (s.pc i) m p
      → ((k : ℕ) → s.pc i ≡ climbing k → (l : ℕ) × (parent.pc c ≡ critical l))
      → Coupling parent c (record { mem = m; pc = put s.pc i p })
  child_keeps i {m} {p} mv up h none = elim (Bool-cases (climbs (s.pc i))) [
    | inl e ↦ let (k, q) = climbing_of (s.pc i) e in up k q
    | inr e ↦ coupled (held-climbs mv e h) (λ j. elim (ℕ_discrete i j) [
      | yes same ↦ elim (Bool-cases (descends (s.pc i))) [
        | inl d ↦ let l = descends-held mv d in absurd (ground arith)
        | inr d ↦ subst (λ a. descends (s.pc a) ≡ false) same d
      ]
      | no ne ↦ ap descends (sym (put_other s.pc i j p ne)) ∙ none j
    ])
  ]

  -- So does a move at the parent, where a release by the node's number comes from the node.
  pub parent_keeps :
      (a : ℕ) (m : Level) (p : Pc)
      → ((k : ℕ) → a ≡ c → parent.pc a ≡ critical k → (i : ℕ) × (l : ℕ) × (s.pc i ≡ descending l))
      → Coupling (record { mem = m; pc = put parent.pc a p }) c s
  parent_keeps a m p down h none =
      let (l, e) = coupled h none in
      elim (ℕ_discrete a c) [
        | yes same ↦
            let (i, k, d) = down l same (ap parent.pc same ∙ e) in
            let x = none i in absurd (ground arith)
        | no ne ↦ (l, put_other parent.pc a c p ne ∙ e)
      ]

pub Coupling-cong :
    {u v s t : State Level Pc} (c : ℕ) → u ≡ v → s ≡ t → Coupling v c t → Coupling u c s
Coupling-cong {u} {v} {s} {t} c e e' x =
    subst (λ w. Coupling w c s) (sym e) (subst (λ w. Coupling v c w) (sym e') x)
