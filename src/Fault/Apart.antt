-- ===== src/Fault/Apart.antt =====
-- Regions that do not overlap, and a store into one slot.
use coffin.Prelude.{ℕ, ◌<◌, ◌≡◌, ◌≢◌, sym, ◌∙◌, true, false, update, update_self, update_ne}
use mathlib.Core.Path.{subst}
use native.Mathlib.Decide.{ℕ_discrete}
use coffin.Registry.{is_vacant, Region}
use coffin.Fault.{covers}
use coffin.Fault.Scan.{Holds, IsApart}

module _ (slots : ℕ → Region) (cap i : ℕ) (r : Region) where
  -- After the store a slot that holds an address is the one stored into, or held it before.
  pub Holds-stored :
      (addr j : ℕ)
      → i ≡ j
      → Holds (update slots i r) cap addr j
      → (is_vacant r.state ≡ false) × (covers r addr ≡ true)
  Holds-stored addr j e h =
      let t =
        subst (λ (q : Region). (j < cap) × (is_vacant q.state ≡ false) × (covers q addr ≡ true))
          (update_self slots r e) h in
      (t.1, t.2)

  pub Holds-other :
      (addr j : ℕ) → i ≢ j → Holds (update slots i r) cap addr j → Holds slots cap addr j
  Holds-other addr j n h =
      subst (λ (q : Region). (j < cap) × (is_vacant q.state ≡ false) × (covers q addr ≡ true))
        (update_ne slots r n) h

  pub update-IsApart :
      IsApart slots cap
      → ((addr j : ℕ)
          → i ≢ j
          → Holds slots cap addr j
          → is_vacant r.state ≡ false
          → covers r addr ≡ true
          → ⊥)
      → IsApart (update slots i r) cap
  update-IsApart p clash = record {
    apart = λ addr j j' h h'. elim (ℕ_discrete i j) [
      | yes e ↦ elim (ℕ_discrete i j') [
        | yes e' ↦ sym e ∙ e'
        | no n' ↦ absurd (hit addr j j' e h n' h')
      ]
      | no n ↦ elim (ℕ_discrete i j') [
        | yes e' ↦ absurd (hit addr j' j e' h' n h)
        | no n' ↦ p.apart addr j j' (Holds-other addr j n h) (Holds-other addr j' n' h')
      ]
    ];
  }
    where
      hit :
          (addr j j' : ℕ)
          → i ≡ j
          → Holds (update slots i r) cap addr j
          → i ≢ j'
          → Holds (update slots i r) cap addr j'
          → ⊥
      hit addr j j' e h n' h' =
          let s = Holds-stored addr j e h in clash addr j' n' (Holds-other addr j' n' h') s.0 s.1
