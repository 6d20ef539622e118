-- ===== src/Registry/Lock/Exclusion.antt =====
-- What the lock gives the writers: exclusion, sections that do not mix, and a turn for whoever waits.
use coffin.Prelude.{
  ℕ, ap, ◌∙◌, ◌≡◌, ◌≢◌, refl, true, false, List, [], ◌∷◌, inl, inr, arith, update, update_self,
  update_ne, Bool-cases,
}
use coffin.Registry.Lock.{
  Section, outside, spinning, inside, Threads, Step, acquire, store, unlock, Reach, later,
  apply_all,
}
use coffin.Registry.Lock.Serial.{run_sections, AllSections, Reach-IsSerial}

-- Any number of steps.
pub data Steps {S : Type 0} (P : Section S → Type 0) : Threads S → Threads S → Type 0 where
  stay : {t : Threads S} → Steps P t t
  go : {t u v : Threads S} → Step P t u → Steps P u v → Steps P t v

spinning_ne :
    {S : Type 0} (t : Threads S) {i j : ℕ} {g : Section S} {gs : List (S → S)}
    → t.pc i ≡ spinning g
    → t.pc j ≡ inside gs
    → j ≢ i
spinning_ne t e q c = cc (ap t.pc c, q, e)

module _ {S : Type 0} {P : Section S → Type 0} where
  -- The thread inside makes the stores that are left and drops the guard.
  pub finish :
      (t : Threads S) (i : ℕ) (fs : List (S → S))
      → t.pc i ≡ inside fs
      → (u : Threads S) × Steps P t u
        × (u.held ≡ false)
        × (u.shared ≡ apply_all fs t.shared)
        × ((j : ℕ) → i ≢ j → u.pc j ≡ t.pc j)
  finish t i [] e = (
    record t { held = false; pc = update t.pc i outside },
    go (unlock i e) stay,
    refl,
    refl,
    λ j n. update_ne t.pc outside n,
  )
  finish t i (f ∷ fs) e =
      let t' = record t { shared = f t.shared; pc = update t.pc i (inside fs) } in
      let (u, st, h, q, k) = finish t' i fs (update_self t.pc (inside fs) refl) in
      (u, go (store i f fs e) st, h, q, λ j n. ground (arith, k j n, update_ne t.pc (inside fs) n))

  append-Step : {t u v : Threads S} → Steps P t u → Step P u v → Steps P t v
  append-Step stay st = go st stay
  append-Step (go a r) st = go a (append-Step r st)

pub Reach-Steps :
    {S : Type 0} {P : Section S → Type 0} {s : S} {t u : Threads S}
    → Reach P s t
    → Steps P t u
    → Reach P s u
Reach-Steps r stay = r
Reach-Steps r (go a st) = Reach-Steps (later r a) st

module _ {S : Type 0} {P : Section S → Type 0} {s : S} where
  -- Two threads are never between `lock` and the drop of the guard together.
  pub mutual_exclusion :
      {t : Threads S}
      → Reach P s t
      → (i j : ℕ) (fs gs : List (S → S)) → t.pc i ≡ inside fs
      → t.pc j ≡ inside gs
      → i ≡ j
  mutual_exclusion r = (Reach-IsSerial P s r).unique

  -- While the lock is free, what it protects is as if whole sections had run one after the other.
  pub sections-serial :
      {t : Threads S}
      → Reach P s t
      → t.held ≡ false
      → (ss : List (Section S)) × AllSections P ss × (t.shared ≡ run_sections ss s)
  sections-serial r h = let v = Reach-IsSerial P s r in (v.sections, v.allowed, v.closed h)

  -- No deadlock: from every reachable state there are steps by which a given thread that spins gets the
  -- lock, with the section that it wanted begun on what is then shared.
  pub lock-acquires :
      {t : Threads S}
      → Reach P s t
      → (i : ℕ) (g : Section S) → t.pc i ≡ spinning g
      → (u : Threads S) × Steps P t u × (u.pc i ≡ inside (g u.shared))
  lock-acquires {t} r i g e = elim (Bool-cases t.held) [
    | inl h ↦
        let (j, gs, q) = (Reach-IsSerial P s r).holder h in
        let (u, st, free, _, k) = finish t j gs q in
        let wants = k i (spinning_ne t e q) ∙ e in
        (
          record u { held = true; pc = update u.pc i (inside (g u.shared)) },
          append-Step st (acquire i g wants free),
          update_self u.pc (inside (g u.shared)) refl,
        )
    | inr h ↦ (
      record t { held = true; pc = update t.pc i (inside (g t.shared)) },
      go (acquire i g e h) stay,
      update_self t.pc (inside (g t.shared)) refl,
    )
  ]
