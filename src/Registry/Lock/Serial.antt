-- ===== src/Registry/Lock/Serial.antt =====
-- What every interleaving of the writers has in common: the sections do not overlap.
use coffin.Prelude.{
  ℕ, ap, ◌≡◌, refl, sym, ◌∙◌, true, false, List, [], ◌∷◌, ◌++◌, arith, update, update_self,
  update_ne,
}
use native.Mathlib.Decide.{ℕ_discrete}
use coffin.Registry.Lock.{
  Section, Pc, outside, spinning, inside, Threads, unlocked, Step, call, acquire, spin, store,
  unlock, Reach, start, later, apply_all,
}

-- Whole sections, one after the other.
abbrev pub run_sections : {S : Type 0} → List (Section S) → S → S
run_sections [] s = s
run_sections (g ∷ rest) s = run_sections rest (apply_all (g s) s)

abbrev pub AllSections : {S : Type 0} → (Section S → Type 0) → List (Section S) → Type 0
AllSections P [] = Unit
AllSections P (g ∷ rest) = P g × AllSections P rest

run_sections-append :
    {S : Type 0} (ss : List (Section S)) (g : Section S) (s : S)
    → run_sections (ss ++ g ∷ []) s ≡ apply_all (g (run_sections ss s)) (run_sections ss s)
run_sections-append [] g s = refl
run_sections-append (h ∷ ss) g s = run_sections-append ss g (apply_all (h s) s)

AllSections-append :
    {S : Type 0} (P : Section S → Type 0) (ss : List (Section S)) (g : Section S)
    → AllSections P ss
    → P g
    → AllSections P (ss ++ g ∷ [])
AllSections-append P [] g a p = (p, tt)
AllSections-append P (h ∷ ss) g (q, a) p = (q, AllSections-append P ss g a p)

abbrev wanted : {S : Type 0} → Section S → Pc S → Section S
wanted g (spinning h) = h
wanted g _ = g

module _ {S : Type 0} (P : Section S → Type 0) (s : S) where
  -- The sections that have begun; the one thread inside has to complete the last of them.
  pub record IsSerial (t : Threads S) : Type 0 where
    pub sections : List (Section S)
    pub allowed : AllSections P sections
    pub waiting : (i : ℕ) (g : Section S) → t.pc i ≡ spinning g → P g
    pub locked : (i : ℕ) (fs : List (S → S)) → t.pc i ≡ inside fs → t.held ≡ true
    pub holder : t.held ≡ true → (i : ℕ) × (fs : List (S → S)) × (t.pc i ≡ inside fs)
    pub unique : (i j : ℕ) (fs gs : List (S → S)) → t.pc i ≡ inside fs → t.pc j ≡ inside gs → i ≡ j
    pub closed : t.held ≡ false → t.shared ≡ run_sections sections s
    pub open_section :
        (i : ℕ) (fs : List (S → S))
        → t.pc i ≡ inside fs
        → apply_all fs t.shared ≡ run_sections sections s

  pub unlocked-IsSerial : IsSerial (unlocked s)
  unlocked-IsSerial = record {
    sections = [];
    allowed = tt;
    waiting = λ i fs e. cc;
    locked = λ i fs e. cc;
    holder = λ e. cc;
    unique = λ i j fs gs e. cc;
    closed = λ e. refl;
    open_section = λ i fs e. cc;
  }

  waiting-update :
      (pc : ℕ → Pc S) (i : ℕ) (x : Pc S)
      → ((g : Section S) → x ≡ spinning g → P g)
      → ((j : ℕ) (g : Section S) → pc j ≡ spinning g → P g)
      → (j : ℕ) (g : Section S) → update pc i x j ≡ spinning g
      → P g
  waiting-update pc i x h k j g e = elim (ℕ_discrete i j) [
    | yes q ↦ h g (sym (update_self pc x q) ∙ e)
    | no n ↦ k j g (sym (update_ne pc x n) ∙ e)
  ]

  call-IsSerial :
      (t : Threads S) (i : ℕ) (g : Section S)
      → IsSerial t
      → t.pc i ≡ outside
      → P g
      → IsSerial (record t { pc = update t.pc i (spinning g) })
  call-IsSerial t i g v e p = record {
    sections = v.sections;
    allowed = v.allowed;
    waiting = waiting-update t.pc i (spinning g) (λ h q. rw (sym (ap (wanted g) q)) p) v.waiting;
    locked = λ j gs q. ground (arith, v.locked j gs);
    holder = λ h. let (j, gs, q) = v.holder h in (j, gs, ground (arith));
    unique = λ j k gs hs q r. ground (arith, v.unique j k gs hs);
    closed = v.closed;
    open_section = λ j gs q. ground (arith, v.open_section j gs);
  }

  acquire-IsSerial :
      (t : Threads S) (i : ℕ) (g : Section S)
      → IsSerial t
      → t.pc i ≡ spinning g
      → t.held ≡ false
      → IsSerial (record t { held = true; pc = update t.pc i (inside (g t.shared)) })
  acquire-IsSerial t i g v e h = record {
    sections = v.sections ++ g ∷ [];
    allowed = AllSections-append P v.sections g v.allowed (v.waiting i g e);
    waiting = waiting-update t.pc i (inside (g t.shared)) (λ gs q. cc) v.waiting;
    locked = λ j gs q. refl;
    holder = λ h'. (i, g t.shared, update_self t.pc (inside (g t.shared)) refl);
    unique = λ j k gs hs q r. ground (arith, v.locked j gs, v.locked k hs);
    closed = λ h'. cc;
    open_section =
        λ j gs q. ground (arith, v.locked j gs, v.closed h, run_sections-append v.sections g s);
  }

  store-IsSerial :
      (t : Threads S) (i : ℕ) (f : S → S) (fs : List (S → S))
      → IsSerial t
      → t.pc i ≡ inside (f ∷ fs)
      → IsSerial (record t { shared = f t.shared; pc = update t.pc i (inside fs) })
  store-IsSerial t i f fs v e = record {
    sections = v.sections;
    allowed = v.allowed;
    waiting = waiting-update t.pc i (inside fs) (λ gs q. cc) v.waiting;
    locked = λ j gs q. v.locked i (f ∷ fs) e;
    holder = λ h. (i, fs, update_self t.pc (inside fs) refl);
    unique = λ j k gs hs q r. ground (arith, v.unique i j (f ∷ fs) gs, v.unique i k (f ∷ fs) hs);
    closed = λ h. ground (arith, v.locked i (f ∷ fs) e);
    open_section = λ j gs q. ground (arith, v.unique i j (f ∷ fs) gs, v.open_section i (f ∷ fs) e);
  }

  unlock-IsSerial :
      (t : Threads S) (i : ℕ)
      → IsSerial t
      → t.pc i ≡ inside []
      → IsSerial (record t { held = false; pc = update t.pc i outside })
  unlock-IsSerial t i v e = record {
    sections = v.sections;
    allowed = v.allowed;
    waiting = waiting-update t.pc i outside (λ gs q. cc) v.waiting;
    locked = λ j gs q. ground (arith, v.unique i j [] gs);
    holder = λ h. cc;
    unique = λ j k gs hs q r. ground (arith, v.unique j k gs hs);
    closed = λ h. v.open_section i [] e;
    open_section = λ j gs q. ground (arith, v.unique i j [] gs);
  }

  pub Step-IsSerial : (t u : Threads S) → IsSerial t → Step P t u → IsSerial u
  Step-IsSerial t u v (call i g e p) = call-IsSerial t i g v e p
  Step-IsSerial t u v (acquire i g e h) = acquire-IsSerial t i g v e h
  Step-IsSerial t u v (spin i g e) = v
  Step-IsSerial t u v (store i f fs e) = store-IsSerial t i f fs v e
  Step-IsSerial t u v (unlock i e) = unlock-IsSerial t i v e

  pub Reach-IsSerial : {t : Threads S} → Reach P s t → IsSerial t
  Reach-IsSerial start = unlocked-IsSerial
  Reach-IsSerial (later {t} {u} r st) = Step-IsSerial t u (Reach-IsSerial r) st
