-- ===== src/Registry/Atomics/Held.antt =====
-- Every access keeps the executions coherent, and what the holder of the lock reads.
use coffin.Prelude.{
  ℕ, suc, ◌≤◌, ◌<◌, ◌≡◌, ◌≢◌, refl, sym, ap, ◌∙◌, true, false, inl, inr, none, some, arith,
  Bool-cases, update, update_self, update_ne,
}
use mathlib.Core.Path.{subst}
use native.Mathlib.Decide.{ℕ_discrete}
use coffin.Registry.Atomics.{
  MemoryOrder, relaxed, Message, Execution, held, after_load, carried, load_by, store_by, lock_by,
  unlock_by, lock_order, unlock_order, Acts, load, store, lock, spin, unlock, Acted, still, later,
  zeroed,
}
use coffin.Registry.Atomics.Coherence.{
  IsLast, IsCoherent, zeroed-IsCoherent, after_load-le, Covers-le, Covers-put, Covers-put_held,
  IsCoherent-IsHolder,
}
use coffin.Registry.Atomics.Taken.{
  IsLast-put, IsLast-free, IsLast-taken, IsLast-given, Covers-lock, Covers-unlock, IsFree-of,
}

pub load_by-view :
    (i : ℕ) (o : MemoryOrder) (x t : ℕ) (m : Message) (e : Execution)
    → e.view i x ≤ t
    → (j y : ℕ) → e.view j y ≤ (load_by i o x t m e).view j y
load_by-view i o x t m e h j y = elim (ℕ_discrete i j) [
  | yes p ↦
      rw (update_self e.view (after_load o (e.view i) x t m) p)
        (rw (sym p) (after_load-le o (e.view i) x t m h y))
  | no n ↦ rw (update_ne e.view (after_load o (e.view i) x t m) n) (omega arith)
]

load_by-IsCoherent :
    (i : ℕ) (o : MemoryOrder) (x t : ℕ) (m : Message) (e : Execution)
    → e.view i x ≤ t
    → IsCoherent e
    → IsCoherent (load_by i o x t m e)
load_by-IsCoherent i o x t m e h v = record {
  last = v.last;
  latest = v.latest;
  of_lock = v.of_lock;
  phase = elim v.phase [
    | inl f ↦ inl (record { value = f.value; nobody = f.nobody; covered = f.covered })
    | inr f ↦
        let grown = load_by-view i o x t m e h f.holder in
        inr (record {
          value = f.value;
          holder = f.holder;
          holds = f.holds;
          only = f.only;
          reached = omega (arith, f.reached, grown held);
          covered = Covers-le e.messages (e.view f.holder) _ f.covered grown;
        })
  ];
}

pub store_by-IsCoherent :
    (i : ℕ) (o : MemoryOrder) (x t value : ℕ) (e : Execution)
    → x ≢ held
    → e.holds i ≡ true
    → e.view i x < t
    → IsCoherent e
    → IsCoherent (store_by i o x t value e)
store_by-IsCoherent i o x t value e n holds h v =
    let f = IsCoherent-IsHolder v i holds in
    let now = update_self e.view (update (e.view i) x t) {i = i} refl in
    record {
      last = v.last;
      latest = v.latest;
      of_lock = IsLast-put e.messages v.last v.latest x t _ (λ p. n (sym p)) v.of_lock;
      phase = inr (record {
        value = f.value;
        holder = i;
        holds = holds;
        only = f.only;
        reached = rw now (rw (update_ne (e.view i) t n) f.reached);
        covered = rw now (Covers-put e.messages (e.view i) x t _ f.covered h);
      });
    }

IsCoherent-lock :
    (i t : ℕ) (m : Message) (e : Execution)
    → e.messages held t ≡ some m
    → m.value ≡ 0
    → e.view i held ≤ t
    → e.messages held (suc t) ≡ none
    → IsCoherent e
    → IsCoherent (lock_by i t m e)
IsCoherent-lock i t m e at zero_value reached free v =
    let (p, same) = IsLast-free e.messages v.last t v.latest m v.of_lock at zero_value free in
    let f = IsFree-of v (ap (λ (n : Message). n.value) (sym same) ∙ zero_value) in
    let now =
      update_self e.view (update (after_load lock_order (e.view i) held t m) held (suc t)) {i = i}
        refl in
    record {
      last = suc t;
      latest = record { value = 1; view = update m.view held (suc t) };
      of_lock =
          IsLast-taken e.messages t v.latest _
            (subst (λ n. IsLast e.messages n v.latest) (sym p) v.of_lock);
      phase = inr (record {
        value = refl;
        holder = i;
        holds = update_self e.holds true {i = i} refl;
        only = λ j h. elim (ℕ_discrete i j) [
          | yes q ↦ q
          | no n ↦ cc (f.nobody j, sym (update_ne e.holds true n) ∙ h)
        ];
        reached = rw now (omega arith);
        covered = rw now (
            Covers-put_held e.messages _ (suc t) _
              (Covers-lock e.messages (e.view i) t m (rw same f.covered)));
      });
    }

others :
    (e : Execution) (i j : ℕ) → i ≢ j → ((j : ℕ) → e.holds j ≡ true → i ≡ j) → e.holds j ≡ false
others e i j n only = elim (Bool-cases (e.holds j)) [ inl p ↦ absurd (n (only j p)) | inr p ↦ p ]

IsCoherent-unlock :
    (i t : ℕ) (e : Execution)
    → e.holds i ≡ true
    → e.view i held < t
    → IsCoherent e
    → IsCoherent (unlock_by i t e)
IsCoherent-unlock i t e holds h v =
    let f = IsCoherent-IsHolder v i holds in
    record {
      last = t;
      latest = record { value = 0; view = carried unlock_order (e.view i) held t };
      of_lock =
          IsLast-given e.messages v.last t v.latest _ f.value (omega (arith, h, f.reached))
            v.of_lock;
      phase = inl (record {
        value = refl;
        nobody = λ j. elim (ℕ_discrete i j) [
          | yes q ↦ update_self e.holds false q
          | no n ↦ update_ne e.holds false n ∙ others e i j n f.only
        ];
        covered =
            Covers-put_held e.messages _ t _ (Covers-unlock e.messages (e.view i) t f.covered);
      });
    }

pub Acts-IsCoherent : (i : ℕ) {e e' : Execution} → Acts i e e' → IsCoherent e → IsCoherent e'
Acts-IsCoherent i {e} (load o x t m n at reached) v = load_by-IsCoherent i o x t m e reached v
Acts-IsCoherent i {e} (store o x t value n holds h free) v =
    store_by-IsCoherent i o x t value e n holds h v
Acts-IsCoherent i {e} (lock t m out at zero_value reached free) v =
    IsCoherent-lock i t m e at zero_value reached free v
Acts-IsCoherent i {e} (spin t m out at reached) v =
    load_by-IsCoherent i relaxed held t m e reached v
Acts-IsCoherent i {e} (unlock t holds h free) v = IsCoherent-unlock i t e holds h v

pub Acted-IsCoherent : {e e' : Execution} → Acted e e' → IsCoherent e → IsCoherent e'
Acted-IsCoherent still v = v
Acted-IsCoherent (later i r a) v = Acts-IsCoherent i a (Acted-IsCoherent r v)

-- In every execution from zeroed memory on, a thread that holds the lock is the only one, and at every
-- place but the lock it can load no message but the newest: the stores of all the threads that held the
-- lock before are in its view.
pub holder-newest :
    {e : Execution}
    → Acted zeroed e
    → (i : ℕ) → e.holds i ≡ true
    → (x t : ℕ) → x ≢ held
    → e.view i x ≤ t
    → (j u : ℕ) → (e.holds j ≡ true → i ≡ j) × (t < u → e.messages x u ≡ none)
holder-newest {e} r i holds x t n reached j u =
    let f = IsCoherent-IsHolder (Acted-IsCoherent r zeroed-IsCoherent) i holds in
    (f.only j, λ h. f.covered x u n (omega arith))
