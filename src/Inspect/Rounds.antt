-- ===== src/Inspect/Rounds.antt =====
-- The rounds of examples/inspect.rs as the registry sees them: a region is tracked and freed at once,
-- over and over, and the quarantine stays bounded.
use coffin.Prelude.{
  ℕ, ◌+◌, ◌<◌, ◌≤◌, ◌≡◌, refl, ap, List, [], ◌∷◌, length, arith, word, update_self,
}
use coffin.Platform.{Platform}
use coffin.Registry.{ready, is_vacant, Region, Arena, Entry, insert, free, publish, capture_ips}
use coffin.Registry.Invariant.{IsValid, insert-IsValid, cap-le}
use coffin.Registry.Room.{insert-stores}
use coffin.Registry.Lookup.{Tracks, IsFresh}
use coffin.Registry.Free.{free-IsValid}
use coffin.Registry.Run.{free-sizes}
use coffin.Inspect.{live_count, eviction_count, quarantine_len}
use coffin.Inspect.Accounts.{free-live}

module _ (os : Platform) where
  -- One round: the region of `e` is tracked, and freed.
  abbrev pub round : Entry → Arena → os.World → Arena × os.World
  round e a w = let (r, b, w') = free os e.user_ptr e.total_len (insert os e a w).1 w in (b, w')

  abbrev pub rounds : List Entry → Arena → os.World → Arena
  rounds [] a w = a
  rounds (e ∷ es) a w = let (b, w') = round e a w in rounds es b w'

  -- No region is at an address that is still tracked.
  abbrev pub IsAdmitted : List Entry → Arena → os.World → Type 0
  IsAdmitted [] a w = Unit
  IsAdmitted (e ∷ es) a w =
      IsFresh a.slots a.cap e.user_ptr × (let (b, w') = round e a w in IsAdmitted es b w')

  -- What `insert` of a new region leaves, where there is room.
  record IsInserted (a b : Arena) (ptr : ℕ) : Type 0 where
    slot : ℕ
    tracked : Tracks b.slots b.cap ptr slot
    live : (b.slots slot).state ≡ ready
    counts :
        (b.live ≡ a.live + 1)
        × (b.q_len ≡ a.q_len)
        × (b.evictions ≡ a.evictions)
        × (b.cap ≡ a.cap)
        × (b.q_cap ≡ a.q_cap)

  insert-IsInserted :
      {k : ℕ} {a : Arena} (v : IsValid k a) (e : Entry) (w : os.World)
      → a.live + a.q_len < a.cap
      → IsInserted a (insert os e a w).1 e.user_ptr
  insert-IsInserted {a} v e w room =
      let (i, lt, vacant, stored) = insert-stores v os e w room in
      let r = publish e (capture_ips (os.trace w)) (a.slots i) in
      rw stored (record {
        slot = i;
        tracked = (
          lt,
          ap (λ (q : Region). is_vacant q.state) (update_self a.slots r refl),
          ap (λ (q : Region). q.user_ptr) (update_self a.slots r refl),
        );
        live = ap (λ (q : Region). q.state) (update_self a.slots r refl);
        counts = (omega (arith, room, cap-le v), refl, refl, refl, refl);
      })

  -- What a round leaves.
  record IsNext (k : ℕ) (a b : Arena) : Type 0 where
    valid : IsValid k b
    counts :
        (b.live ≡ a.live)
        × (b.cap ≡ a.cap)
        × (b.q_cap ≡ a.q_cap)
        × (b.q_len + b.evictions ≡ a.q_len + a.evictions + 1)

  round-IsNext :
      {k : ℕ} {a : Arena} (v : IsValid k a) (e : Entry) (w : os.World)
      → IsFresh a.slots a.cap e.user_ptr
      → a.live + a.q_len < a.cap
      → a.evictions + 1 < word
      → IsNext k a (round e a w).0
  round-IsNext {a} v e w fresh room few =
      let b = (insert os e a w).1 in
      let v' = insert-IsValid v os e w fresh in
      let put = insert-IsInserted v e w room in
      let sizes = free-sizes os b w e.user_ptr e.total_len in
      let freed =
        free-live os v' w e.user_ptr e.total_len put.slot put.tracked put.live
          (omega (arith, put.counts)) in
      record {
        valid = free-IsValid os v' e.user_ptr e.total_len w;
        counts = (
          omega (arith, freed, put.counts),
          omega (arith, sizes, put.counts),
          omega (arith, sizes, put.counts),
          omega (arith, freed, put.counts),
        );
      }

  -- On a valid arena whose table has more slots than live regions and places in quarantine, every round
  -- of an insert and a free leaves the number of live regions as it was, the quarantine within its
  -- bound, and one more region in quarantine or evicted, as long as the count of evictions does not
  -- wrap.
  pub rounds-evict :
      {k : ℕ} {a : Arena}
      → IsValid k a
      → (es : List Entry) (w : os.World) → IsAdmitted es a w
      → a.live + a.q_cap < a.cap
      → a.q_len + a.evictions + length es < word
      → let b = rounds es a w in
        (live_count b ≡ live_count a)
        × (quarantine_len b ≤ a.q_cap)
        × (quarantine_len b + eviction_count b ≡ quarantine_len a + eviction_count a + length es)
  rounds-evict v [] w ok room few = (refl, v.ring.len_in, omega arith)
  rounds-evict {a} v (e ∷ es) w (fresh, ok) room few =
      let n = round-IsNext v e w fresh (omega (arith, v.ring.len_in)) (omega arith) in
      let (b, w') = round e a w in
      let later =
        rounds-evict {a = b} n.valid es w' ok (omega (arith, n.counts)) (omega (arith, n.counts)) in
      (
        omega (arith, later, n.counts),
        omega (arith, later, n.counts),
        omega (arith, later, n.counts),
      )
