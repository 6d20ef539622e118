-- ===== src/Registry/Publish/Tests.antt =====
-- Two threads that want the lock: one inserts, and the other spins before it is done.
use coffin.Prelude.{ℕ, ◌≡◌, refl, true, some, List, ◌⊎◌, arith, update, take, ◌^◌, inl, inr}
use coffin.Samples.{host, entry_at}
use coffin.Registry.{Arena, Entry, new, insert, find_vacant, home, capture_ips, seal}
use coffin.Registry.Invariant.{IsValid, new-IsValid}
use coffin.Registry.Run.{Call, put}
use coffin.Registry.Lock.{
  Section, outside, spinning, inside, Threads, unlocked, call, acquire, Reach, start, later,
  apply_all,
}
use coffin.Registry.Lock.Exclusion.{Steps, Reach-Steps, finish, mutual_exclusion, lock-acquires}
use coffin.Registry.Publish.{insert_stores, seal_stores}
use coffin.Registry.Publish.Looks.{LooksLike}
use coffin.Registry.Publish.Unseen.{insert-Unseen, seal-Unseen}
use coffin.Registry.Publish.Writers.{section_of, effects, IsCall, writers-serial, AllWanted}

abbrev State : Type 0
State = Arena × ℕ

abbrev fresh : Arena
fresh = new (2 ^ 2) 1

abbrev first : Entry
first = entry_at 0x10000

abbrev second : Entry
second = entry_at 0x20000

abbrev mine : Section State
mine = section_of host (put first)

abbrev other : Section State
other = section_of host (put second)

abbrev Wanted : Call → Type 0
Wanted c = (c ≡ put first) ⊎ (c ≡ put second)

abbrev both_want : Threads State
both_want = record (unlocked (fresh, 0)) {
  pc = update (update (λ _. outside) 0 (spinning mine)) 1 (spinning other);
}

both_want-Reach : Reach (IsCall host Wanted) (fresh, 0) both_want
both_want-Reach =
    later (later start (call 0 mine refl (put first, inl refl, refl)))
      (call 1 other refl (put second, inr refl, refl))

-- Thread 0 has the lock.
abbrev one_has : Threads State
one_has = record both_want { held = true; pc = update both_want.pc 0 (inside (mine (fresh, 0))) }

one_has-Reach : Reach (IsCall host Wanted) (fresh, 0) one_has
one_has-Reach = later both_want-Reach (acquire 0 mine refl refl)

mutual_exclusion_test : ◌≡◌ {A = ℕ} 0 0
mutual_exclusion_test =
    mutual_exclusion one_has-Reach 0 0 (mine (fresh, 0)) (mine (fresh, 0)) refl refl

lock-acquires_example :
    (u : Threads State) × Steps (IsCall host Wanted) one_has u × (u.pc 1 ≡ inside (other u.shared))
lock-acquires_example = lock-acquires one_has-Reach 1 other refl

-- Thread 0 is through.
abbrev one_done : Threads State
one_done = (finish {P = IsCall host Wanted} one_has 0 (mine (fresh, 0)) refl).0

one_done-Reach : Reach (IsCall host Wanted) (fresh, 0) one_done
one_done-Reach =
    Reach-Steps one_has-Reach (finish {P = IsCall host Wanted} one_has 0 (mine (fresh, 0)) refl).1

writers-serial_example :
    (cs : List Call) × AllWanted host Wanted cs × (one_done.shared ≡ effects host cs (fresh, 0))
writers-serial_example =
    writers-serial host one_done-Reach
      (finish {P = IsCall host Wanted} one_has 0 (mine (fresh, 0)) refl).2

fresh-IsValid : IsValid 2 fresh
fresh-IsValid = new-IsValid 2 1 (omega arith) (omega arith) (omega arith)

abbrev slot : ℕ
slot = home 3 first.user_ptr

abbrev ips : List ℕ
ips = capture_ips (host.trace 0)

fresh-takes :
    find_vacant fresh.slots fresh.mask fresh.cap (home fresh.mask first.user_ptr) ≡ some slot
unfolding find_vacant
fresh-takes = refl

-- Three of the nine stores are made.
insert-Unseen_example :
    LooksLike (apply_all (take 3 (insert_stores first ips slot)) fresh) fresh
    ⊎ LooksLike
        (apply_all (take 3 (insert_stores first ips slot)) fresh)
        (insert host first fresh 0).1
insert-Unseen_example = insert-Unseen host fresh 0 slot fresh-IsValid first fresh-takes 3

abbrev one_live : Arena
one_live = (insert host first fresh 0).1

seal-Unseen_test :
    LooksLike (apply_all (take 1 (seal_stores ips slot)) one_live) one_live
    ⊎ LooksLike
        (apply_all (take 1 (seal_stores ips slot)) one_live)
        (seal host slot 8192 one_live 0).0
seal-Unseen_test = seal-Unseen host one_live 0 slot 8192 1
