-- ===== src/Allocator/Process.antt =====
-- A thread that allocates and frees, from the first allocation on.
use coffin.Prelude.{
  ℕ, ◌*◌, ◌^◌, ◌≤◌, ◌<◌, ◌≡◌, refl, true, false, ◌⊎◌, inl, inr, Bool-cases, some, List, [], ◌∷◌,
  word, ◌==◌, ==_iff, ◌+◌,
}
use mathlib.Core.Path.{subst}
use coffin.Config.{Mode}
use coffin.Platform.{Platform}
use coffin.Platform.Laws.{IsSystem}
use coffin.Region.{Layout, Geometry, geometry_for}
use coffin.Region.Bounds.{IsRequest, geometry_for-Fences, Fences-of}
use coffin.Region.Map.{check_padding, Run, done, ◌>>=◌}
use coffin.Registry.{Arena, ready, new}
use coffin.Registry.Lookup.{Tracks, IsFresh}
use coffin.Registry.Invariant.{new-IsValid}
use coffin.Allocator.{Guard, enter, leave, alloc, dealloc}
use coffin.Allocator.Guarded.Alloc.{IsFenced, coffin_alloc-IsFenced}
use coffin.Allocator.Guarded.Dealloc.{IsLaid, coffin_dealloc-IsFenced, coffin_dealloc-fallback}
use Prim.Native.Nat.{max}

-- A call of the global allocator: `alloc`, and `dealloc` of a pointer.
pub data Event : Type 0 where
  allocate : Layout → Event
  release : ℕ → Layout → Event

-- The reentrancy guard of the thread, the arena and the rest of the world.
abbrev pub Process : Platform → Type 0
Process os = Guard × Arena × os.World

module _ (os : Platform) (m : Mode) (page_exp : ℕ) where
  abbrev pub page : ℕ
  page = 2 ^ page_exp

  unfoldable pub step : Event → Process os → Run (Process os)
  step (allocate l) (guard, a, w) = alloc os m page l guard a w >>= (λ r. done (r.1, r.2, r.3))
  step (release ptr l) (guard, a, w) = dealloc os m page ptr l guard a w

  unfoldable pub perform : List Event → Process os → Run (Process os)
  perform [] s = done s
  perform (e ∷ es) s = step e s >>= perform es

  module _ (sys : IsSystem os page) (k : ℕ) where
    -- A pointer of a live region, given back with the layout of that region, which `mprotect` seals
    -- when it is called, behind the check of the padding.
    pub record IsLive (a : Arena) (w : os.World) (ptr : ℕ) (l : Layout) : Type 0 where
      pub slot : ℕ
      pub tracked : Tracks a.slots a.cap ptr slot
      pub live : (a.slots slot).state ≡ ready
      pub geometry : Geometry
      pub computed : geometry_for l m page ≡ some geometry
      pub laid : IsLaid (a.slots slot) geometry
      pub sealable :
          (u : os.World)
          → check_padding os page ptr l m w ≡ done u
          → (os.mprotect_none (a.slots slot).base geometry.map_len u).0 ≡ true

    -- A pointer that the system allocator gave, whose padding bytes can be read.
    pub record IsFallback (a : Arena) (w : os.World) (ptr : ℕ) (l : Layout) : Type 0 where
      pub untracked : IsFresh a.slots a.cap ptr
      pub geometry : Geometry
      pub computed : geometry_for l m page ≡ some geometry
      pub readable :
          (j : ℕ) → j < geometry.pad → (b : ℕ) × (os.read_byte (ptr + max l.size 1 + j) w ≡ some b)

    -- What a well-behaved client may ask for next.
    abbrev pub IsPermitted : Event → Process os → Type 0
    IsPermitted (allocate l) (guard, a, w) = (e : ℕ) × IsRequest l e page_exp
    IsPermitted (release ptr l) (guard, a, w) =
        (ptr ≡ 0) ⊎ ((e : ℕ) × IsRequest l e page_exp × IsLive a w ptr l) ⊎ IsFallback a w ptr l

    -- The guard is down, and every tracked region is guarded.
    abbrev pub IsSound : Process os → Type 0
    IsSound (guard, a, w) = (guard ≡ some false) × IsFenced os sys k a w

    -- A permitted call comes to an end, and leaves a sound process.
    step-IsSound :
        (e : Event) (s : Process os)
        → IsSound s
        → IsPermitted e s
        → (s' : Process os) × (step e s ≡ done s') × IsSound s'
    unfolding step alloc dealloc enter leave
    step-IsSound (allocate l) (guard, a, w) (down, v) (e, r) =
        let (g, geo, f) = geometry_for-Fences l e page_exp m r in
        let (ptr, b, w', ran, v') = coffin_alloc-IsFenced os sys v l m g f geo in
        ((some false, b, w'), rw (down, step) (rw (ran, step) refl), (refl, v'))
    step-IsSound (release ptr l) (guard, a, w) (down, v) (inl z) =
        ((some false, a, w), rw (down, (==_iff ptr 0).1 z, step) refl, (refl, v))
    step-IsSound (release ptr l) (guard, a, w) (down, v) (inr (inl (e, r, live))) =
        elim (Bool-cases (ptr == 0)) [
          | inl z ↦ ((some false, a, w), rw (down, z, step) refl, (refl, v))
          | inr z ↦
              let f = Fences-of l e page_exp m live.geometry r live.computed in
              let (b, w', ran, v') =
                coffin_dealloc-IsFenced os sys v l m live.geometry f live.computed ptr live.slot
                  live.tracked live.laid live.live live.sealable in
              ((some false, b, w'), rw (down, z, step) (rw (ran, step) refl), (refl, v'))
        ]
    step-IsSound (release ptr l) (guard, a, w) (down, v) (inr (inr f)) =
        elim (Bool-cases (ptr == 0)) [
          | inl z ↦ ((some false, a, w), rw (down, z, step) refl, (refl, v))
          | inr z ↦
              let (w', ran, v') =
                coffin_dealloc-fallback os sys v l m f.geometry f.computed ptr f.untracked
                  f.readable in
              ((some false, a, w'), rw (down, z, step) (rw (ran, step) refl), (refl, v'))
        ]

    -- The rest of the calls is permitted where each leaves the process.
    abbrev pub After : Run (Process os) → (Process os → Type 0) → Type 0
    After (done s) P = P s
    After _ P = Unit

    abbrev pub ArePermitted : List Event → Process os → Type 0
    ArePermitted [] s = Unit
    ArePermitted (e ∷ es) s = IsPermitted e s × After (step e s) (ArePermitted es)

    pub perform-IsSound :
        (es : List Event) (s : Process os)
        → IsSound s
        → ArePermitted es s
        → (s' : Process os) × (perform es s ≡ done s') × IsSound s'
    unfolding perform
    perform-IsSound [] s v ok = (s, refl, v)
    perform-IsSound (e ∷ es) s v ok =
        let (s₁, ran, v₁) = step-IsSound e s v ok.0 in
        let (s₂, ran₂, v₂) =
          perform-IsSound es s₁ v₁ (subst (λ r. After r (ArePermitted es)) ran ok.1) in
        (s₂, rw (ran, perform) ran₂, v₂)

    pub start-IsSound :
        (q_cap : ℕ) (w : os.World)
        → k ≤ 63
        → 0 < q_cap
        → q_cap * 8 < word
        → IsSound (some false, new (2 ^ k) q_cap, w)
    start-IsSound q_cap w hk pos small = (
      refl,
      record {
        valid = new-IsValid k q_cap hk pos small;
        guarded = record {
          apart = record { apart = λ addr i j h h'. cc (h.1) };
          whole = λ i h s. cc s;
          fenced = λ addr i h. cc (h.1);
        };
      },
    )

    -- On a system that obeys the laws, a thread starts on a new arena of 2 ^ k slots, k at most 63,
    -- whose ring has a place and has a word of bytes. It calls, in any order, `alloc` with requests in
    -- range, and `dealloc` with null, with a live pointer and its layout, whose region `mprotect` seals
    -- when that call of `dealloc` asks it to, or with a pointer that the arena does not track and whose
    -- padding is readable. Then every call comes to an end, and afterwards the arena is valid, no two
    -- tracked regions share an address, the guard page of every live region and the whole of every
    -- region in quarantine are sealed, and the rest of every live region is writable.
    pub process-IsSound :
        (q_cap : ℕ) (es : List Event) (w : os.World)
        → k ≤ 63
        → 0 < q_cap
        → q_cap * 8 < word
        → ArePermitted es (some false, new (2 ^ k) q_cap, w)
        → (s : Process os) × (perform es (some false, new (2 ^ k) q_cap, w) ≡ done s) × IsSound s
    process-IsSound q_cap es w hk pos small ok =
        perform-IsSound es (some false, new (2 ^ k) q_cap, w) (start-IsSound q_cap w hk pos small)
          ok
