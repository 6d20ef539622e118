-- ===== src/Platform/Laws.antt =====
-- What the program relies on below it: what `mmap`, `mprotect` and the others do to the access that
-- the process has to an address.
use coffin.Prelude.{ℕ, ◌+◌, ◌%◌, ◌<◌, ◌≡◌, Bool, true, false, ◌&&◌, none, some, ltb, leb, word}
use coffin.Platform.{Platform}

-- An address is not mapped; mapped by others than this program's calls of `mmap`; mapped by one of
-- these and readable and writable; or mapped by one and inaccessible.
pub data Access : Type 0 where
  absent foreign writable sealed : Access

-- The program mapped the address.
abbrev pub is_ours : Access → Bool
is_ours writable = true
is_ours sealed = true
is_ours _ = false

abbrev pub within : ℕ → ℕ → ℕ → Bool
within base len addr = leb base addr && ltb addr (base + len)

-- The system, seen through the access to each address, with pages of `page` bytes.
pub record IsSystem (os : Platform) (page : ℕ) : Type 0 where
  pub access : ℕ → os.World → Access
  -- A mapping stands on whole pages, inside the address space, where nothing was mapped.
  pub mmap_whole : (n base : ℕ) (w : os.World) → (os.mmap n w).0 ≡ some base → base % page ≡ 0
  pub mmap_inside : (n base : ℕ) (w : os.World) → (os.mmap n w).0 ≡ some base → base + n < word
  pub mmap_new :
      (n base : ℕ) (w : os.World)
      → (os.mmap n w).0 ≡ some base
      → (addr : ℕ) → within base n addr ≡ true
      → access addr w ≡ absent
  pub mmap_writable :
      (n base : ℕ) (w : os.World)
      → (os.mmap n w).0 ≡ some base
      → (addr : ℕ) → within base n addr ≡ true
      → access addr (os.mmap n w).1 ≡ writable
  pub mmap_outside :
      (n base : ℕ) (w : os.World)
      → n % page ≡ 0
      → (os.mmap n w).0 ≡ some base
      → (addr : ℕ) → within base n addr ≡ false
      → access addr (os.mmap n w).1 ≡ access addr w
  pub mmap_failed :
      (n : ℕ) (w : os.World)
      → (os.mmap n w).0 ≡ none
      → (addr : ℕ) → access addr (os.mmap n w).1 ≡ access addr w
  -- `mprotect` and `munmap` of whole pages leave every other address alone.
  pub mprotect_sealed :
      (base n : ℕ) (w : os.World)
      → base % page ≡ 0
      → n % page ≡ 0
      → (os.mprotect_none base n w).0 ≡ true
      → (addr : ℕ) → within base n addr ≡ true
      → is_ours (access addr w) ≡ true
      → access addr (os.mprotect_none base n w).1 ≡ sealed
  pub mprotect_outside :
      (base n : ℕ) (w : os.World)
      → base % page ≡ 0
      → n % page ≡ 0
      → (addr : ℕ) → within base n addr ≡ false
      → access addr (os.mprotect_none base n w).1 ≡ access addr w
  pub munmap_outside :
      (base n : ℕ) (w : os.World)
      → base % page ≡ 0
      → n % page ≡ 0
      → (addr : ℕ) → within base n addr ≡ false
      → access addr (os.munmap base n w) ≡ access addr w
  -- Writing changes no access, and the system allocator keeps to its own mappings.
  pub write_bytes_access :
      (base byte n : ℕ) (w : os.World) (addr : ℕ)
      → access addr (os.write_bytes base byte n w) ≡ access addr w
  pub write_stderr_access :
      (message : _) (w : os.World) (addr : ℕ)
      → access addr (os.write_stderr message w) ≡ access addr w
  pub system_alloc_access :
      (size align : ℕ) (w : os.World) (addr : ℕ)
      → is_ours (access addr w) ≡ true
      → access addr (os.system_alloc size align w).1 ≡ access addr w
  pub system_dealloc_access :
      (ptr size align : ℕ) (w : os.World) (addr : ℕ)
      → is_ours (access addr w) ≡ true
      → access addr (os.system_dealloc ptr size align w) ≡ access addr w
  -- A byte can be read where it is writable, and not where it is sealed.
  pub read_writable :
      (addr : ℕ) (w : os.World)
      → access addr w ≡ writable
      → (b : ℕ) × (os.read_byte addr w ≡ some b)
  pub read_sealed : (addr : ℕ) (w : os.World) → access addr w ≡ sealed → os.read_byte addr w ≡ none
