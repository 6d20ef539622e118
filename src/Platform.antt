-- ===== src/Platform.antt =====
-- What the program uses of the system below it, none of which is in the repository: libc (`mmap`,
-- `mprotect`, `munmap`), memory itself, the `backtrace` crate and the standard library's `System`
-- allocator. `World` is whatever state these have.
pub mod Laws
use Prim.Native.String.{String}
use coffin.Prelude.{ℕ, Bool, Option, List}

pub record Platform : Type 1 where
  pub World : Type 0
  -- `mmap` of so many bytes, private, anonymous, readable and writable; `none` is MAP_FAILED.
  pub mmap : ℕ → World → Option ℕ × World
  -- `mprotect` of an address and a length to PROT_NONE, and whether it returned 0.
  pub mprotect_none : ℕ → ℕ → World → Bool × World
  -- `munmap` of an address and a length; the program never looks at the result.
  pub munmap : ℕ → ℕ → World → World
  -- `write_bytes`: from an address on, a byte so many times.
  pub write_bytes : ℕ → ℕ → ℕ → World → World
  -- One byte read; `none` is a fault.
  pub read_byte : ℕ → World → Option ℕ
  -- The instruction pointers that `trace_unsynchronized` walks through, innermost first.
  pub trace : World → List ℕ
  -- `System.alloc` of a size and an alignment, 0 being the null pointer, and `System.dealloc`.
  pub system_alloc : ℕ → ℕ → World → ℕ × World
  pub system_dealloc : ℕ → ℕ → ℕ → World → World
  -- `raw_write` of a message to stderr.
  pub write_stderr : String → World → World
