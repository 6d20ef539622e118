-- ===== src/Handler.antt =====
-- src/handler.rs: the report of a fault and the way the process ends. What is written to stderr is a
-- list of pieces, in the order of the calls of `put`, `dec` and `hex`.
pub mod Offset
pub mod Annotate
pub mod Stack
pub mod Handle
pub mod Caught
pub mod Reentry
pub mod Tests
use Prim.Native.String.{String}
use coffin.Prelude.{
  ℕ, ◌+◌, Bool, true, false, ◌||◌, Option, none, some, List, [], ◌∷◌, ◌++◌, if◌then◌else◌, ◌==◌,
  wrapping_add, wrapping_sub,
}
use coffin.Config.{OnFault, abort_with_signal, exit}
use coffin.Registry.{Arena}
use coffin.Fault.{
  FaultKind, overflow, underflow, use_after_free, live_region, wild, FaultInfo, classify, read_ips,
}

-- A text of the program, a number in decimal or in hexadecimal, or a text that the program has from
-- elsewhere, as its bytes.
pub data Piece : Type 0 where
  put : String → Piece
  dec hex : ℕ → Piece
  bytes : List ℕ → Piece

-- What the program reads of a `backtrace::Symbol`: its name as printed and as text, its file and its
-- line, where these are known and, for the texts, in UTF-8.
pub record Symbol : Type 0 where
  pub display : Option (List ℕ)
  pub name : Option (List ℕ)
  pub filename : Option (List ℕ)
  pub lineno : Option ℕ

-- The text for the fault, `none` if there is no registry.
abbrev pub fault_text : Option FaultKind → String
fault_text (some overflow) = "BUFFER OVERFLOW (write past end of allocation)\n"
fault_text (some underflow) = "BUFFER UNDERFLOW (write before allocation)\n"
fault_text (some use_after_free) = "USE-AFTER-FREE\n"
fault_text (some live_region) = "FAULT INSIDE LIVE REGION (unexpected)\n"
fault_text _ = "WILD POINTER (no tracked region)\n"

-- How far the address is from the buffer.
abbrev pub offset_line : FaultInfo → ℕ → List Piece
offset_line fi addr = elim fi.kind [
  | overflow ↦
      put "  overflow      : "
      ∷ dec (wrapping_sub addr (wrapping_add fi.user_ptr fi.size))
      ∷ put " byte(s) past the end of the buffer\n"
      ∷ []
  | underflow ↦
      put "  underflow     : "
      ∷ dec (wrapping_sub fi.user_ptr addr)
      ∷ put " byte(s) before the start of the buffer\n"
      ∷ []
  | use_after_free ↦
      put "  offset        : "
      ∷ dec (wrapping_sub addr fi.user_ptr)
      ∷ put " byte(s) into the freed buffer\n"
      ∷ []
  | _ ↦ []
]

abbrev pub name_lines : Option (List ℕ) → List Piece
name_lines none = []
name_lines (some name) = put "        " ∷ bytes name ∷ put "\n" ∷ []

abbrev pub place_lines : Option (List ℕ) → Option ℕ → List Piece
place_lines (some file) (some line) =
    put "          at " ∷ bytes file ∷ put ":" ∷ dec line ∷ put "\n" ∷ []
place_lines _ _ = []

-- The closure of `symbolize_ip` over the symbols that `resolve` calls it for.
unfoldable pub symbol_lines : List Symbol → List Piece
symbol_lines [] = []
symbol_lines (sym ∷ syms) =
    name_lines sym.display ++ (place_lines sym.filename sym.lineno ++ symbol_lines syms)

-- `any`, at the end of that loop.
unfoldable pub any_frame : List ℕ → Bool
any_frame [] = false
any_frame (ip ∷ ips) = if ip == 0 then any_frame ips else true

abbrev pub is_use_after_free : FaultKind → Bool
is_use_after_free use_after_free = true
is_use_after_free _ = false

abbrev pub is_wild : FaultKind → Bool
is_wild wild = true
is_wild _ = false

-- `registry::try_get().map(|a| a.classify(addr))`
abbrev pub look_up : ℕ → Option Arena → ℕ → Option (Arena × FaultInfo)
look_up page none addr = none
look_up page (some a) addr = some (a, classify page a addr)

abbrev pub kind_found : Option (Arena × FaultInfo) → Option FaultKind
kind_found none = none
kind_found (some (a, fi)) = some fi.kind

abbrev pub sig_name : ℕ → ℕ → ℕ → String
sig_name sigsegv sigbus sig =
    if sig == sigsegv then "SIGSEGV" else if sig == sigbus then "SIGBUS" else "signal"

-- How `handle` ends: the process exits with a code, or the two signals get back their default
-- disposition and the faulting instruction runs again.
pub data Ending : Type 0 where
  exited : ℕ → Ending
  rerun_with_default : Ending

abbrev pub ending : OnFault → Ending
ending (exit code) = exited code
ending abort_with_signal = rerun_with_default

-- Where the region and its buffer are.
abbrev pub buffer_lines : FaultInfo → List Piece
buffer_lines fi =
    put "  region        : base "
    ∷ hex fi.base
    ∷ put " .. "
    ∷ hex (wrapping_add fi.base fi.total_len)
    ∷ put " ("
    ∷ dec fi.total_len
    ∷ put " bytes mapped)\n"
    ∷ put "  user buffer   : "
    ∷ hex fi.user_ptr
    ∷ put "  size "
    ∷ dec fi.size
    ∷ put "  align "
    ∷ dec fi.align
    ∷ put "\n"
    ∷ []

-- A report on a fault of some kind, around the lines on what was found.
unfoldable pub framed : ℕ → ℕ → ℕ → ℕ → Bool → Option FaultKind → List Piece → List Piece
framed sigsegv sigbus sig addr symbolize kind found =
    (put "\n========================= COFFIN =========================\n"
      ∷ put "  signal        : "
      ∷ put (sig_name sigsegv sigbus sig)
      ∷ put " ("
      ∷ dec sig
      ∷ put ")\n"
      ∷ put "  fault address : "
      ∷ hex addr
      ∷ put "\n"
      ∷ put "  fault         : "
      ∷ put (fault_text kind)
      ∷ [])
    ++ (found
        ++ ((if symbolize
              then []
              else put "  hint          : set COFFIN_SYMBOLIZE=1 for symbol names + file:line\n"
                ∷ [])
            ++ (put "==========================================================\n" ∷ [])))

-- What goes to stderr. `resolve`: the symbols of an instruction pointer, for the `backtrace` crate to
-- say.
module _ (resolve : ℕ → List Symbol) where
  abbrev pub symbolize_ip : ℕ → List Piece
  symbolize_ip ip = symbol_lines (resolve ip)

  -- The loop of `dump_stack` over the frames, which skips the places left over.
  unfoldable pub frames : Bool → List ℕ → List Piece
  frames symbolize [] = []
  frames symbolize (ip ∷ ips) =
      let rest = frames symbolize ips in
      if ip == 0
      then rest
      else put "      " ∷ hex ip ∷ put "\n" ∷ (if symbolize then symbolize_ip ip ++ rest else rest)

  unfoldable pub dump_stack : Arena → ℕ → Bool → Bool → List Piece
  dump_stack a slot free symbolize =
      let ips = read_ips a slot free in
      frames symbolize ips
      ++ (if any_frame ips then [] else put "      <no frames captured>\n" ∷ [])

  -- The lines about a region that was found.
  unfoldable pub region_lines : Arena → FaultInfo → ℕ → Bool → List Piece
  region_lines a fi addr symbolize =
      buffer_lines fi
      ++ (offset_line fi addr
          ++ (put "  allocated at  :\n"
              ∷ (dump_stack a fi.slot false symbolize
                  ++ (if is_use_after_free fi.kind
                      then put "  freed at      :\n" ∷ dump_stack a fi.slot true symbolize
                      else []))))

  -- The lines behind the name of the fault; `none` is a process without a registry.
  unfoldable pub found_lines : Option (Arena × FaultInfo) → ℕ → Bool → List Piece
  found_lines none addr symbolize =
      put "  (address is not inside any live or quarantined allocation)\n" ∷ []
  found_lines (some (a, fi)) addr symbolize =
      if is_wild fi.kind
      then put "  (address is not inside any live or quarantined allocation)\n" ∷ []
      else region_lines a fi addr symbolize

  -- `report`, up to the annotations.
  unfoldable pub report : ℕ → ℕ → ℕ → Option Arena → ℕ → ℕ → Bool → List Piece
  unfolding framed
  report sigsegv sigbus page registry sig addr symbolize =
      let info = look_up page registry addr in
      framed sigsegv sigbus sig addr symbolize (kind_found info) (found_lines info addr symbolize)
