-- ===== src/Machine.antt =====
-- The state of one hart and of its memory system (riscv64_CPU_state of
-- isa/riscv64/include/isa-def.h, csr_array of isa/riscv64/system/priv.c, pmem of memory/paddr.c,
-- the maps of device/io/mmio.c), and computations that may leave by longjmp_exception.
pub mod Csr
pub mod Laws
use nemu.Base.{ℕ, ◌==◌, ◌!=◌, if◌then◌else◌, Bool, true, false, List}

-- One MMIO region. `callback` is what the device does to its own bytes.
pub record IoMap : Type 0 where
  pub low : ℕ
  pub high : ℕ
  pub space : ℕ → ℕ
  pub callback : ℕ → ℕ → Bool → (ℕ → ℕ) → ℕ → ℕ

-- An entry of the host TLB: the displacement to host memory, and the page it serves.
pub record HostTlbEntry : Type 0 where
  pub offset : ℕ
  pub gvpn : ℕ

-- struct ExecutionGuide, less the jump target, with the counters of force_raise_pf_record.
pub record Guide : Type 0 where
  pub guided_exec : Bool
  pub force_raise_exception : Bool
  pub exception_num : ℕ
  pub mtval : ℕ
  pub stval : ℕ
  pub last_addr : ℕ → ℕ
  pub force_count : ℕ → ℕ

-- `clint_*` are the two registers of the timer, `host_time` is what the next get_time returns.
pub record Machine : Type 0 where
  pub csr_array : ℕ → ℕ
  pub csr_perf : ℕ
  pub gpr : ℕ → ℕ
  pub pc : ℕ
  pub mode : ℕ
  pub amo : Bool
  pub lr_addr : ℕ
  pub lr_valid : ℕ
  pub ifetch_mmu_state : ℕ
  pub data_mmu_state : ℕ
  pub sys_state_flag : ℕ
  pub hostrtlb : ℕ → HostTlbEntry
  pub hostwtlb : ℕ → HostTlbEntry
  pub rm_cache : ℕ
  pub pmem : ℕ → ℕ
  pub maps : List IoMap
  pub guide : Guide
  pub clint_mtime : ℕ
  pub clint_mtimecmp : ℕ
  pub boot_time : ℕ
  pub host_time : ℕ

-- The kinds of access, MEM_TYPE_IFETCH and so on; the last two are reads of a page walk.
pub data MemType : Type 0 where
  ifetch read write ifetch_read write_read : MemType

abbrev pub is_ifetch : MemType → Bool
is_ifetch ifetch = true
is_ifetch _ = false

abbrev pub is_read : MemType → Bool
is_read read = true
is_read _ = false

abbrev pub is_write : MemType → Bool
is_write write = true
is_write _ = false

abbrev pub is_any_read : MemType → Bool
is_any_read read = true
is_any_read ifetch_read = true
is_any_read write_read = true
is_any_read _ = false

-- enum { MODE_U, MODE_S, MODE_H, MODE_M }.
abbrev pub mode_u : ℕ
mode_u = 0

abbrev pub mode_s : ℕ
mode_s = 1

abbrev pub mode_h : ℕ
mode_h = 2

abbrev pub mode_m : ℕ
mode_m = 3

-- An assignment to one element of an array.
abbrev pub update {ℓ} : {A : Type ℓ} → (ℕ → A) → ℕ → A → ℕ → A
update f k v i = if i == k then v else f i

abbrev pub set_csr : ℕ → ℕ → Machine → Machine
set_csr a v s = record s { csr_array = update s.csr_array a v }

-- How a call ends: it returns, it leaves by longjmp_exception with a cause, or the emulator stops
-- (a failed assert or a panic).
pub data Outcome (A : Type 0) : Type 0 where
  ok : A → Machine → Outcome A
  raised : ℕ → Machine → Outcome A
  panicked : Outcome A

abbrev pub M : Type 0 → Type 0
M A = Machine → Outcome A

abbrev pub pure : {A : Type 0} → A → M A
pure = ok

module _ {A B : Type 0} where
  abbrev pub and_then : Outcome A → (A → M B) → Outcome B
  and_then (ok a s) k = k a s
  and_then (raised ex s) k = raised ex s
  and_then panicked k = panicked

  infixl 5 ◌>>=◌ ◌>>◌
  abbrev pub ◌>>=◌ : M A → (A → M B) → M B
  m >>= k = λ s. and_then (m s) k

  abbrev pub ◌>>◌ : M A → M B → M B
  m >> n = m >>= λ _. n

abbrev pub longjmp_exception : {A : Type 0} → ℕ → M A
longjmp_exception ex s = raised ex s

abbrev pub panic : {A : Type 0} → M A
panic s = panicked

abbrev pub assert : Bool → M (Unit {0})
assert true s = ok tt s
assert false s = panicked

abbrev pub get : M Machine
get s = ok s s

abbrev pub modify : (Machine → Machine) → M (Unit {0})
modify f s = ok tt (f s)

abbrev pub csr : ℕ → M ℕ
csr a s = ok (s.csr_array a) s

abbrev pub write_csr : ℕ → ℕ → M (Unit {0})
write_csr a v s = ok tt (set_csr a v s)

abbrev pub when : Bool → M (Unit {0}) → M (Unit {0})
when true m s = m s
when false m s = ok tt s

-- `name->field = v` on a register.
abbrev pub on_csr : ℕ → (ℕ → ℕ) → M (Unit {0})
on_csr a f s = ok tt (set_csr a (f (s.csr_array a)) s)

abbrev pub set_mode : ℕ → M (Unit {0})
set_mode m s = ok tt (record s { mode = m })

-- The truth value of an integer.
abbrev pub truth : ℕ → Bool
truth w = w != 0
