-- ===== src/Memory/StoreQueue.antt =====
-- The ring of committed stores that difftest compares (memory/paddr.c, in builds with
-- CONFIG_DIFFTEST_STORE_COMMIT and without CONFIG_DIFFTEST_STORE_COMMIT_AMO).
pub mod Fifo
use nemu.Base.{ℕ, zero, suc, ◌+◌, ◌-◌, ◌*◌, ◌/◌, ◌%◌, ◌^◌, Bool, true, false, not, ◌&&◌, ◌||◌}
use nemu.Base.{◌==◌, ◌!=◌, if◌then◌else◌, Option, none, some}
use nemu.Machine.{update}

abbrev pub store_queue_size : ℕ
store_queue_size = 64

-- store_commit_t.
pub record StoreCommit : Type 0 where
  pub addr : ℕ
  pub bytes : ℕ
  pub mask : ℕ
  pub valid : Bool

-- The ring with its two indices, which are static in the code.
pub record Ring : Type 0 where
  pub queue : ℕ → StoreCommit
  pub head : ℕ
  pub tail : ℕ

-- The data and the mask of a store of `len` bytes at `offset` in its doubleword; the data are shifted
-- in 64 bits, the mask is an uint8_t.
unfoldable pub commit_lanes : ℕ → ℕ → ℕ → Option (ℕ × ℕ)
commit_lanes len offset value =
    if len == 1
    then some (value % 2 ^ 8 * 2 ^ (offset * 8) % 2 ^ 64, 0x1 * 2 ^ offset % 256)
    else if len == 2
    then some (value % 2 ^ 16 * 2 ^ (offset * 8) % 2 ^ 64, 0x3 * 2 ^ offset % 256)
    else if len == 4
    then some (value % 2 ^ 32 * 2 ^ (offset * 8) % 2 ^ 64, 0xf * 2 ^ offset % 256)
    else if len == 8
    then some (value, 0xff)
    else none

-- `none` where an assertion fails; a store of an AMO is not queued.
unfoldable pub store_commit_queue_push : Bool → ℕ → ℕ → ℕ → Ring → Option Ring
store_commit_queue_push amo addr value len q =
    if amo then some q else elim (commit_lanes len (addr % 8) value) [
      | none ↦ none
      | some (lanes, mask) ↦ some (record q {
        queue =
            update q.queue q.tail
              (record { addr = addr - addr % 8; bytes = lanes; mask = mask; valid = true });
        tail = (q.tail + 1) % store_queue_size;
      })
    ]

-- The entry that is popped, as its slot holds it afterwards (a null pointer is `none`), and the
-- ring after it.
unfoldable pub store_commit_queue_pop : Ring → Option StoreCommit × Ring
store_commit_queue_pop q =
    let result = q.queue q.head in
    if not result.valid then (none, q) else (
      some (record result { valid = false }),
      record q {
        queue = update q.queue q.head (record result { valid = false });
        head = (q.head + 1) % store_queue_size;
      },
    )

-- The store that the caller names, on return the one that was committed, and whether they differ.
pub record Check : Type 0 where
  pub result : ℕ
  pub addr : ℕ
  pub bytes : ℕ
  pub mask : ℕ

abbrev pub compare_commit : ℕ → ℕ → ℕ → Option StoreCommit → Check
compare_commit addr bytes mask none = record { result = 1; addr = addr; bytes = bytes; mask = mask }
compare_commit addr bytes mask (some commit) =
    if (addr != commit.addr) || (bytes != commit.bytes) || (mask != commit.mask)
    then record { result = 1; addr = commit.addr; bytes = commit.bytes; mask = commit.mask }
    else record { result = 0; addr = addr; bytes = bytes; mask = mask }

unfoldable pub check_store_commit : ℕ → ℕ → ℕ → Ring → Check × Ring
check_store_commit addr bytes mask q =
    let (commit, rest) = store_commit_queue_pop q in
    (compare_commit (addr - addr % 8) bytes mask commit, rest)
