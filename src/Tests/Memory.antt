-- ===== src/Tests/Memory.antt =====
-- Tests of memory, of the protection of physical addresses and of the queue of stores.
use nemu.Base.{ℕ, ◌≡◌, refl, arith, ◌<◌, true, false, ◌%◌, ◌^◌, ◌*◌, ◌==◌, some, [], ◌∷◌}
use nemu.Base.{if◌then◌else◌, zero, suc, ◌+◌, get_elem?}
use nemu.Machine.{IoMap, read, ifetch}
use nemu.Trap.{effective_mode}
use nemu.Pmp.{
  Entry, isa_pmp_check_permission, sector_loop, pmp_loop, entry_verdict, pmpcfg_from_index,
}
use nemu.Pmp.Rules.{Decides, checked_mode, isa_pmp_check_permission-Decides}
use nemu.Memory.Paddr.{in_pmem, in_pmem_of}
use nemu.Memory.Paddr.Access.{WriteThenRead, paddr_read-paddr_write}
use nemu.Memory.StoreQueue.{Ring, StoreCommit, commit_lanes}
use nemu.Memory.StoreQueue.Fifo.{Represents, Pushes, Pops, push-Pushes, pop-Pops, commit_of}
use nemu.Tests.{reset}

isa_pmp_check_permission-Decides_example :
    Decides 0x80000000 4 ifetch
      (checked_mode ifetch 3 reset)
      reset
      16
      (isa_pmp_check_permission 0x80000000 4 ifetch 3 reset)
isa_pmp_check_permission-Decides_example =
    isa_pmp_check_permission-Decides 0x80000000 4 ifetch 3 reset

abbrev low_range : Entry
low_range = record { is_tor = true; base = 0; tor = 0x1000; mask = 0 }

abbrev serial : IoMap
serial = record {
  low = 0xa10003f8;
  high = 0xa1000404;
  space = λ _. 0;
  callback = λ offset len is_write space. space;
}

paddr_read-paddr_write_example :
    WriteThenRead 0x80000000 4 0x1ffffffff 3 0 0x80000000 4 read 3 0 reset
      (0x1ffffffff % 2 ^ (8 * 4))
unfolding isa_pmp_check_permission pmp_loop entry_verdict pmpcfg_from_index effective_mode in_pmem
    in_pmem_of sector_loop
paddr_read-paddr_write_example =
    paddr_read-paddr_write 0x80000000 4 0x1ffffffff 3 0 read 3 0 reset refl refl refl refl refl

abbrev blank : StoreCommit
blank = record { addr = 0; bytes = 0; mask = 0; valid = false }

abbrev empty_ring : Ring
empty_ring = record { queue = λ _. blank; head = 63; tail = 63 }

empty_ring-Represents : Represents [] empty_ring
empty_ring-Represents = record {
  bounded = omega arith;
  in_range = omega arith;
  ends = refl;
  held = λ i lt. absurd (omega arith);
  valid = λ i lt. absurd (omega arith);
  free = λ i le lt. refl;
}

push-Pushes_example :
    Pushes false 0x80000005 0xab 1 (commit_of 0x80000005 (0xab0000000000, 32)) [] empty_ring
unfolding commit_lanes
push-Pushes_example =
    push-Pushes 0x80000005 0xab 1 (0xab0000000000, 32) [] empty_ring empty_ring-Represents
      (omega arith) refl

abbrev stored : StoreCommit
stored = record { addr = 0x80000000; bytes = 7; mask = 1; valid = true }

abbrev one_ring : Ring
one_ring = record { queue = λ i. if i == 63 then stored else blank; head = 63; tail = 0 }

one_ring-Represents : Represents (stored ∷ []) one_ring
one_ring-Represents = record {
  bounded = omega arith;
  in_range = omega arith;
  ends = refl;
  held = one_held;
  valid = one_valid;
  free = λ i le lt. ground arith;
}
  where
    one_held : (i : ℕ) → i < 1 → some (one_ring.queue ((63 + i) % 64)) ≡ get_elem? (stored ∷ []) i
    one_held zero lt = refl
    one_held (suc i) lt = absurd (omega arith)

    one_valid : (i : ℕ) → i < 1 → (one_ring.queue ((63 + i) % 64)).valid ≡ true
    one_valid zero lt = refl
    one_valid (suc i) lt = absurd (omega arith)

pop-Pops_example : Pops stored [] one_ring
pop-Pops_example = pop-Pops stored [] one_ring one_ring-Represents
