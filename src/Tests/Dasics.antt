-- ===== src/Tests/Dasics.antt =====
-- Tests of the DASICS checks.
use nemu.Base.{refl}
use nemu.Dasics.{dasics_in_trusted_zone, dasics_ldst_helper}
use nemu.Dasics.{dasics_fetch_helper, cfi_jump}
use nemu.Dasics.Bounds.{store}
use nemu.Dasics.Ldst.{Verdict, dasics_ldst_helper-Verdict, mem_type}
use nemu.Dasics.Fetch.{FetchVerdict, dasics_fetch_helper-FetchVerdict}
use nemu.Tests.{sandbox}

dasics_ldst_helper-Verdict_example :
    Verdict store 0x80001ffc 0 8 sandbox
      (dasics_ldst_helper 0x3000 0x80001ffc 8 (mem_type store) sandbox)
unfolding dasics_in_trusted_zone
dasics_ldst_helper-Verdict_example =
    dasics_ldst_helper-Verdict store 0x3000 0x80001ffc 8 sandbox refl refl

dasics_fetch_helper-FetchVerdict_example :
    FetchVerdict 0x3000 0x1800 cfi_jump sandbox (dasics_fetch_helper 0x3000 0x1800 cfi_jump sandbox)
dasics_fetch_helper-FetchVerdict_example =
    dasics_fetch_helper-FetchVerdict 0x3000 0x1800 cfi_jump sandbox refl
