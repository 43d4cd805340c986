-- ===== src/Utils/Tests.antt =====
-- Runs of common/utils.h, and an instance of the theorem.
use burrit_osprivate.Prelude.{◌<◌, ◌≡◌, refl, arith}
use burrit_osprivate.Prelude.Bits.{Lowest}
use burrit_osprivate.Utils.{ctz, minimum}
use burrit_osprivate.Utils.Ctz.{ctz-Lowest}

ctz_runs : (ctz 0x80000000 ≡ 31) × (ctz 0x00060000 ≡ 17) × (ctz 0xffffffff ≡ 0)
unfolding ctz
ctz_runs = (refl, refl, refl)

minimum_runs : minimum 7 4 ≡ 4
unfolding minimum
minimum_runs = refl

ctz-Lowest_example : (ctz 0x60 < 32) × Lowest 0x60 (ctz 0x60)
ctz-Lowest_example = ctz-Lowest 0x60 (omega arith) (omega arith)
