-- ===== src/Safeloader/Boards.antt =====
-- The array `boards` of tools/tplink-safeloader/tplink-safeloader.c, in the order of the source.
-- The entry `{}` that ends it is `no_board`.
pub mod Cpe
pub mod ArcherC2600
pub mod ArcherC60
pub mod ArcherC7
pub mod Tlwr
pub mod RangeExtender
use Cpe.{cpe210, cpe510, wbs210, wbs510}
use ArcherC2600.{c2600, archer_c25_v1, archer_c58_v1, archer_c59_v1}
use ArcherC60.{archer_c60_v1, archer_c60_v2, archer_c5_v2, archer_c7_v4}
use ArcherC7.{archer_c7_v5, archerc9, eap120, tlwa850rev2}
use Tlwr.{tlwa855rev1, tlwr1043nv5, tlwr1043ndv4, tl_wr902ac_v1}
use RangeExtender.{tlwr942nv1, re350_v1, re355, re450}
use safewrt.Common.{none, List, [], ◌∷◌}
use safewrt.Safeloader.Layout.{DeviceInfo}

abbrev pub no_board : DeviceInfo
no_board = record {
  id = none;
  vendor = none;
  support_list = none;
  support_trail = 0;
  soft_ver = none;
  partitions = [];
  first_sysupgrade_partition = none;
  last_sysupgrade_partition = none;
}

abbrev pub boards : List DeviceInfo
boards =
    cpe210 ∷ cpe510 ∷ wbs210 ∷ wbs510 ∷ c2600 ∷ archer_c25_v1 ∷ archer_c58_v1 ∷ archer_c59_v1
    ∷ archer_c60_v1 ∷ archer_c60_v2 ∷ archer_c5_v2 ∷ archer_c7_v4 ∷ archer_c7_v5 ∷ archerc9 ∷ eap120
    ∷ tlwa850rev2 ∷ tlwa855rev1 ∷ tlwr1043nv5 ∷ tlwr1043ndv4 ∷ tl_wr902ac_v1 ∷ tlwr942nv1 ∷ re350_v1
    ∷ re355 ∷ re450 ∷ no_board ∷ []
