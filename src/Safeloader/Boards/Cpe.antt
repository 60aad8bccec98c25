-- ===== src/Safeloader/Boards/Cpe.antt =====
-- Rows of the array `boards` in tools/tplink-safeloader/tplink-safeloader.c: CPE210, CPE510, WBS210, WBS510.
use safewrt.Common.{none, some, [], ◌∷◌}
use safewrt.Common.Text.{codes}
use safewrt.Safeloader.Layout.{DeviceInfo, row, last_row, adjacent}

abbrev pub cpe210 : DeviceInfo
cpe210 = record {
  id = some (codes "CPE210");
  vendor = some (codes "CPE510(TP-LINK|UN|N300-5):1.0\r\n");
  support_list = some (
      adjacent (
        "SupportList:\r\n" ∷ "CPE210(TP-LINK|UN|N300-2):1.0\r\n"
        ∷ "CPE210(TP-LINK|UN|N300-2):1.1\r\n" ∷ "CPE210(TP-LINK|US|N300-2):1.1\r\n"
        ∷ "CPE210(TP-LINK|EU|N300-2):1.1\r\n" ∷ "CPE220(TP-LINK|UN|N300-2):1.1\r\n"
        ∷ "CPE220(TP-LINK|US|N300-2):1.1\r\n" ∷ "CPE220(TP-LINK|EU|N300-2):1.1\r\n" ∷ []));
  support_trail = 0xff;
  soft_ver = none;
  partitions =
      row "fs-uboot" 0x00000 0x20000
      ∷ row "partition-table" 0x20000 0x02000
      ∷ row "default-mac" 0x30000 0x00020
      ∷ row "product-info" 0x31100 0x00100
      ∷ row "signature" 0x32000 0x00400
      ∷ row "os-image" 0x40000 0x1c0000
      ∷ row "file-system" 0x200000 0x5b0000
      ∷ row "soft-version" 0x7b0000 0x00100
      ∷ row "support-list" 0x7b1000 0x00400
      ∷ row "user-config" 0x7c0000 0x10000
      ∷ row "default-config" 0x7d0000 0x10000
      ∷ row "log" 0x7e0000 0x10000
      ∷ row "radio" 0x7f0000 0x10000
      ∷ last_row
      ∷ [];
  first_sysupgrade_partition = some (codes "os-image");
  last_sysupgrade_partition = some (codes "support-list");
}

abbrev pub cpe510 : DeviceInfo
cpe510 = record {
  id = some (codes "CPE510");
  vendor = some (codes "CPE510(TP-LINK|UN|N300-5):1.0\r\n");
  support_list = some (
      adjacent (
        "SupportList:\r\n" ∷ "CPE510(TP-LINK|UN|N300-5):1.0\r\n"
        ∷ "CPE510(TP-LINK|UN|N300-5):1.1\r\n" ∷ "CPE510(TP-LINK|UN|N300-5):1.1\r\n"
        ∷ "CPE510(TP-LINK|US|N300-5):1.1\r\n" ∷ "CPE510(TP-LINK|EU|N300-5):1.1\r\n"
        ∷ "CPE520(TP-LINK|UN|N300-5):1.1\r\n" ∷ "CPE520(TP-LINK|US|N300-5):1.1\r\n"
        ∷ "CPE520(TP-LINK|EU|N300-5):1.1\r\n" ∷ []));
  support_trail = 0xff;
  soft_ver = none;
  partitions =
      row "fs-uboot" 0x00000 0x20000
      ∷ row "partition-table" 0x20000 0x02000
      ∷ row "default-mac" 0x30000 0x00020
      ∷ row "product-info" 0x31100 0x00100
      ∷ row "signature" 0x32000 0x00400
      ∷ row "os-image" 0x40000 0x1c0000
      ∷ row "file-system" 0x200000 0x5b0000
      ∷ row "soft-version" 0x7b0000 0x00100
      ∷ row "support-list" 0x7b1000 0x00400
      ∷ row "user-config" 0x7c0000 0x10000
      ∷ row "default-config" 0x7d0000 0x10000
      ∷ row "log" 0x7e0000 0x10000
      ∷ row "radio" 0x7f0000 0x10000
      ∷ last_row
      ∷ [];
  first_sysupgrade_partition = some (codes "os-image");
  last_sysupgrade_partition = some (codes "support-list");
}

abbrev pub wbs210 : DeviceInfo
wbs210 = record {
  id = some (codes "WBS210");
  vendor = some (codes "CPE510(TP-LINK|UN|N300-5):1.0\r\n");
  support_list = some (
      adjacent (
        "SupportList:\r\n" ∷ "WBS210(TP-LINK|UN|N300-2):1.20\r\n"
        ∷ "WBS210(TP-LINK|US|N300-2):1.20\r\n" ∷ "WBS210(TP-LINK|EU|N300-2):1.20\r\n" ∷ []));
  support_trail = 0xff;
  soft_ver = none;
  partitions =
      row "fs-uboot" 0x00000 0x20000
      ∷ row "partition-table" 0x20000 0x02000
      ∷ row "default-mac" 0x30000 0x00020
      ∷ row "product-info" 0x31100 0x00100
      ∷ row "signature" 0x32000 0x00400
      ∷ row "os-image" 0x40000 0x1c0000
      ∷ row "file-system" 0x200000 0x5b0000
      ∷ row "soft-version" 0x7b0000 0x00100
      ∷ row "support-list" 0x7b1000 0x00400
      ∷ row "user-config" 0x7c0000 0x10000
      ∷ row "default-config" 0x7d0000 0x10000
      ∷ row "log" 0x7e0000 0x10000
      ∷ row "radio" 0x7f0000 0x10000
      ∷ last_row
      ∷ [];
  first_sysupgrade_partition = some (codes "os-image");
  last_sysupgrade_partition = some (codes "support-list");
}

abbrev pub wbs510 : DeviceInfo
wbs510 = record {
  id = some (codes "WBS510");
  vendor = some (codes "CPE510(TP-LINK|UN|N300-5):1.0\r\n");
  support_list = some (
      adjacent (
        "SupportList:\r\n" ∷ "WBS510(TP-LINK|UN|N300-5):1.20\r\n"
        ∷ "WBS510(TP-LINK|US|N300-5):1.20\r\n" ∷ "WBS510(TP-LINK|EU|N300-5):1.20\r\n" ∷ []));
  support_trail = 0xff;
  soft_ver = none;
  partitions =
      row "fs-uboot" 0x00000 0x20000
      ∷ row "partition-table" 0x20000 0x02000
      ∷ row "default-mac" 0x30000 0x00020
      ∷ row "product-info" 0x31100 0x00100
      ∷ row "signature" 0x32000 0x00400
      ∷ row "os-image" 0x40000 0x1c0000
      ∷ row "file-system" 0x200000 0x5b0000
      ∷ row "soft-version" 0x7b0000 0x00100
      ∷ row "support-list" 0x7b1000 0x00400
      ∷ row "user-config" 0x7c0000 0x10000
      ∷ row "default-config" 0x7d0000 0x10000
      ∷ row "log" 0x7e0000 0x10000
      ∷ row "radio" 0x7f0000 0x10000
      ∷ last_row
      ∷ [];
  first_sysupgrade_partition = some (codes "os-image");
  last_sysupgrade_partition = some (codes "support-list");
}
