-- ===== src/Safeloader/Boards/ArcherC7.antt =====
-- Rows of the array `boards` in tools/tplink-safeloader/tplink-safeloader.c: the rows that this file names, in their order.
use safewrt.Common.{none, some, [], ◌∷◌}
use safewrt.Common.Text.{codes}
use safewrt.Safeloader.Layout.{DeviceInfo, row, last_row, adjacent}

abbrev pub archer_c7_v5 : DeviceInfo
archer_c7_v5 = record {
  id = some (codes "ARCHER-C7-V5");
  vendor = none;
  support_list = some (
      adjacent (
        "SupportList:\n" ∷ "{product_name:Archer C7,product_ver:5.0.0,special_id:00000000}\n"
        ∷ "{product_name:Archer C7,product_ver:5.0.0,special_id:55530000}\n" ∷ []));
  support_trail = 0x00;
  soft_ver = some (codes "soft_ver:1.0.0\n");
  partitions =
      row "factory-boot" 0x00000 0x20000
      ∷ row "fs-uboot" 0x20000 0x20000
      ∷ row "partition-table" 0x40000 0x10000
      ∷ row "radio" 0x50000 0x10000
      ∷ row "default-mac" 0x60000 0x00200
      ∷ row "pin" 0x60200 0x00200
      ∷ row "device-id" 0x60400 0x00100
      ∷ row "product-info" 0x60500 0x0fb00
      ∷ row "soft-version" 0x70000 0x01000
      ∷ row "extra-para" 0x71000 0x01000
      ∷ row "support-list" 0x72000 0x0a000
      ∷ row "profile" 0x7c000 0x04000
      ∷ row "user-config" 0x80000 0x40000
      ∷ row "os-image" 0xc0000 0x180000
      ∷ row "file-system" 0x240000 0xd80000
      ∷ row "log" 0xfc0000 0x20000
      ∷ row "certificate" 0xfe0000 0x10000
      ∷ row "default-config" 0xff0000 0x10000
      ∷ last_row
      ∷ [];
  first_sysupgrade_partition = some (codes "os-image");
  last_sysupgrade_partition = some (codes "file-system");
}

abbrev pub archerc9 : DeviceInfo
archerc9 = record {
  id = some (codes "ARCHERC9");
  vendor = some (codes "");
  support_list = some (
      adjacent (
        "SupportList:\n" ∷ "{product_name:ArcherC9," ∷ "product_ver:1.0.0,"
        ∷ "special_id:00000000}\n" ∷ []));
  support_trail = 0x00;
  soft_ver = none;
  partitions =
      row "fs-uboot" 0x00000 0x40000
      ∷ row "os-image" 0x40000 0x200000
      ∷ row "file-system" 0x240000 0xc00000
      ∷ row "default-mac" 0xe40000 0x00200
      ∷ row "pin" 0xe40200 0x00200
      ∷ row "product-info" 0xe40400 0x00200
      ∷ row "partition-table" 0xe50000 0x10000
      ∷ row "soft-version" 0xe60000 0x00200
      ∷ row "support-list" 0xe61000 0x0f000
      ∷ row "profile" 0xe70000 0x10000
      ∷ row "default-config" 0xe80000 0x10000
      ∷ row "user-config" 0xe90000 0x50000
      ∷ row "log" 0xee0000 0x100000
      ∷ row "radio_bk" 0xfe0000 0x10000
      ∷ row "radio" 0xff0000 0x10000
      ∷ last_row
      ∷ [];
  first_sysupgrade_partition = some (codes "os-image");
  last_sysupgrade_partition = some (codes "file-system");
}

abbrev pub eap120 : DeviceInfo
eap120 = record {
  id = some (codes "EAP120");
  vendor = some (codes "EAP120(TP-LINK|UN|N300-2):1.0\r\n");
  support_list = some (adjacent ("SupportList:\r\n" ∷ "EAP120(TP-LINK|UN|N300-2):1.0\r\n" ∷ []));
  support_trail = 0xff;
  soft_ver = none;
  partitions =
      row "fs-uboot" 0x00000 0x20000
      ∷ row "partition-table" 0x20000 0x02000
      ∷ row "default-mac" 0x30000 0x00020
      ∷ row "support-list" 0x31000 0x00100
      ∷ row "product-info" 0x31100 0x00100
      ∷ row "soft-version" 0x32000 0x00100
      ∷ row "os-image" 0x40000 0x180000
      ∷ row "file-system" 0x1c0000 0x600000
      ∷ row "user-config" 0x7c0000 0x10000
      ∷ row "backup-config" 0x7d0000 0x10000
      ∷ row "log" 0x7e0000 0x10000
      ∷ row "radio" 0x7f0000 0x10000
      ∷ last_row
      ∷ [];
  first_sysupgrade_partition = some (codes "os-image");
  last_sysupgrade_partition = some (codes "file-system");
}

abbrev pub tlwa850rev2 : DeviceInfo
tlwa850rev2 = record {
  id = some (codes "TLWA850REV2");
  vendor = some (codes "");
  support_list = some (
      adjacent (
        "SupportList:\n" ∷ "{product_name:TL-WA850RE,product_ver:2.0.0,special_id:55530000}\n"
        ∷ "{product_name:TL-WA850RE,product_ver:2.0.0,special_id:00000000}\n"
        ∷ "{product_name:TL-WA850RE,product_ver:2.0.0,special_id:55534100}\n"
        ∷ "{product_name:TL-WA850RE,product_ver:2.0.0,special_id:45550000}\n"
        ∷ "{product_name:TL-WA850RE,product_ver:2.0.0,special_id:4B520000}\n"
        ∷ "{product_name:TL-WA850RE,product_ver:2.0.0,special_id:42520000}\n"
        ∷ "{product_name:TL-WA850RE,product_ver:2.0.0,special_id:4A500000}\n"
        ∷ "{product_name:TL-WA850RE,product_ver:2.0.0,special_id:43410000}\n"
        ∷ "{product_name:TL-WA850RE,product_ver:2.0.0,special_id:41550000}\n"
        ∷ "{product_name:TL-WA850RE,product_ver:2.0.0,special_id:52550000}\n" ∷ []));
  support_trail = 0x00;
  soft_ver = none;
  partitions =
      row "fs-uboot" 0x00000 0x20000
      ∷ row "os-image" 0x20000 0x150000
      ∷ row "file-system" 0x170000 0x240000
      ∷ row "partition-table" 0x3b0000 0x02000
      ∷ row "default-mac" 0x3c0000 0x00020
      ∷ row "pin" 0x3c0100 0x00020
      ∷ row "product-info" 0x3c1000 0x01000
      ∷ row "soft-version" 0x3c2000 0x00100
      ∷ row "support-list" 0x3c3000 0x01000
      ∷ row "profile" 0x3c4000 0x08000
      ∷ row "user-config" 0x3d0000 0x10000
      ∷ row "default-config" 0x3e0000 0x10000
      ∷ row "radio" 0x3f0000 0x10000
      ∷ last_row
      ∷ [];
  first_sysupgrade_partition = some (codes "os-image");
  last_sysupgrade_partition = some (codes "file-system");
}
