-- ===== src/Safeloader/Boards/ArcherC60.antt =====
-- Rows of the array `boards` in tools/tplink-safeloader/tplink-safeloader.c: the rows that this file names, in their order.
use safewrt.Common.{none, some, [], ◌∷◌}
use safewrt.Common.Text.{codes}
use safewrt.Safeloader.Layout.{DeviceInfo, row, last_row, adjacent}

abbrev pub archer_c60_v1 : DeviceInfo
archer_c60_v1 = record {
  id = some (codes "ARCHER-C60-V1");
  vendor = some (codes "");
  support_list = some (
      adjacent (
        "SupportList:\r\n" ∷ "{product_name:Archer C60,product_ver:1.0.0,special_id:00000000}\r\n"
        ∷ "{product_name:Archer C60,product_ver:1.0.0,special_id:45550000}\r\n"
        ∷ "{product_name:Archer C60,product_ver:1.0.0,special_id:55530000}\r\n" ∷ []));
  support_trail = 0x00;
  soft_ver = some (codes "soft_ver:1.0.0\n");
  partitions =
      row "fs-uboot" 0x00000 0x10000
      ∷ row "default-mac" 0x10000 0x00200
      ∷ row "pin" 0x10200 0x00200
      ∷ row "product-info" 0x10400 0x00100
      ∷ row "partition-table" 0x10500 0x00800
      ∷ row "soft-version" 0x11300 0x00200
      ∷ row "support-list" 0x11500 0x00100
      ∷ row "device-id" 0x11600 0x00100
      ∷ row "profile" 0x11700 0x03900
      ∷ row "default-config" 0x15000 0x04000
      ∷ row "user-config" 0x19000 0x04000
      ∷ row "os-image" 0x20000 0x180000
      ∷ row "file-system" 0x1a0000 0x648000
      ∷ row "certyficate" 0x7e8000 0x08000
      ∷ row "radio" 0x7f0000 0x10000
      ∷ last_row
      ∷ [];
  first_sysupgrade_partition = some (codes "os-image");
  last_sysupgrade_partition = some (codes "file-system");
}

abbrev pub archer_c60_v2 : DeviceInfo
archer_c60_v2 = record {
  id = some (codes "ARCHER-C60-V2");
  vendor = some (codes "");
  support_list = some (
      adjacent (
        "SupportList:\r\n" ∷ "{product_name:Archer C60,product_ver:2.0.0,special_id:42520000}\r\n"
        ∷ "{product_name:Archer C60,product_ver:2.0.0,special_id:45550000}\r\n"
        ∷ "{product_name:Archer C60,product_ver:2.0.0,special_id:55530000}\r\n" ∷ []));
  support_trail = 0x00;
  soft_ver = some (codes "soft_ver:2.0.0\n");
  partitions =
      row "factory-boot" 0x00000 0x1fb00
      ∷ row "default-mac" 0x1fb00 0x00200
      ∷ row "pin" 0x1fd00 0x00100
      ∷ row "product-info" 0x1fe00 0x00100
      ∷ row "device-id" 0x1ff00 0x00100
      ∷ row "fs-uboot" 0x20000 0x10000
      ∷ row "os-image" 0x30000 0x180000
      ∷ row "file-system" 0x1b0000 0x620000
      ∷ row "soft-version" 0x7d9500 0x00100
      ∷ row "support-list" 0x7d9600 0x00100
      ∷ row "extra-para" 0x7d9700 0x00100
      ∷ row "profile" 0x7d9800 0x03000
      ∷ row "default-config" 0x7dc800 0x03000
      ∷ row "partition-table" 0x7df800 0x00800
      ∷ row "user-config" 0x7e0000 0x0c000
      ∷ row "certificate" 0x7ec000 0x04000
      ∷ row "radio" 0x7f0000 0x10000
      ∷ last_row
      ∷ [];
  first_sysupgrade_partition = some (codes "os-image");
  last_sysupgrade_partition = some (codes "file-system");
}

abbrev pub archer_c5_v2 : DeviceInfo
archer_c5_v2 = record {
  id = some (codes "ARCHER-C5-V2");
  vendor = some (codes "");
  support_list = some (
      adjacent (
        "SupportList:\r\n" ∷ "{product_name:ArcherC5,product_ver:2.0.0,special_id:00000000}\r\n"
        ∷ "{product_name:ArcherC5,product_ver:2.0.0,special_id:55530000}\r\n"
        ∷ "{product_name:ArcherC5,product_ver:2.0.0,special_id:4A500000}\r\n" ∷ []));
  support_trail = 0x00;
  soft_ver = none;
  partitions =
      row "fs-uboot" 0x00000 0x40000
      ∷ row "os-image" 0x40000 0x200000
      ∷ row "file-system" 0x240000 0xc00000
      ∷ row "default-mac" 0xe40000 0x00200
      ∷ row "pin" 0xe40200 0x00200
      ∷ row "product-info" 0xe40400 0x00200
      ∷ row "partition-table" 0xe50000 0x10000
      ∷ row "soft-version" 0xe60000 0x00200
      ∷ row "support-list" 0xe61000 0x0f000
      ∷ row "profile" 0xe70000 0x10000
      ∷ row "default-config" 0xe80000 0x10000
      ∷ row "user-config" 0xe90000 0x50000
      ∷ row "log" 0xee0000 0x100000
      ∷ row "radio_bk" 0xfe0000 0x10000
      ∷ row "radio" 0xff0000 0x10000
      ∷ last_row
      ∷ [];
  first_sysupgrade_partition = some (codes "os-image");
  last_sysupgrade_partition = some (codes "file-system");
}

abbrev pub archer_c7_v4 : DeviceInfo
archer_c7_v4 = record {
  id = some (codes "ARCHER-C7-V4");
  vendor = none;
  support_list = some (
      adjacent (
        "SupportList:\n" ∷ "{product_name:Archer C7,product_ver:4.0.0,special_id:00000000}\n"
        ∷ "{product_name:Archer C7,product_ver:4.0.0,special_id:41550000}\n"
        ∷ "{product_name:Archer C7,product_ver:4.0.0,special_id:45550000}\n"
        ∷ "{product_name:Archer C7,product_ver:4.0.0,special_id:4B520000}\n"
        ∷ "{product_name:Archer C7,product_ver:4.0.0,special_id:42520000}\n"
        ∷ "{product_name:Archer C7,product_ver:4.0.0,special_id:4A500000}\n"
        ∷ "{product_name:Archer C7,product_ver:4.0.0,special_id:52550000}\n"
        ∷ "{product_name:Archer C7,product_ver:4.0.0,special_id:54570000}\n"
        ∷ "{product_name:Archer C7,product_ver:4.0.0,special_id:55530000}\n"
        ∷ "{product_name:Archer C7,product_ver:4.0.0,special_id:43410000}\n" ∷ []));
  support_trail = 0x00;
  soft_ver = some (codes "soft_ver:1.0.0\n");
  partitions =
      row "factory-boot" 0x00000 0x20000
      ∷ row "fs-uboot" 0x20000 0x20000
      ∷ row "os-image" 0x40000 0xa00000
      ∷ row "file-system" 0xa40000 0x4c0000
      ∷ row "default-mac" 0xf00000 0x00200
      ∷ row "pin" 0xf00200 0x00200
      ∷ row "device-id" 0xf00400 0x00100
      ∷ row "product-info" 0xf00500 0x0fb00
      ∷ row "sysconf" 0xf10000 0xb0000
      ∷ row "partition-table" 0xfc0000 0x10000
      ∷ row "support-list" 0xfd0000 0x0a000
      ∷ row "soft-version" 0xfda000 0x00100
      ∷ row "extra-para" 0xfda100 0x01000
      ∷ row "identity" 0xfdb100 0x01000
      ∷ row "radio" 0xff0000 0x10000
      ∷ last_row
      ∷ [];
  first_sysupgrade_partition = some (codes "os-image");
  last_sysupgrade_partition = some (codes "file-system");
}
