-- ===== src/Safeloader/Boards/ArcherC2600.antt =====
-- Rows of the array `boards` in tools/tplink-safeloader/tplink-safeloader.c: the rows that this file names, in their order.
use safewrt.Common.{none, some, [], ◌∷◌}
use safewrt.Common.Text.{codes}
use safewrt.Safeloader.Layout.{DeviceInfo, row, last_row, adjacent}

abbrev pub c2600 : DeviceInfo
c2600 = record {
  id = some (codes "C2600");
  vendor = some (codes "");
  support_list = some (
      adjacent (
        "SupportList:\r\n" ∷ "{product_name:Archer C2600,product_ver:1.0.0,special_id:00000000}\r\n"
        ∷ []));
  support_trail = 0x00;
  soft_ver = none;
  partitions =
      row "SBL1" 0x00000 0x20000
      ∷ row "MIBIB" 0x20000 0x20000
      ∷ row "SBL2" 0x40000 0x20000
      ∷ row "SBL3" 0x60000 0x30000
      ∷ row "DDRCONFIG" 0x90000 0x10000
      ∷ row "SSD" 0xa0000 0x10000
      ∷ row "TZ" 0xb0000 0x30000
      ∷ row "RPM" 0xe0000 0x20000
      ∷ row "fs-uboot" 0x100000 0x70000
      ∷ row "uboot-env" 0x170000 0x40000
      ∷ row "radio" 0x1b0000 0x40000
      ∷ row "os-image" 0x1f0000 0x200000
      ∷ row "file-system" 0x3f0000 0x1b00000
      ∷ row "default-mac" 0x1ef0000 0x00200
      ∷ row "pin" 0x1ef0200 0x00200
      ∷ row "product-info" 0x1ef0400 0x0fc00
      ∷ row "partition-table" 0x1f00000 0x10000
      ∷ row "soft-version" 0x1f10000 0x10000
      ∷ row "support-list" 0x1f20000 0x10000
      ∷ row "profile" 0x1f30000 0x10000
      ∷ row "default-config" 0x1f40000 0x10000
      ∷ row "user-config" 0x1f50000 0x40000
      ∷ row "qos-db" 0x1f90000 0x40000
      ∷ row "usb-config" 0x1fd0000 0x10000
      ∷ row "log" 0x1fe0000 0x20000
      ∷ last_row
      ∷ [];
  first_sysupgrade_partition = some (codes "os-image");
  last_sysupgrade_partition = some (codes "file-system");
}

abbrev pub archer_c25_v1 : DeviceInfo
archer_c25_v1 = record {
  id = some (codes "ARCHER-C25-V1");
  vendor = none;
  support_list = some (
      adjacent (
        "SupportList:\n" ∷ "{product_name:ArcherC25,product_ver:1.0.0,special_id:00000000}\n"
        ∷ "{product_name:ArcherC25,product_ver:1.0.0,special_id:55530000}\n"
        ∷ "{product_name:ArcherC25,product_ver:1.0.0,special_id:45550000}\n" ∷ []));
  support_trail = 0x00;
  soft_ver = some (codes "soft_ver:1.0.0\n");
  partitions =
      row "factory-boot" 0x00000 0x20000
      ∷ row "fs-uboot" 0x20000 0x10000
      ∷ row "os-image" 0x30000 0x180000
      ∷ row "file-system" 0x1b0000 0x620000
      ∷ row "user-config" 0x7d0000 0x04000
      ∷ row "default-mac" 0x7e0000 0x00100
      ∷ row "device-id" 0x7e0100 0x00100
      ∷ row "extra-para" 0x7e0200 0x00100
      ∷ row "pin" 0x7e0300 0x00100
      ∷ row "support-list" 0x7e0400 0x00400
      ∷ row "soft-version" 0x7e0800 0x00400
      ∷ row "product-info" 0x7e0c00 0x01400
      ∷ row "partition-table" 0x7e2000 0x01000
      ∷ row "profile" 0x7e3000 0x01000
      ∷ row "default-config" 0x7e4000 0x04000
      ∷ row "merge-config" 0x7ec000 0x02000
      ∷ row "qos-db" 0x7ee000 0x02000
      ∷ row "radio" 0x7f0000 0x10000
      ∷ last_row
      ∷ [];
  first_sysupgrade_partition = some (codes "os-image");
  last_sysupgrade_partition = some (codes "file-system");
}

abbrev pub archer_c58_v1 : DeviceInfo
archer_c58_v1 = record {
  id = some (codes "ARCHER-C58-V1");
  vendor = some (codes "");
  support_list = some (
      adjacent (
        "SupportList:\r\n" ∷ "{product_name:Archer C58,product_ver:1.0.0,special_id:00000000}\r\n"
        ∷ "{product_name:Archer C58,product_ver:1.0.0,special_id:45550000}\r\n"
        ∷ "{product_name:Archer C58,product_ver:1.0.0,special_id:55530000}\r\n" ∷ []));
  support_trail = 0x00;
  soft_ver = some (codes "soft_ver:1.0.0\n");
  partitions =
      row "fs-uboot" 0x00000 0x10000
      ∷ row "default-mac" 0x10000 0x00200
      ∷ row "pin" 0x10200 0x00200
      ∷ row "product-info" 0x10400 0x00100
      ∷ row "partition-table" 0x10500 0x00800
      ∷ row "soft-version" 0x11300 0x00200
      ∷ row "support-list" 0x11500 0x00100
      ∷ row "device-id" 0x11600 0x00100
      ∷ row "profile" 0x11700 0x03900
      ∷ row "default-config" 0x15000 0x04000
      ∷ row "user-config" 0x19000 0x04000
      ∷ row "os-image" 0x20000 0x180000
      ∷ row "file-system" 0x1a0000 0x648000
      ∷ row "certyficate" 0x7e8000 0x08000
      ∷ row "radio" 0x7f0000 0x10000
      ∷ last_row
      ∷ [];
  first_sysupgrade_partition = some (codes "os-image");
  last_sysupgrade_partition = some (codes "file-system");
}

abbrev pub archer_c59_v1 : DeviceInfo
archer_c59_v1 = record {
  id = some (codes "ARCHER-C59-V1");
  vendor = some (codes "");
  support_list = some (
      adjacent (
        "SupportList:\r\n" ∷ "{product_name:Archer C59,product_ver:1.0.0,special_id:00000000}\r\n"
        ∷ "{product_name:Archer C59,product_ver:1.0.0,special_id:45550000}\r\n"
        ∷ "{product_name:Archer C59,product_ver:1.0.0,special_id:52550000}\r\n"
        ∷ "{product_name:Archer C59,product_ver:1.0.0,special_id:55530000}\r\n" ∷ []));
  support_trail = 0x00;
  soft_ver = some (codes "soft_ver:1.0.0\n");
  partitions =
      row "fs-uboot" 0x00000 0x10000
      ∷ row "default-mac" 0x10000 0x00200
      ∷ row "pin" 0x10200 0x00200
      ∷ row "device-id" 0x10400 0x00100
      ∷ row "product-info" 0x10500 0x0fb00
      ∷ row "os-image" 0x20000 0x180000
      ∷ row "file-system" 0x1a0000 0xcb0000
      ∷ row "partition-table" 0xe50000 0x10000
      ∷ row "soft-version" 0xe60000 0x10000
      ∷ row "support-list" 0xe70000 0x10000
      ∷ row "profile" 0xe80000 0x10000
      ∷ row "default-config" 0xe90000 0x10000
      ∷ row "user-config" 0xea0000 0x40000
      ∷ row "usb-config" 0xee0000 0x10000
      ∷ row "certificate" 0xef0000 0x10000
      ∷ row "qos-db" 0xf00000 0x40000
      ∷ row "log" 0xfe0000 0x10000
      ∷ row "radio" 0xff0000 0x10000
      ∷ last_row
      ∷ [];
  first_sysupgrade_partition = some (codes "os-image");
  last_sysupgrade_partition = some (codes "file-system");
}
