-- ===== src/Safeloader/Boards/Tlwr.antt =====
-- Rows of the array `boards` in tools/tplink-safeloader/tplink-safeloader.c: TLWA855REV1, `tlwr1043nv5`, TLWR1043NDV4, TL-WR902AC-V1.
use safewrt.Common.{none, some, [], ◌∷◌}
use safewrt.Common.Text.{codes}
use safewrt.Safeloader.Layout.{DeviceInfo, row, last_row, adjacent}

abbrev pub tlwa855rev1 : DeviceInfo
tlwa855rev1 = record {
  id = some (codes "TLWA855REV1");
  vendor = some (codes "");
  support_list = some (
      adjacent (
        "SupportList:\n" ∷ "{product_name:TL-WA855RE,product_ver:1.0.0,special_id:00000000}\n"
        ∷ "{product_name:TL-WA855RE,product_ver:1.0.0,special_id:55530000}\n"
        ∷ "{product_name:TL-WA855RE,product_ver:1.0.0,special_id:45550000}\n"
        ∷ "{product_name:TL-WA855RE,product_ver:1.0.0,special_id:4B520000}\n"
        ∷ "{product_name:TL-WA855RE,product_ver:1.0.0,special_id:42520000}\n"
        ∷ "{product_name:TL-WA855RE,product_ver:1.0.0,special_id:4A500000}\n"
        ∷ "{product_name:TL-WA855RE,product_ver:1.0.0,special_id:43410000}\n"
        ∷ "{product_name:TL-WA855RE,product_ver:1.0.0,special_id:41550000}\n"
        ∷ "{product_name:TL-WA855RE,product_ver:1.0.0,special_id:52550000}\n" ∷ []));
  support_trail = 0x00;
  soft_ver = none;
  partitions =
      row "fs-uboot" 0x00000 0x20000
      ∷ row "os-image" 0x20000 0x150000
      ∷ row "file-system" 0x170000 0x240000
      ∷ row "partition-table" 0x3b0000 0x02000
      ∷ row "default-mac" 0x3c0000 0x00020
      ∷ row "pin" 0x3c0100 0x00020
      ∷ row "product-info" 0x3c1000 0x01000
      ∷ row "soft-version" 0x3c2000 0x00100
      ∷ row "support-list" 0x3c3000 0x01000
      ∷ row "profile" 0x3c4000 0x08000
      ∷ row "user-config" 0x3d0000 0x10000
      ∷ row "default-config" 0x3e0000 0x10000
      ∷ row "radio" 0x3f0000 0x10000
      ∷ last_row
      ∷ [];
  first_sysupgrade_partition = some (codes "os-image");
  last_sysupgrade_partition = some (codes "file-system");
}

abbrev pub tlwr1043nv5 : DeviceInfo
tlwr1043nv5 = record {
  id = some (codes "TLWR1043NV5");
  vendor = some (codes "");
  support_list = some (
      adjacent (
        "SupportList:\n" ∷ "{product_name:TL-WR1043N,product_ver:5.0.0,special_id:45550000}\n"
        ∷ "{product_name:TL-WR1043N,product_ver:5.0.0,special_id:55530000}\n" ∷ []));
  support_trail = 0x00;
  soft_ver = some (codes "soft_ver:1.0.0\n");
  partitions =
      row "factory-boot" 0x00000 0x20000
      ∷ row "fs-uboot" 0x20000 0x20000
      ∷ row "os-image" 0x40000 0x180000
      ∷ row "file-system" 0x1c0000 0xd40000
      ∷ row "default-mac" 0xf00000 0x00200
      ∷ row "pin" 0xf00200 0x00200
      ∷ row "device-id" 0xf00400 0x00100
      ∷ row "product-info" 0xf00500 0x0fb00
      ∷ row "soft-version" 0xf10000 0x01000
      ∷ row "extra-para" 0xf11000 0x01000
      ∷ row "support-list" 0xf12000 0x0a000
      ∷ row "profile" 0xf1c000 0x04000
      ∷ row "default-config" 0xf20000 0x10000
      ∷ row "user-config" 0xf30000 0x40000
      ∷ row "qos-db" 0xf70000 0x40000
      ∷ row "certificate" 0xfb0000 0x10000
      ∷ row "partition-table" 0xfc0000 0x10000
      ∷ row "log" 0xfd0000 0x20000
      ∷ row "radio" 0xff0000 0x10000
      ∷ last_row
      ∷ [];
  first_sysupgrade_partition = some (codes "os-image");
  last_sysupgrade_partition = some (codes "file-system");
}

abbrev pub tlwr1043ndv4 : DeviceInfo
tlwr1043ndv4 = record {
  id = some (codes "TLWR1043NDV4");
  vendor = some (codes "");
  support_list = some (
      adjacent (
        "SupportList:\n" ∷ "{product_name:TL-WR1043ND,product_ver:4.0.0,special_id:45550000}\n"
        ∷ []));
  support_trail = 0x00;
  soft_ver = none;
  partitions =
      row "fs-uboot" 0x00000 0x20000
      ∷ row "os-image" 0x20000 0x180000
      ∷ row "file-system" 0x1a0000 0xdb0000
      ∷ row "default-mac" 0xf50000 0x00200
      ∷ row "pin" 0xf50200 0x00200
      ∷ row "product-info" 0xf50400 0x0fc00
      ∷ row "soft-version" 0xf60000 0x0b000
      ∷ row "support-list" 0xf6b000 0x04000
      ∷ row "profile" 0xf70000 0x04000
      ∷ row "default-config" 0xf74000 0x0b000
      ∷ row "user-config" 0xf80000 0x40000
      ∷ row "partition-table" 0xfc0000 0x10000
      ∷ row "log" 0xfd0000 0x20000
      ∷ row "radio" 0xff0000 0x10000
      ∷ last_row
      ∷ [];
  first_sysupgrade_partition = some (codes "os-image");
  last_sysupgrade_partition = some (codes "file-system");
}

abbrev pub tl_wr902ac_v1 : DeviceInfo
tl_wr902ac_v1 = record {
  id = some (codes "TL-WR902AC-V1");
  vendor = some (codes "");
  support_list = some (
      adjacent (
        "SupportList:\n" ∷ "{product_name:TL-WR902AC,product_ver:1.0.0,special_id:45550000}\n"
        ∷ "{product_name:TL-WR902AC,product_ver:1.0.0,special_id:55530000}\n" ∷ []));
  support_trail = 0x00;
  soft_ver = none;
  partitions =
      row "fs-uboot" 0x00000 0x20000
      ∷ row "os-image" 0x20000 0x180000
      ∷ row "file-system" 0x1a0000 0x5b0000
      ∷ row "default-mac" 0x750000 0x00200
      ∷ row "pin" 0x750200 0x00200
      ∷ row "product-info" 0x750400 0x0fc00
      ∷ row "soft-version" 0x760000 0x0b000
      ∷ row "support-list" 0x76b000 0x04000
      ∷ row "profile" 0x770000 0x04000
      ∷ row "default-config" 0x774000 0x0b000
      ∷ row "user-config" 0x780000 0x40000
      ∷ row "partition-table" 0x7c0000 0x10000
      ∷ row "log" 0x7d0000 0x20000
      ∷ row "radio" 0x7f0000 0x10000
      ∷ last_row
      ∷ [];
  first_sysupgrade_partition = some (codes "os-image");
  last_sysupgrade_partition = some (codes "file-system");
}
