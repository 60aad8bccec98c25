-- ===== src/Safeloader/Boards/RangeExtender.antt =====
-- Rows of the array `boards` in tools/tplink-safeloader/tplink-safeloader.c: TLWR942NV1, RE350-V1, RE355, RE450.
use safewrt.Common.{none, some, [], ◌∷◌}
use safewrt.Common.Text.{codes}
use safewrt.Safeloader.Layout.{DeviceInfo, row, last_row, adjacent}

abbrev pub tlwr942nv1 : DeviceInfo
tlwr942nv1 = record {
  id = some (codes "TLWR942NV1");
  vendor = some (codes "");
  support_list = some (
      adjacent (
        "SupportList:\r\n" ∷ "{product_name:TL-WR942N,product_ver:1.0.0,special_id:00000000}\r\n"
        ∷ "{product_name:TL-WR942N,product_ver:1.0.0,special_id:52550000}\r\n" ∷ []));
  support_trail = 0x00;
  soft_ver = none;
  partitions =
      row "fs-uboot" 0x00000 0x20000
      ∷ row "os-image" 0x20000 0x180000
      ∷ row "file-system" 0x1a0000 0xca0000
      ∷ row "default-mac" 0xe40000 0x00200
      ∷ row "pin" 0xe40200 0x00200
      ∷ row "product-info" 0xe40400 0x0fc00
      ∷ row "partition-table" 0xe50000 0x10000
      ∷ row "soft-version" 0xe60000 0x10000
      ∷ row "support-list" 0xe70000 0x10000
      ∷ row "profile" 0xe80000 0x10000
      ∷ row "default-config" 0xe90000 0x10000
      ∷ row "user-config" 0xea0000 0x40000
      ∷ row "qos-db" 0xee0000 0x40000
      ∷ row "certificate" 0xf20000 0x10000
      ∷ row "usb-config" 0xfb0000 0x10000
      ∷ row "log" 0xfc0000 0x20000
      ∷ row "radio-bk" 0xfe0000 0x10000
      ∷ row "radio" 0xff0000 0x10000
      ∷ last_row
      ∷ [];
  first_sysupgrade_partition = some (codes "os-image");
  last_sysupgrade_partition = some (codes "file-system");
}

abbrev pub re350_v1 : DeviceInfo
re350_v1 = record {
  id = some (codes "RE350-V1");
  vendor = some (codes "");
  support_list = some (
      adjacent (
        "SupportList:\n" ∷ "{product_name:RE350,product_ver:1.0.0,special_id:45550000}\n"
        ∷ "{product_name:RE350,product_ver:1.0.0,special_id:00000000}\n"
        ∷ "{product_name:RE350,product_ver:1.0.0,special_id:41550000}\n"
        ∷ "{product_name:RE350,product_ver:1.0.0,special_id:55530000}\n"
        ∷ "{product_name:RE350,product_ver:1.0.0,special_id:43410000}\n"
        ∷ "{product_name:RE350,product_ver:1.0.0,special_id:4b520000}\n"
        ∷ "{product_name:RE350,product_ver:1.0.0,special_id:4a500000}\n" ∷ []));
  support_trail = 0x00;
  soft_ver = none;
  partitions =
      row "fs-uboot" 0x00000 0x20000
      ∷ row "os-image" 0x20000 0x1c0000
      ∷ row "file-system" 0x1e0000 0x420000
      ∷ row "partition-table" 0x600000 0x02000
      ∷ row "default-mac" 0x610000 0x00020
      ∷ row "pin" 0x610100 0x00020
      ∷ row "product-info" 0x611100 0x01000
      ∷ row "soft-version" 0x620000 0x01000
      ∷ row "support-list" 0x621000 0x01000
      ∷ row "profile" 0x622000 0x08000
      ∷ row "user-config" 0x630000 0x10000
      ∷ row "default-config" 0x640000 0x10000
      ∷ row "radio" 0x7f0000 0x10000
      ∷ last_row
      ∷ [];
  first_sysupgrade_partition = some (codes "os-image");
  last_sysupgrade_partition = some (codes "file-system");
}

abbrev pub re355 : DeviceInfo
re355 = record {
  id = some (codes "RE355");
  vendor = some (codes "");
  support_list = some (
      adjacent (
        "SupportList:\r\n" ∷ "{product_name:RE355,product_ver:1.0.0,special_id:00000000}\r\n"
        ∷ "{product_name:RE355,product_ver:1.0.0,special_id:55530000}\r\n"
        ∷ "{product_name:RE355,product_ver:1.0.0,special_id:45550000}\r\n"
        ∷ "{product_name:RE355,product_ver:1.0.0,special_id:4A500000}\r\n"
        ∷ "{product_name:RE355,product_ver:1.0.0,special_id:43410000}\r\n"
        ∷ "{product_name:RE355,product_ver:1.0.0,special_id:41550000}\r\n"
        ∷ "{product_name:RE355,product_ver:1.0.0,special_id:4B520000}\r\n"
        ∷ "{product_name:RE355,product_ver:1.0.0,special_id:55534100}\r\n" ∷ []));
  support_trail = 0x00;
  soft_ver = none;
  partitions =
      row "fs-uboot" 0x00000 0x20000
      ∷ row "os-image" 0x20000 0x180000
      ∷ row "file-system" 0x1a0000 0x460000
      ∷ row "partition-table" 0x600000 0x02000
      ∷ row "default-mac" 0x610000 0x00020
      ∷ row "pin" 0x610100 0x00020
      ∷ row "product-info" 0x611100 0x01000
      ∷ row "soft-version" 0x620000 0x01000
      ∷ row "support-list" 0x621000 0x01000
      ∷ row "profile" 0x622000 0x08000
      ∷ row "user-config" 0x630000 0x10000
      ∷ row "default-config" 0x640000 0x10000
      ∷ row "radio" 0x7f0000 0x10000
      ∷ last_row
      ∷ [];
  first_sysupgrade_partition = some (codes "os-image");
  last_sysupgrade_partition = some (codes "file-system");
}

abbrev pub re450 : DeviceInfo
re450 = record {
  id = some (codes "RE450");
  vendor = some (codes "");
  support_list = some (
      adjacent (
        "SupportList:\r\n" ∷ "{product_name:RE450,product_ver:1.0.0,special_id:00000000}\r\n"
        ∷ "{product_name:RE450,product_ver:1.0.0,special_id:55530000}\r\n"
        ∷ "{product_name:RE450,product_ver:1.0.0,special_id:45550000}\r\n"
        ∷ "{product_name:RE450,product_ver:1.0.0,special_id:4A500000}\r\n"
        ∷ "{product_name:RE450,product_ver:1.0.0,special_id:43410000}\r\n"
        ∷ "{product_name:RE450,product_ver:1.0.0,special_id:41550000}\r\n"
        ∷ "{product_name:RE450,product_ver:1.0.0,special_id:4B520000}\r\n"
        ∷ "{product_name:RE450,product_ver:1.0.0,special_id:55534100}\r\n" ∷ []));
  support_trail = 0x00;
  soft_ver = none;
  partitions =
      row "fs-uboot" 0x00000 0x20000
      ∷ row "os-image" 0x20000 0x180000
      ∷ row "file-system" 0x1a0000 0x460000
      ∷ row "partition-table" 0x600000 0x02000
      ∷ row "default-mac" 0x610000 0x00020
      ∷ row "pin" 0x610100 0x00020
      ∷ row "product-info" 0x611100 0x01000
      ∷ row "soft-version" 0x620000 0x01000
      ∷ row "support-list" 0x621000 0x01000
      ∷ row "profile" 0x622000 0x08000
      ∷ row "user-config" 0x630000 0x10000
      ∷ row "default-config" 0x640000 0x10000
      ∷ row "radio" 0x7f0000 0x10000
      ∷ last_row
      ∷ [];
  first_sysupgrade_partition = some (codes "os-image");
  last_sysupgrade_partition = some (codes "file-system");
}
