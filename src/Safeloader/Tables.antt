-- ===== src/Safeloader/Tables.antt =====
-- The text areas of both partition tables: what printing one line after the other leaves in a
-- block (`print_line`, `make_partition_table`, `put_partitions`).
pub mod Printed
pub mod Flash
