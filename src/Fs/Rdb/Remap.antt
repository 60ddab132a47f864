-- ===== src/Fs/Rdb/Remap.antt =====
-- What `remap` does to the partitions when the cylinders get smaller, and to their block devices.
