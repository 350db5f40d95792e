-- ===== src/Vpd/Edit/Set.antt =====
-- efx_vpd_hunk_set on a VPD-R block that has neither the keyword nor a checksum.
use gld.Base.{List}
