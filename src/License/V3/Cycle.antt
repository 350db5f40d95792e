-- ===== src/License/V3/Cycle.antt =====
-- A V3 key written to a partition that is then finished (common/efx_lic.c, efx_lic_v3_*).
use gld.Base.{List}
