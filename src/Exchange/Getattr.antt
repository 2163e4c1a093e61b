-- ===== src/Exchange/Getattr.antt =====
-- `puffboy_node_getattr`'s request over the link, on every table.
use net_bsd_wii_joybus.Wire.Link.{Link}
use net_bsd_wii_joybus.Exchange.Remote.{Fits}
