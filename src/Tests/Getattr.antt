-- ===== src/Tests/Getattr.antt =====
-- A query for the attributes of a file of Tests.Tree.
use net_bsd_wii_joybus.Message.{AttrResp}
use net_bsd_wii_joybus.Server.{find_by_id}
use net_bsd_wii_joybus.Exchange.Remote.{Fits}
use net_bsd_wii_joybus.Exchange.Fits.{attr_at}
use net_bsd_wii_joybus.Tests.Tree.{table, attr_junk}

abbrev answer : AttrResp
answer = attr_at table attr_junk (find_by_id 3 table)
