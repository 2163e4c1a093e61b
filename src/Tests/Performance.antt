-- ===== src/Tests/Performance.antt =====
-- A measurement without idle polls.
use net_bsd_wii_joybus.Base.{◌≡◌, [], ◌∷◌, ◌++◌, map}
use net_bsd_wii_joybus.Wire.{bswap32}
use net_bsd_wii_joybus.Wire.Link.{gba_read, to_gba}
use net_bsd_wii_joybus.Server.{done}
use net_bsd_wii_joybus.Performance.{measure_loop, send_numbers, send_all_numbers}
use net_bsd_wii_joybus.Performance.Leftover.{measure_loop-leaves}
use net_bsd_wii_joybus.Tests.Wire.{link}
use net_bsd_wii_joybus.Tests.Remote.{fetched_all}

measure_loop-leaves_example :
    (send_all_numbers (to_gba link (bswap32 1 ∷ [])) ≡ send_numbers 0 257 ++ send_numbers 257 767)
    × (measure_loop (map (λ pkt. gba_read (link.answer pkt)) (send_numbers 0 257) ++ 9 ∷ []) 0
        ≡ done (9 ∷ []))
measure_loop-leaves_example =
    measure_loop-leaves link (map (λ pkt. gba_read (link.answer pkt)) (send_numbers 0 257)) (9 ∷ [])
      (fetched_all (send_numbers 0 257))
