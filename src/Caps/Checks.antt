-- ===== src/Caps/Checks.antt =====
-- Runs of caps.rs, and its theorem at a concrete input.
use ferropipe_rdp.Wire.{list_bytes, list_bytes-ByteLaws}
use ferropipe_rdp.Caps.{parse_demand_active, DemandActive}
use ferropipe_rdp.Caps.Sets.{general_caps, glyph_cache_caps}
use ferropipe_rdp.Caps.Laws.{parse_demand_active-sent_demand, sent_demand}
use ferropipe_rdp.Common.{arith, refl, ◌≡◌, ◌≡◌, ◌++◌, ◌++◌, ◌+◌, length, [], ◌∷◌, ◌∷◌}
use ferropipe_rdp.Outcome.{ok}

sets_run : length (glyph_cache_caps list_bytes) + length (general_caps list_bytes) ≡ 52 + 24
unfolding glyph_cache_caps general_caps
sets_run = refl

abbrev demand : DemandActive
demand = record {
  share_id = 0x103EA;
  capability_sets = (9, 0 ∷ 0 ∷ 0 ∷ 0 ∷ []) ∷ (8, 1 ∷ 0 ∷ []) ∷ [];
}

parse_demand_active-sent_demand_example :
    parse_demand_active list_bytes
      (sent_demand list_bytes demand (0x52 ∷ 0x44 ∷ 0x50 ∷ 0 ∷ []) 0 0 ++ (7 ∷ []))
    ≡ ok demand
parse_demand_active-sent_demand_example =
    parse_demand_active-sent_demand list_bytes-ByteLaws demand (0x52 ∷ 0x44 ∷ 0x50 ∷ 0 ∷ []) 0 0
      (7 ∷ [])
      (omega arith, omega arith, ((omega arith, omega arith), ((omega arith, omega arith), tt)))
      (omega arith)
