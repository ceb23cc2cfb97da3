-- ===== src/Safety/Checks.antt =====
-- The parsers together, at a concrete input.
use ferropipe_rdp.Wire.{list_bytes, list_bytes-ByteLaws}
use ferropipe_rdp.Tpkt
use ferropipe_rdp.Dvc
use ferropipe_rdp.Emt
use ferropipe_rdp.Common.{[], ◌∷◌, ◌∷◌, ◌≢◌, Bytes}
use ferropipe_rdp.Outcome.{panic}
use ferropipe_rdp.Graphics.Fastpath.{parse_output_pdu}
use ferropipe_rdp.Mcs.Domain.{
  parse_send_data_indication, parse_channel_join_confirm, parse_attach_user_confirm,
}
use ferropipe_rdp.Mcs.Connect.{parse_connect_response}
use ferropipe_rdp.Gcc.{parse_server_network_data, parse_conference_create_response}
use ferropipe_rdp.Pdu.{parse_share_data, parse_share_control}
use ferropipe_rdp.Caps.{parse_demand_active}
use ferropipe_rdp.Safety.{server_input-ne-panic}
use ferropipe_rdp.Egfx.{parse_all}

abbrev input : Bytes
input = 3 ∷ 0 ∷ 0 ∷ 200 ∷ []

server_input-ne-panic_example :
    (Tpkt.decode list_bytes input ≢ panic)
    × (parse_output_pdu input ≢ panic)
    × (parse_attach_user_confirm list_bytes input ≢ panic)
    × (parse_channel_join_confirm list_bytes input ≢ panic)
    × (parse_send_data_indication list_bytes input ≢ panic)
    × (parse_connect_response input ≢ panic)
    × (parse_conference_create_response list_bytes input ≢ panic)
    × (parse_server_network_data list_bytes input ≢ panic)
    × (parse_share_control list_bytes input ≢ panic)
    × (parse_share_data input ≢ panic)
    × (parse_demand_active list_bytes input ≢ panic)
    × (parse_all list_bytes input ≢ panic)
    × (Dvc.parse list_bytes input ≢ panic)
    × (Emt.parse list_bytes input ≢ panic)
server_input-ne-panic_example = server_input-ne-panic list_bytes-ByteLaws input
