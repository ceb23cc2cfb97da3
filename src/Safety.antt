-- ===== src/Safety.antt =====
-- The parsers of what the server sends, together: tpkt.rs, graphics/fastpath.rs, mcs/, gcc.rs, pdu.rs,
-- caps.rs, egfx.rs, dvc.rs and emt.rs.
mod Checks
use ferropipe_rdp.Common.{Bytes, ◌≢◌}
use ferropipe_rdp.Outcome.{panic}
use ferropipe_rdp.Wire.{ByteOps, ByteLaws, lawful-eq}
use ferropipe_rdp.Tpkt
use ferropipe_rdp.Tpkt.Laws.{decode-ne-panic}
use ferropipe_rdp.Graphics.Fastpath.{parse_output_pdu}
use ferropipe_rdp.Graphics.Fastpath.Parse.{parse_output_pdu-ne-panic}
use ferropipe_rdp.Mcs.Domain.{
  parse_attach_user_confirm, parse_channel_join_confirm, parse_send_data_indication,
}
use ferropipe_rdp.Mcs.Domain.Laws.{parsers-ne-panic}
use ferropipe_rdp.Mcs.Connect.{parse_connect_response}
use ferropipe_rdp.Mcs.Connect.Laws.{parse_connect_response-ne-panic}
use ferropipe_rdp.Gcc.{parse_conference_create_response, parse_server_network_data}
use ferropipe_rdp.Gcc.Panics.{
  parse_conference_create_response-ne-panic_list, parse_server_network_data-ne-panic_list,
}
use ferropipe_rdp.Pdu.{parse_share_control, parse_share_data}
use ferropipe_rdp.Pdu.Laws.{parse_share_control-ne-panic_list, parse_share_data-ne-panic}
use ferropipe_rdp.Caps.{parse_demand_active}
use ferropipe_rdp.Caps.Laws.{parse_demand_active-ne-panic_list}
use ferropipe_rdp.Dvc
use ferropipe_rdp.Dvc.Laws.{parse-ne-panic}
use ferropipe_rdp.Emt
use ferropipe_rdp.Emt.Laws.{tunnel_parse-ne-panic}
use ferropipe_rdp.Egfx.{parse_all}
use ferropipe_rdp.Egfx.Panics.{parse_all-ne-panic_list}

-- Whatever the bytes, none of these parsers panics, where a loop over them that is not at its end
-- when its fuel is used up counts as a panic: TPKT packets, fast-path PDUs, the three MCS domain
-- PDUs, Connect-Response, the GCC envelope and the server's data blocks, share control and share
-- data PDUs, Demand Active, graphics commands, dynamic channel PDUs, and tunnel PDUs.
pub server_input-ne-panic :
    {B : ByteOps} (L : ByteLaws B) (buf : Bytes)
    → (Tpkt.decode B buf ≢ panic)
      × (parse_output_pdu buf ≢ panic)
      × (parse_attach_user_confirm B buf ≢ panic)
      × (parse_channel_join_confirm B buf ≢ panic)
      × (parse_send_data_indication B buf ≢ panic)
      × (parse_connect_response buf ≢ panic)
      × (parse_conference_create_response B buf ≢ panic)
      × (parse_server_network_data B buf ≢ panic)
      × (parse_share_control B buf ≢ panic)
      × (parse_share_data buf ≢ panic)
      × (parse_demand_active B buf ≢ panic)
      × (parse_all B buf ≢ panic)
      × (Dvc.parse B buf ≢ panic)
      × (Emt.parse B buf ≢ panic)
server_input-ne-panic {B = B} L buf =
    let domain = parsers-ne-panic B L buf in
    (
      decode-ne-panic B L buf,
      parse_output_pdu-ne-panic buf,
      domain.0,
      domain.1,
      domain.2,
      parse_connect_response-ne-panic buf,
      rw (lawful-eq L) (parse_conference_create_response-ne-panic_list buf),
      rw (lawful-eq L) (parse_server_network_data-ne-panic_list buf),
      rw (lawful-eq L) (parse_share_control-ne-panic_list buf),
      parse_share_data-ne-panic buf,
      rw (lawful-eq L) (parse_demand_active-ne-panic_list buf),
      rw (lawful-eq L) (parse_all-ne-panic_list buf),
      parse-ne-panic L buf,
      tunnel_parse-ne-panic L buf,
    )
