-- ===== src/Connection/Settings.antt =====
-- connection.rs: the server's data blocks come back from the settings exchange.
use ferropipe_rdp.Wire.{ByteOps, list_bytes}
use ferropipe_rdp.Connection.Server.{scripted, answered}
use ferropipe_rdp.Common.{
  arith, refl, All, some, [], true, length, ◌≡◌, ◌^◌, ◌≡◌, false, ◌^◌, ◌<◌, ◌∷◌, ◌<◌, ◌++◌, ℕ, List,
  Bytes,
}
use ferropipe_rdp.Connection.{client_blocks, SessionConfig, basic_settings_exchange}
use ferropipe_rdp.Gcc.Blocks.{
  IsServerBlock, with_blocks, sent_blocks, network_result, found_after, ServerBlock,
}
use ferropipe_rdp.Mcs.Ber.{application}
use ferropipe_rdp.Mcs.Connect.{connect_initial, connect_response_tag}
use ferropipe_rdp.Gcc.{no_network_data, find_key, conference_create_request, h221_server_key}
use ferropipe_rdp.Mcs.Connect.Laws.{parse_connect_response-application, response_body}
use ferropipe_rdp.Mcs.Per.{write_length}
use ferropipe_rdp.Outcome.{ok}
use ferropipe_rdp.Gcc.Envelope.{parse_response-sent_list}
use ferropipe_rdp.Gcc.Laws.{parse-sent_blocks_list}

-- The blocks in their GCC envelope, in a Connect-Response.
abbrev pub gcc_response : ByteOps → Bytes → List ServerBlock → Bytes
gcc_response B prefix blocks =
    prefix
    ++ (h221_server_key
        ++ (write_length B [] (length (sent_blocks blocks ++ []))
            ++ ((sent_blocks blocks ++ []) ++ [])))

abbrev pub connect_response : ByteOps → ℕ → Bytes → Bytes → List ServerBlock → Bytes
connect_response B connect_id parameters prefix blocks =
    application connect_response_tag
      (response_body 0 connect_id parameters (gcc_response B prefix blocks))
    ++ []

-- The envelope fits, and names the network.
abbrev pub IsConnectResponse : ByteOps → ℕ → Bytes → Bytes → List ServerBlock → Type 0
IsConnectResponse B connect_id parameters prefix blocks =
    (connect_id < 2 ^ 32)
    × (length parameters < 2 ^ 64)
    × (length (gcc_response B prefix blocks) < 2 ^ 64)
    × (length (response_body 0 connect_id parameters (gcc_response B prefix blocks)) < 2 ^ 64)
    × (find_key (prefix ++ h221_server_key) ≡ some (length prefix))
    × (length (sent_blocks blocks ++ []) < 0x4000)
    × All IsServerBlock blocks
    × (found_after false blocks ≡ true)

network_found :
    (blocks : List ServerBlock)
    → found_after false blocks ≡ true
    → network_result blocks ≡ ok (with_blocks no_network_data blocks)
network_found blocks h = rw h refl

pub basic_settings_exchange_lem :
    (cfg : SessionConfig) (connect_id : ℕ) (parameters prefix : Bytes) (blocks : List ServerBlock)
    (more sent_pdus : List Bytes)
    → IsConnectResponse list_bytes connect_id parameters prefix blocks
    → basic_settings_exchange list_bytes scripted cfg (
        answered (connect_response list_bytes connect_id parameters prefix blocks ∷ more) sent_pdus)
      ≡ (
        answered more (
            sent_pdus
            ++ (connect_initial
                  (conference_create_request list_bytes (client_blocks list_bytes cfg))
                ∷ [])),
        ok (with_blocks no_network_data blocks),
      )
unfolding basic_settings_exchange
basic_settings_exchange_lem cfg connect_id parameters prefix blocks more sent_pdus
      (hi, hp, hg, hb, hk, hl, hbs, hf) =
    rw
      (
        parse_connect_response-application 0 connect_id parameters
            (gcc_response list_bytes prefix blocks) [] hi hp hg hb,
        parse_response-sent_list prefix (sent_blocks blocks ++ []) [] hk hl,
        parse-sent_blocks_list blocks [] hbs (omega arith),
        network_found blocks hf,
      )
      refl
