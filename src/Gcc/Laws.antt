-- ===== src/Gcc/Laws.antt =====
-- gcc.rs: the server's data blocks are read as they are meant.
use mathlib.Core.List.{flat_map}
use ferropipe_rdp.Wire.{from_u16_le-u16_le, ByteOps, ByteLaws, list_bytes, lawful-eq, u16_le}
use ferropipe_rdp.Gcc.{
  no_network_data, parse_server_network_data, BlockState, read_round, sc_mcs_msgchannel, sc_net,
  read_blocks, ServerNetworkData, read_net, read_ids, read_block,
}
use ferropipe_rdp.Common.{
  false, append_assoc, zero, le→leb, ap, ◌∙◌, ◌∙◌, lt→leb, ◌≤◌, ◌≤◌, length-append, drop_left, ◌==◌,
  ◌||◌, suc, inr, ◌+◌, ◌^◌, ◌^◌, ◌<◌, ◌<◌, ne→==, Bool, inl, refl, [], arith, ◌∷◌, ◌≡◌, ◌≡◌, ◌++◌,
  length, All, Bytes, ℕ, List,
}
use ferropipe_rdp.Gcc.Blocks.{
  found_after, with_blocks, network_result, sent_blocks, sent_block, is_network, other_block,
  message_channel, network, with_block, body_of, type_of, IsU16, IsServerBlock, ServerBlock,
}
use ferropipe_rdp.Outcome.{Result, ◌>>=◌, slice_mid, ok}

read_ids-ids :
    (ids : List ℕ) (pad : Bytes)
    → All IsU16 ids
    → read_ids list_bytes (length ids) (flat_map u16_le ids ++ pad) ≡ ok ids
unfolding read_ids flat_map
read_ids-ids [] pad h = refl
read_ids-ids (id ∷ ids) pad (h, hs) =
    rw (from_u16_le-u16_le id h, read_ids-ids ids pad hs) (ground arith)

read_block-sent :
    (out : ServerNetworkData) (b : ServerBlock)
    → IsServerBlock b
    → read_block list_bytes out (type_of b) (body_of b) ≡ ok (with_block out b)
unfolding read_block read_net
read_block-sent out (network io ids pad) (hi, hn, hs, hl) =
    rw (from_u16_le-u16_le io hi, from_u16_le-u16_le (length ids) hn, read_ids-ids ids pad hs)
      (ground arith)
read_block-sent out (message_channel id more) (hi, hl) =
    rw (from_u16_le-u16_le id hi) (ground arith)
read_block-sent out (other_block ty body) (ht, hn, hm, hl) = elim hm [
  | inl ne ↦ rw (ne→== ty sc_net hn, ne→== ty sc_mcs_msgchannel ne) refl
  | inr lt ↦ rw (ne→== ty sc_net hn) (ground arith)
]

read_round-block :
    (out out' : ServerNetworkData) (found : Bool) (ty : ℕ) (body rest : Bytes)
    → ty < 2 ^ 16
    → length body + 4 < 2 ^ 16
    → read_block list_bytes out ty body ≡ ok out'
    → read_round list_bytes (record {
      out = out;
      found_net = found;
      buf = u16_le ty ++ (u16_le (length body + 4) ++ (body ++ rest));
    })
      ≡ ok (record { out = out'; found_net = found || ty == sc_net; buf = rest })
unfolding read_round
read_round-block out out' found ty body rest ht hb h =
    rw
      (
        from_u16_le-u16_le ty ht,
        from_u16_le-u16_le (length body + 4) hb,
        slice_mid (u16_le ty ++ u16_le (length body + 4)) body rest 4 (length body + 4) refl
            (omega arith),
        h,
        drop_left (u16_le ty ++ (u16_le (length body + 4) ++ body)) rest (length body + 4)
            (omega arith),
      )
      (ground (arith, length-append body rest))

-- What the laws of the walk need of a block.
type_of-is_network : (b : ServerBlock) → IsServerBlock b → (type_of b == sc_net) ≡ is_network b
type_of-is_network (network io ids pad) h = refl
type_of-is_network (message_channel id more) h = refl
type_of-is_network (other_block ty body) h = ne→== ty sc_net h.1

type_of-IsU16 : (b : ServerBlock) → IsServerBlock b → type_of b < 2 ^ 16
type_of-IsU16 (network io ids pad) h = omega arith
type_of-IsU16 (message_channel id more) h = omega arith
type_of-IsU16 (other_block ty body) h = h.0

length-body_of : (b : ServerBlock) → IsServerBlock b → length (body_of b) + 4 < 2 ^ 16
length-body_of (network io ids pad) h = h.3
length-body_of (message_channel id more) h = omega (arith, h.1)
length-body_of (other_block ty body) h = h.3

read_round-sent_block :
    (out : ServerNetworkData) (found : Bool) (b : ServerBlock) (rest : Bytes)
    → IsServerBlock b
    → read_round list_bytes (record { out = out; found_net = found; buf = sent_block b ++ rest })
      ≡ ok (record { out = with_block out b; found_net = found || is_network b; buf = rest })
read_round-sent_block out found b rest h =
    read_round-block out (with_block out b) found (type_of b) (body_of b) rest (type_of-IsU16 b h)
      (length-body_of b h) (read_block-sent out b h)
    ∙ ap (λ found'. ok (record { out = with_block out b; found_net = found || found'; buf = rest }))
        (type_of-is_network b h)

read_blocks_more :
    (n : ℕ) (state : BlockState)
    → 4 ≤ length state.buf
    → read_blocks list_bytes (suc n) state
      ≡ (read_round list_bytes state >>= read_blocks list_bytes n)
unfolding read_blocks
read_blocks_more n state h = rw (le→leb 4 (length state.buf) h, read_blocks) refl

read_blocks_done :
    (n : ℕ) (state : BlockState) → length state.buf < 4 → read_blocks list_bytes n state ≡ ok state
unfolding read_blocks
read_blocks_done zero state h = rw (lt→leb 4 (length state.buf) h, read_blocks) refl
read_blocks_done (suc n) state h = rw (lt→leb 4 (length state.buf) h, read_blocks) refl

read_blocks-sent_blocks :
    (bs : List ServerBlock) (n : ℕ) (out : ServerNetworkData) (found : Bool) (tail : Bytes)
    → All IsServerBlock bs
    → length tail < 4
    → length bs ≤ n
    → read_blocks list_bytes n
        (record { out = out; found_net = found; buf = sent_blocks bs ++ tail })
      ≡ ok (record { out = with_blocks out bs; found_net = found_after found bs; buf = tail })
read_blocks-sent_blocks [] n out found tail h ht hn =
    read_blocks_done n (record { out = out; found_net = found; buf = tail }) ht
read_blocks-sent_blocks (b ∷ bs) zero out found tail h ht hn = absurd (omega arith)
read_blocks-sent_blocks (b ∷ bs) (suc n) out found tail (h, hs) ht hn =
    ap (λ buf. read_blocks list_bytes (suc n) (record { out = out; found_net = found; buf = buf }))
      (append_assoc (sent_block b) (sent_blocks bs) tail)
    ∙ read_blocks_more n
        (record { out = out; found_net = found; buf = sent_block b ++ (sent_blocks bs ++ tail) })
        (omega arith)
    ∙ ap (λ (r : Result BlockState). r >>= read_blocks list_bytes n)
        (read_round-sent_block out found b (sent_blocks bs ++ tail) h)
    ∙ read_blocks-sent_blocks bs n (with_block out b) (found || is_network b) tail hs ht
        (omega arith)

-- Fuel is left over: a block has at least 4 bytes.
length-sent_blocks : (bs : List ServerBlock) → length bs ≤ length (sent_blocks bs)
length-sent_blocks [] = omega arith
length-sent_blocks (b ∷ bs) =
    omega (arith, length-sent_blocks bs, length-append (sent_block b) (sent_blocks bs))

pub parse-sent_blocks_list :
    (bs : List ServerBlock) (tail : Bytes)
    → All IsServerBlock bs
    → length tail < 4
    → parse_server_network_data list_bytes (sent_blocks bs ++ tail) ≡ network_result bs
unfolding parse_server_network_data
parse-sent_blocks_list bs tail h ht =
    rw
      (read_blocks-sent_blocks bs (length (sent_blocks bs ++ tail)) no_network_data false tail h ht
        (omega (arith, length-sent_blocks bs, length-append (sent_blocks bs) tail)))
      refl

-- parse_server_network_data: of any sequence of blocks the result is what they mean. The I/O
-- channel is that of the last network block, the channels of all of them are in order, the message
-- channel is the last that was granted, and blocks of other types are skipped. It is an error if
-- there is no network block. Fewer than 4 bytes behind the blocks are ignored.
pub parse_server_network_data-sent_blocks :
    {B : ByteOps} (L : ByteLaws B) (bs : List ServerBlock) (tail : Bytes)
    → All IsServerBlock bs
    → length tail < 4
    → parse_server_network_data B (sent_blocks bs ++ tail) ≡ network_result bs
parse_server_network_data-sent_blocks L = rw (lawful-eq L) parse-sent_blocks_list
