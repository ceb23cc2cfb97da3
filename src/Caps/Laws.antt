-- ===== src/Caps/Laws.antt =====
-- caps.rs: the capability sets of a Demand Active are parsed as they were framed.
use ferropipe_rdp.Wire.{
  from_u32_le, advance_left, from_u16_le-u16_le, from_u32_le-u32_le, ByteOps, ByteLaws, list_bytes,
  lawful-eq, u16_le, u32_le,
}
use ferropipe_rdp.Caps.{
  read_capabilities, read_set, read_sets, parse_demand_active, capability_set, DemandActive,
}
use ferropipe_rdp.Common.{
  ◌≤◌, ◌≤◌, length-drop, zero, drop_left, refl, ◌-◌, ◌∙◌, ◌*◌, ◌∙◌, take_left, ◌*◌, length-append,
  drop, append_assoc, ap, [], ◌∷◌, arith, ◌≡◌, ◌≡◌, ◌+◌, ◌≢◌, ◌++◌, ◌≢◌, suc, length, ◌^◌, All,
  ◌++◌, ◌<◌, Bytes, ◌<◌, ℕ, List,
}
use ferropipe_rdp.Outcome.{Result, >>=-ne-panic, ok, ◌>>=◌, panic}

-- The sets framed by capability_set, one after the other.
abbrev pub framed_sets : ByteOps → List (ℕ × Bytes) → Bytes
framed_sets B [] = []
framed_sets B ((ty, data') ∷ sets) = capability_set B ty data' ++ framed_sets B sets

abbrev pub IsCapabilitySet : ℕ × Bytes → Type 0
IsCapabilitySet (ty, data') = (ty < 2 ^ 16) × (length data' + 4 < 2 ^ 16)

capability_set-bytes :
    (ty : ℕ) (data' : Bytes)
    → length data' + 4 < 2 ^ 16
    → capability_set list_bytes ty data' ≡ u16_le ty ++ (u16_le (length data' + 4) ++ data')
unfolding capability_set
capability_set-bytes ty data' h = ground arith

read_set-capability_set :
    (ty : ℕ) (data' rest : Bytes)
    → IsCapabilitySet (ty, data')
    → read_set list_bytes (capability_set list_bytes ty data' ++ rest) ≡ ok ((ty, data'), rest)
unfolding read_set
read_set-capability_set ty data' rest (ht, hd) =
    rw
      (
        capability_set-bytes ty data' hd,
        from_u16_le-u16_le ty ht,
        from_u16_le-u16_le (length data' + 4) hd,
        read_set,
      )
      (ground (
        arith,
        length-append data' rest,
        take_left data' rest (length data' + 4 - 4),
        drop_left data' rest (length data' + 4 - 4),
      ))

pub read_sets-framed_sets :
    (sets : List (ℕ × Bytes)) (rest : Bytes)
    → All IsCapabilitySet sets
    → read_sets list_bytes (length sets) (framed_sets list_bytes sets ++ rest) ≡ ok sets
unfolding read_sets
read_sets-framed_sets [] rest h = refl
read_sets-framed_sets ((ty, data') ∷ sets) rest h =
    ap (λ b. read_sets list_bytes (suc (length sets)) b)
      (append_assoc (capability_set list_bytes ty data') (framed_sets list_bytes sets) rest)
    ∙ ap
        (λ (r : Result ((ℕ × Bytes) × Bytes)).
          r >>= λ p. read_sets list_bytes (length sets) p.1 >>= λ found. ok (p.0 ∷ found))
        (read_set-capability_set ty data' (framed_sets list_bytes sets ++ rest) h.0)
    ∙ ap (λ (r : Result (List (ℕ × Bytes))). r >>= λ found. ok ((ty, data') ∷ found))
        (read_sets-framed_sets sets rest h.1)

-- A Demand Active as a server sends it, where the client does not use the length of the sets and
-- the padding.
abbrev pub sent_demand : ByteOps → DemandActive → Bytes → ℕ → ℕ → Bytes
sent_demand B demand source combined padding =
    u32_le demand.share_id
    ++ (u16_le (length source)
        ++ (u16_le combined
            ++ (source
                ++ (u16_le (length demand.capability_sets)
                    ++ (u16_le padding ++ framed_sets B demand.capability_sets)))))

abbrev pub IsDemandActive : DemandActive → Type 0
IsDemandActive demand =
    (demand.share_id < 2 ^ 32)
    × (length demand.capability_sets < 2 ^ 16)
    × All IsCapabilitySet demand.capability_sets

read_capabilities_lem :
    (demand : DemandActive) (padding : ℕ) (rest : Bytes)
    → IsDemandActive demand
    → read_capabilities list_bytes demand.share_id (
        u16_le (length demand.capability_sets)
        ++ (u16_le padding ++ (framed_sets list_bytes demand.capability_sets ++ rest)))
      ≡ ok demand
unfolding read_capabilities
read_capabilities_lem demand padding rest (hs, hn, hsets) =
    rw
      (
        from_u16_le-u16_le (length demand.capability_sets) hn,
        advance_left (u16_le padding) (framed_sets list_bytes demand.capability_sets ++ rest) 2
            refl,
        read_sets-framed_sets demand.capability_sets rest hsets,
      )
      refl

pub parse-sent_demand_list :
    (demand : DemandActive) (source : Bytes) (combined padding : ℕ) (rest : Bytes)
    → IsDemandActive demand
    → length source < 2 ^ 16
    → parse_demand_active list_bytes (sent_demand list_bytes demand source combined padding ++ rest)
      ≡ ok demand
unfolding parse_demand_active
parse-sent_demand_list demand source combined padding rest h hl =
    let tail =
      u16_le (length demand.capability_sets)
      ++ (u16_le padding ++ framed_sets list_bytes demand.capability_sets) in
    rw
      (
        append_assoc source tail rest,
        from_u32_le-u32_le demand.share_id h.0,
        from_u16_le-u16_le (length source) hl,
        advance_left source (tail ++ rest) (length source) refl,
        length-append source (tail ++ rest),
        read_capabilities_lem demand padding rest h,
      )
      (ground arith)

-- parse_demand_active: the capability sets that capability_set framed, each with its type and its
-- data, are read back in order with the share id, whatever the source descriptor, the length of the
-- sets, the padding and what follows.
pub parse_demand_active-sent_demand :
    {B : ByteOps} (L : ByteLaws B) (demand : DemandActive) (source : Bytes) (combined padding : ℕ)
    (rest : Bytes)
    → IsDemandActive demand
    → length source < 2 ^ 16
    → parse_demand_active B (sent_demand B demand source combined padding ++ rest) ≡ ok demand
parse_demand_active-sent_demand L = rw (lawful-eq L) parse-sent_demand_list

read_set-ne-panic : (b : Bytes) → read_set list_bytes b ≢ panic
unfolding read_set
read_set-ne-panic (a ∷ b ∷ c ∷ d ∷ r) = λ p. ground arith
read_set-ne-panic _ = λ p. ground arith

read_sets-ne-panic : (n : ℕ) (b : Bytes) → read_sets list_bytes n b ≢ panic
unfolding read_sets
read_sets-ne-panic zero b = λ p. cc
read_sets-ne-panic (suc n) b =
    >>=-ne-panic (read_set list_bytes b) _ (read_set-ne-panic b) (λ p e.
      >>=-ne-panic (read_sets list_bytes n p.1) _ (read_sets-ne-panic n p.1) (λ sets k q. cc))

read_capabilities-ne-panic :
    (share_id : ℕ) (b : Bytes) → 4 ≤ length b → read_capabilities list_bytes share_id b ≢ panic
unfolding read_capabilities
read_capabilities-ne-panic share_id (a ∷ b ∷ c ∷ d ∷ r) h =
    rw (advance_left (c ∷ d ∷ []) r 2 refl) (
      >>=-ne-panic (read_sets list_bytes (a + 256 * b) r) _ (read_sets-ne-panic (a + 256 * b) r)
        (λ sets k q. cc))
read_capabilities-ne-panic share_id _ h = absurd (omega arith)

pub parse_demand_active-ne-panic_list : (body : Bytes) → parse_demand_active list_bytes body ≢ panic
unfolding parse_demand_active
parse_demand_active-ne-panic_list (a ∷ b ∷ c ∷ d ∷ e ∷ f ∷ g ∷ h ∷ r) =
    let rest = drop (e + 256 * f) r in
    λ p.
      ground
        (arith, length-drop (e + 256 * f) r, read_capabilities-ne-panic (from_u32_le a b c d) rest)
parse_demand_active-ne-panic_list _ = λ p. ground arith
