-- ===== src/Egfx/Panics.antt =====
-- egfx.rs: the parser of the commands does not panic.
use ferropipe_rdp.Common.{
  [], zero, length-drop, false, ◌≡◌, ◌≡◌, ◌||◌, suc, ltb, ◌-◌, ◌-◌, take, ◌*◌, length, ◌*◌, ◌≤◌,
  ◌≤◌, ◌+◌, arith, ◌∷◌,
}
use ferropipe_rdp.Wire.{from_u32_le, list_bytes}
use ferropipe_rdp.Egfx.{
  parse_commands, parse_all, parse_command, GfxCommand, read_map, read_create, need, read_wire,
  read_body,
}
use ferropipe_rdp.Common.{◌≢◌, ◌≢◌, ℕ, Bytes}
use ferropipe_rdp.Outcome.{
  Post-ok, slice, ok, Post-then, >>=-ne-panic, slice_from, Post-guard, Post, panic,
}

read_wire-ne-panic : (body : Bytes) → read_wire list_bytes body ≢ panic
unfolding read_wire need
read_wire-ne-panic (a ∷ b ∷ c ∷ d ∷ e ∷ f ∷ g ∷ h ∷ i ∷ j ∷ k ∷ l ∷ m ∷ n ∷ o ∷ p ∷ q ∷ r) =
    λ x. ground arith
read_wire-ne-panic _ = λ x. ground arith

read_body-ne-panic : (id : ℕ) (body : Bytes) → read_body list_bytes id body ≢ panic
unfolding read_body read_create read_map need
read_body-ne-panic id (a ∷ b ∷ c ∷ d ∷ e ∷ f ∷ g ∷ h ∷ i ∷ j ∷ k ∷ l ∷ r) =
    λ x. ground (arith, read_wire-ne-panic (a ∷ b ∷ c ∷ d ∷ e ∷ f ∷ g ∷ h ∷ i ∷ j ∷ k ∷ l ∷ r))
read_body-ne-panic id body = λ x. ground (arith, read_wire-ne-panic body)

parse_command-ne-panic : (buf : Bytes) → parse_command list_bytes buf ≢ panic
unfolding parse_command
parse_command-ne-panic (a ∷ b ∷ c ∷ d ∷ e ∷ f ∷ g ∷ h ∷ r) =
    λ x. ground (arith, read_body-ne-panic (a + 256 * b) (take (from_u32_le e f g h - 8) r))
parse_command-ne-panic _ = λ x. ground arith

-- A command takes a part of the buffer.
abbrev IsConsumed : Bytes → GfxCommand × ℕ → Type 0
IsConsumed buf (cmd, consumed) = (8 ≤ consumed) × (consumed ≤ length buf)

consumed_part : (n m : ℕ) → (ltb n 8 || ltb m n) ≡ false → (8 ≤ n) × (n ≤ m)
consumed_part n m h = ground arith

slice_from-ne-panic : (xs : Bytes) (a : ℕ) → a ≤ length xs → slice_from xs a ≢ panic
slice_from-ne-panic xs a h = λ p. ground arith

length-slice_from :
    (xs rest : Bytes) (a : ℕ) → slice_from xs a ≡ ok rest → length rest ≡ length xs - a
length-slice_from xs rest a h = ground (arith, length-drop a xs)

parse_command-IsConsumed : (buf : Bytes) → Post (parse_command list_bytes buf) (IsConsumed buf)
unfolding parse_command
parse_command-IsConsumed (a ∷ b ∷ c ∷ d ∷ e ∷ f ∷ g ∷ h ∷ r) =
    let buf = a ∷ b ∷ c ∷ d ∷ e ∷ f ∷ g ∷ h ∷ r in
    let n = from_u32_le e f g h in
    Post-guard (ltb (length buf) 8) _ _ (IsConsumed buf) (λ _.
      Post-guard (ltb n 8 || ltb (length buf) n) _ _ (IsConsumed buf) (λ within.
        Post-then (slice buf 8 n) _ (IsConsumed buf) (λ body.
          Post-then (read_body list_bytes (a + 256 * b) body) _ (IsConsumed buf)
            (λ cmd. Post-ok (IsConsumed buf) (cmd, n) (consumed_part n (length buf) within)))))
parse_command-IsConsumed _ = λ p x. absurd (ground arith)

parse_commands-ne-panic :
    (fuel : ℕ) (buf : Bytes) → length buf ≤ fuel → parse_commands list_bytes fuel buf ≢ panic
unfolding parse_commands
parse_commands-ne-panic zero [] h = λ x. cc
parse_commands-ne-panic (suc fuel) [] h = λ x. cc
parse_commands-ne-panic zero (b ∷ bs) h = absurd (omega arith)
parse_commands-ne-panic (suc fuel) (b ∷ bs) h =
    >>=-ne-panic (parse_command list_bytes (b ∷ bs)) _ (parse_command-ne-panic (b ∷ bs)) (λ p e.
      let within = parse_command-IsConsumed (b ∷ bs) p e in
      >>=-ne-panic (slice_from (b ∷ bs) p.1) _ (slice_from-ne-panic (b ∷ bs) p.1 within.1)
        (λ rest k.
          >>=-ne-panic (parse_commands list_bytes fuel rest) _
            (parse_commands-ne-panic fuel rest
              (omega (arith, h, within.0, length-slice_from (b ∷ bs) rest p.1 k)))
            (λ cmds l q. cc)))

pub parse_all-ne-panic_list : (buf : Bytes) → parse_all list_bytes buf ≢ panic
unfolding parse_all
parse_all-ne-panic_list buf = parse_commands-ne-panic (length buf) buf (omega arith)
