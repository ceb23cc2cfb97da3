-- ===== src/Graphics/Display/Checks.antt =====
-- Runs of graphics/update.rs, and its theorem at a concrete input.
use ferropipe_rdp.Wire.{list_bytes}
use ferropipe_rdp.Graphics.Display.{process, apply_update, apply_all, Display}
use ferropipe_rdp.Common.{refl, true, false, ◌++◌, ◌≡◌, ◌≡◌, none, [], ◌∷◌, Bytes, ℕ}
use ferropipe_rdp.Graphics.Fastpath.{
  fragment_last, updatetype_ptr_position, fragment_next, fragment_single, FastPathUpdate,
  fragment_first,
}
use ferropipe_rdp.Outcome.{ok}
use ferropipe_rdp.Graphics.Display.Fragments.{fragments-single, contents, whole_update}

abbrev fragment : ℕ → Bytes → FastPathUpdate
fragment place content = record {
  update_code = updatetype_ptr_position;
  fragmentation = place;
  content = content;
}

abbrev screen : Display
screen = record {
  framebuffer = record { width = 1; height = 1; pixels = 0 ∷ 0 ∷ 0 ∷ 0 ∷ [] };
  cursor = none;
  cursor_pos = (0, 0);
  dirty = false;
  frag = 9 ∷ [];
  frag_code = 1;
}

position_runs :
    apply_update list_bytes (fragment fragment_single (5 ∷ 0 ∷ 6 ∷ 1 ∷ [])) screen
    ≡ (record screen { cursor_pos = (5, 262); dirty = true }, ok tt)
unfolding apply_update process
position_runs = refl

fragments-single_example :
    apply_all list_bytes
      (fragment fragment_first (5 ∷ [])
        ∷ ((fragment fragment_next (0 ∷ 6 ∷ []) ∷ []) ++ (fragment fragment_last (1 ∷ []) ∷ [])))
      screen
    ≡ apply_update list_bytes
        (whole_update list_bytes updatetype_ptr_position
          ((5 ∷ []) ++ (contents (fragment fragment_next (0 ∷ 6 ∷ []) ∷ []) ++ (1 ∷ []))))
        (record screen { frag = []; frag_code = updatetype_ptr_position })
fragments-single_example =
    fragments-single list_bytes (fragment fragment_first (5 ∷ []))
      (fragment fragment_next (0 ∷ 6 ∷ []) ∷ []) (fragment fragment_last (1 ∷ [])) screen refl
      (refl, tt) refl
