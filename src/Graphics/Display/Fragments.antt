-- ===== src/Graphics/Display/Fragments.antt =====
-- graphics/update.rs: a fragmented update and the same update in one piece.
use ferropipe_rdp.Wire.{ByteOps}
use ferropipe_rdp.Graphics.Fastpath.{
  fragment_last, fragment_first, fragment_single, fragment_next, FastPathUpdate,
}
use ferropipe_rdp.Common.{
  append_assoc, ◌∙◌, ◌∙◌, refl, [], All, ◌++◌, ◌∷◌, ◌≡◌, ◌≡◌, ℕ, Bytes, List,
}
use ferropipe_rdp.Graphics.Display.{process, Display, then_next, apply_update, apply_all, Outcome}
use ferropipe_rdp.Outcome.{panic, err, ok}

-- A fragment in the middle of an update.
abbrev pub IsNext : FastPathUpdate → Type 0
IsNext u = u.fragmentation ≡ fragment_next

abbrev pub contents : List FastPathUpdate → Bytes
contents [] = []
contents (u ∷ us) = u.content ++ contents us

then_next-done : (o : Outcome) → then_next o (λ d. (d, ok tt)) ≡ o
then_next-done (d, ok u) = refl
then_next-done (d, err e) = refl
then_next-done (d, panic) = refl

module _ (B : ByteOps) where
  apply_next :
      (u : FastPathUpdate) (d : Display)
      → IsNext u
      → apply_update B u d ≡ (record d { frag = d.frag ++ u.content }, ok tt)
  unfolding apply_update
  apply_next u d h = rw h refl

  apply_last :
      (u : FastPathUpdate) (d : Display)
      → u.fragmentation ≡ fragment_last
      → apply_update B u d ≡ process B d.frag_code (d.frag ++ u.content) (record d { frag = [] })
  unfolding apply_update
  apply_last u d h = rw h refl

  apply_first :
      (u : FastPathUpdate) (d : Display)
      → u.fragmentation ≡ fragment_first
      → apply_update B u d ≡ (record d { frag_code = u.update_code; frag = u.content }, ok tt)
  unfolding apply_update
  apply_first u d h = rw h refl

  middle_then_last :
      (us : List FastPathUpdate) (last : FastPathUpdate) (d : Display)
      → All IsNext us
      → last.fragmentation ≡ fragment_last
      → apply_all B (us ++ (last ∷ [])) d
        ≡ process B d.frag_code (d.frag ++ (contents us ++ last.content)) (record d { frag = [] })
  unfolding apply_all
  middle_then_last [] last d h e = rw (apply_last last d e) (then_next-done _)
  middle_then_last (u ∷ us) last d h e = rw (apply_next u d h.0) (
      middle_then_last us last (record d { frag = d.frag ++ u.content }) h.1 e
      ∙ rw (
        append_assoc d.frag u.content (contents us ++ last.content),
        append_assoc u.content (contents us) last.content,
      ))

  -- The update in one piece, and the display with no update in progress.
  abbrev pub whole_update : ℕ → Bytes → FastPathUpdate
  whole_update code content = record {
    update_code = code;
    fragmentation = fragment_single;
    content = content;
  }

  -- A FIRST fragment, any number of NEXT fragments and a LAST one do what a single update with the
  -- code of the first and all their bytes does, whatever was being reassembled before; the buffer
  -- is empty when it is processed.
  pub fragments-single :
      (first : FastPathUpdate) (us : List FastPathUpdate) (last : FastPathUpdate) (d : Display)
      → first.fragmentation ≡ fragment_first
      → All IsNext us
      → last.fragmentation ≡ fragment_last
      → apply_all B (first ∷ (us ++ (last ∷ []))) d
        ≡ apply_update B
            (whole_update first.update_code (first.content ++ (contents us ++ last.content)))
            (record d { frag = []; frag_code = first.update_code })
  unfolding apply_all
  fragments-single first us last d hf hn hl =
      rw (apply_first first d hf) (middle_then_last us last _ hn hl ∙ unfold apply_update in refl)
