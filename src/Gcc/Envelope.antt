-- ===== src/Gcc/Envelope.antt =====
-- gcc.rs: the GCC envelope of the server's blocks is opened.
use mathlib.Core.Option
use ferropipe_rdp.Wire.{list_bytes}
use ferropipe_rdp.Gcc.{h221_server_key, parse_conference_create_response, find_key}
use ferropipe_rdp.Common.{
  length-append, subst, append_assoc, ◌∙◌, ◌<◌, ◌∙◌, take_within, sym, refl, length-take, inr,
  if◌then◌else◌, ◌<◌, take, suc, none, inl, false, arith, ap, true, Option, Bool-cases, Bool, ◌++◌,
  [], ◌∷◌, length, ◌≤◌, ◌≤◌, ◌+◌, some, ◌≡◌, ◌≡◌, ℕ, Bytes,
}
use ferropipe_rdp.Mcs.Ber.{same_bytes}
use ferropipe_rdp.Mcs.Per.{write_length}
use ferropipe_rdp.Outcome.{slice_to_left, slice_from_right, slice_from, ok}
use ferropipe_rdp.Mcs.Per.Lengths.{read_length-octets, write_length-octets}

same_bytes-length : (xs ys : Bytes) → same_bytes xs ys ≡ true → length xs ≡ length ys
same_bytes-length [] [] h = refl
same_bytes-length [] (y ∷ ys) h = absurd (ground arith)
same_bytes-length (x ∷ xs) [] h = absurd (ground arith)
same_bytes-length (x ∷ xs) (y ∷ ys) h = ground (arith, same_bytes-length xs ys)

-- The window at the front.
abbrev at_key : Bytes → Bool
at_key xs = same_bytes (take 4 xs) h221_server_key

at_key-length : (xs : Bytes) → at_key xs ≡ true → 4 ≤ length xs
at_key-length xs h =
    omega (arith, same_bytes-length (take 4 xs) h221_server_key h, length-take 4 xs)

at_key-append : (xs ys : Bytes) → 4 ≤ length xs → at_key (xs ++ ys) ≡ at_key xs
at_key-append xs ys h = ap (λ t. same_bytes t h221_server_key) (take_within 4 xs ys h)

-- A window lies in the bytes.
abbrev pub IsWithin : Bytes → Option ℕ → Type 0
IsWithin xs none = Unit
IsWithin xs (some i) = i + 4 ≤ length xs

IsWithin-suc :
    (b : ℕ) (bs : Bytes) (o : Option ℕ) → IsWithin bs o → IsWithin (b ∷ bs) (Option.map suc o)
IsWithin-suc b bs none h = tt
IsWithin-suc b bs (some i) h = omega (arith, h)

pub find_key-IsWithin : (xs : Bytes) → IsWithin xs (find_key xs)
unfolding find_key
find_key-IsWithin [] = tt
find_key-IsWithin (b ∷ bs) = elim (Bool-cases (at_key (b ∷ bs))) [
  | inl e ↦ rw (e, find_key) (at_key-length (b ∷ bs) e)
  | inr e ↦ rw (e, find_key) (IsWithin-suc b bs (find_key bs) (find_key-IsWithin bs))
]

-- More bytes behind a window that was found change nothing.
abbrev IsFoundIn : Option ℕ → Option ℕ → Type 0
IsFoundIn none later = Unit
IsFoundIn (some i) later = later ≡ some i

IsFoundIn-suc :
    (b : ℕ) (bs ys : Bytes) (o later : Option ℕ)
    → at_key (b ∷ bs) ≡ false
    → IsWithin bs o
    → IsFoundIn o later
    → IsFoundIn
        (Option.map suc o)
        (if at_key (b ∷ (bs ++ ys)) then some 0 else Option.map suc later)
IsFoundIn-suc b bs ys none later e h f = tt
IsFoundIn-suc b bs ys (some i) later e h f =
    rw (at_key-append (b ∷ bs) ys (omega (arith, h)) ∙ e, f) refl

find_key-append : (xs ys : Bytes) → IsFoundIn (find_key xs) (find_key (xs ++ ys))
unfolding find_key
find_key-append [] ys = tt
find_key-append (b ∷ bs) ys = elim (Bool-cases (at_key (b ∷ bs))) [
  | inl e ↦ rw (e, at_key-append (b ∷ bs) ys (at_key-length (b ∷ bs) e) ∙ e, find_key) refl
  | inr e ↦
      rw (e, find_key)
        (IsFoundIn-suc b bs ys (find_key bs) (find_key (bs ++ ys)) e (find_key-IsWithin bs)
          (find_key-append bs ys))
]

pub find_key-first :
    (prefix rest : Bytes)
    → find_key (prefix ++ h221_server_key) ≡ some (length prefix)
    → find_key (prefix ++ (h221_server_key ++ rest)) ≡ some (length prefix)
find_key-first prefix rest h =
    ap find_key (sym (append_assoc prefix h221_server_key rest))
    ∙ subst (λ o. IsFoundIn o (find_key ((prefix ++ h221_server_key) ++ rest))) h
        (find_key-append (prefix ++ h221_server_key) rest)

pub parse_response-sent_list :
    (prefix blocks rest : Bytes)
    → find_key (prefix ++ h221_server_key) ≡ some (length prefix)
    → length blocks < 0x4000
    → parse_conference_create_response list_bytes (
        prefix
        ++ (h221_server_key ++ (write_length list_bytes [] (length blocks) ++ (blocks ++ rest))))
      ≡ ok blocks
unfolding parse_conference_create_response
parse_response-sent_list prefix blocks rest hk hb =
    let behind = write_length list_bytes [] (length blocks) ++ (blocks ++ rest) in
    let from_key =
      ap (λ b. slice_from b (length prefix + 4)) (sym (append_assoc prefix h221_server_key behind))
      ∙ slice_from_right (prefix ++ h221_server_key) behind (length prefix + 4)
          (omega (arith, length-append prefix h221_server_key)) in
    rw
      (
        find_key-first prefix behind hk,
        from_key,
        write_length-octets [] (length blocks),
        read_length-octets (length blocks) (blocks ++ rest) hb,
        slice_to_left blocks rest (length blocks) refl,
        length-append blocks rest,
      )
      (ground arith)
