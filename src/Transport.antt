-- ===== src/Transport.antt =====
-- connection.rs: `PduTransport`, and the calls that are made over one. The transport is what the
-- caller brings: its state is a parameter, and a call takes it and gives it back with the result,
-- also where the call fails.
use ferropipe_rdp.Common.{Bytes}
use ferropipe_rdp.Outcome.{Result, ok, err, panic}

-- A call over a transport with the state `T`.
abbrev pub Run : Type 0 → Type 0 → Type 0
Run T A = T → T × Result A

pub record PduTransport (T : Type 0) : Type 0 where
  pub send : Bytes → Run T (Unit {0})
  pub recv : Run T Bytes

module _ {T A C : Type 0} where
  -- `?`: an error or a panic ends the function.
  abbrev pub after : T × Result A → (A → Run T C) → T × Result C
  after (t, ok a) next = next a t
  after (t, err e) next = (t, err e)
  after (t, panic) next = (t, panic)

infixl 5 ◌>>=◌ ◌>>◌
abbrev pub ◌>>=◌ : {T A C : Type 0} → Run T A → (A → Run T C) → Run T C
call >>= next = λ t. after (call t) next

abbrev pub ◌>>◌ : {T A C : Type 0} → Run T A → Run T C → Run T C
first >> second = first >>= λ _. second

-- A result that needs no transport.
abbrev pub give : {T A : Type 0} → Result A → Run T A
give r = λ t. (t, r)
