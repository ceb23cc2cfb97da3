-- ===== src/Connection/Keeps.antt =====
-- connection.rs: calls that keep to the sequence, and how they are put together.
use ferropipe_rdp.Wire.{ByteOps}
use ferropipe_rdp.Transport.{PduTransport, Run, after, give, ◌>>=◌, ◌>>◌}
use ferropipe_rdp.Connection.Phases.{one_more, Phase, Sends, Sequence, Logged, logged, relog}
use ferropipe_rdp.Connection.{SessionConfig}
use ferropipe_rdp.Common.{refl, sym, [], ◌∷◌, subst, ◌≡◌, ◌≡◌, ◌++◌, List, Bytes}
use ferropipe_rdp.Outcome.{panic, err, ok, Result}

module _ (B : ByteOps) (cfg : SessionConfig) (T : Type 0) where
  -- Where a call leaves the log: in the phase of its value, or in some phase where it failed.
  abbrev pub IsLeft : {A : Type 0} → (A → Phase) → Logged T × Result A → Type 0
  IsLeft q (s, ok a) = Sequence B cfg s.log (q a)
  IsLeft q (s, err e) = (p : Phase) × Sequence B cfg s.log p
  IsLeft q (s, panic) = (p : Phase) × Sequence B cfg s.log p

  abbrev pub KeepsTo : {A : Type 0} → Phase → Run (Logged T) A → (A → Phase) → Type 0
  KeepsTo p call q = (s : Logged T) → Sequence B cfg s.log p → IsLeft q (call s)

module _ {B : ByteOps} {cfg : SessionConfig} {T : Type 0} where
  pub after-IsLeft :
      {A C : Type 0} (r : Logged T × Result A) (next : A → Run (Logged T) C) (q : A → Phase)
      (q' : C → Phase)
      → IsLeft B cfg T q r
      → ((a : A) → KeepsTo B cfg T (q a) (next a) q')
      → IsLeft B cfg T q' (after r next)
  after-IsLeft (s, ok a) next q q' h k = k a s h
  after-IsLeft (s, err e) next q q' h k = h
  after-IsLeft (s, panic) next q q' h k = h

  pub KeepsTo-bind :
      {A C : Type 0} (p : Phase) (call : Run (Logged T) A) (next : A → Run (Logged T) C)
      (q : A → Phase) (q' : C → Phase)
      → KeepsTo B cfg T p call q
      → ((a : A) → KeepsTo B cfg T (q a) (next a) q')
      → KeepsTo B cfg T p (call >>= next) q'
  KeepsTo-bind p call next q q' h k = λ s t. after-IsLeft (call s) next q q' (h s t) k

  -- A result needs no PDU.
  pub KeepsTo-give :
      {A : Type 0} (p : Phase) (r : Result A) (q : A → Phase)
      → ((a : A) → q a ≡ p)
      → KeepsTo B cfg T p (give r) q
  KeepsTo-give p (ok a) q h = λ s t. subst (Sequence B cfg s.log) (sym (h a)) t
  KeepsTo-give p (err e) q h = λ s t. (p, t)
  KeepsTo-give p panic q h = λ s t. (p, t)

  sent-IsLeft :
      (p q : Phase) (log : List Bytes) (r : T × Result (Unit {0}))
      → Sequence B cfg log q
      → IsLeft B cfg T (λ _. q) (relog log r)
  sent-IsLeft p q log (t, ok u) h = h
  sent-IsLeft p q log (t, err e) h = (q, h)
  sent-IsLeft p q log (t, panic) h = (q, h)

  received-IsLeft :
      (p : Phase) (log : List Bytes) (r : T × Result Bytes)
      → Sequence B cfg log p
      → IsLeft B cfg T (λ _. p) (relog log r)
  received-IsLeft p log (t, ok u) h = h
  received-IsLeft p log (t, err e) h = (p, h)
  received-IsLeft p log (t, panic) h = (p, h)

module _ {B : ByteOps} {cfg : SessionConfig} {T : Type 0} (X : PduTransport T) where
  pub KeepsTo-send :
      (p q : Phase) (pdu : Bytes)
      → Sends B cfg p pdu q
      → KeepsTo B cfg T p ((logged X).send pdu) (λ _. q)
  KeepsTo-send p q pdu h =
      λ s t. sent-IsLeft p q (s.log ++ (pdu ∷ [])) (X.send pdu s.state) (one_more s.log pdu p q t h)

  pub KeepsTo-recv : (p : Phase) → KeepsTo B cfg T p (logged X).recv (λ _. p)
  KeepsTo-recv p = λ s t. received-IsLeft p s.log (X.recv s.state) t

  -- A request, and the rest of the call.
  pub KeepsTo-send_then :
      {C : Type 0} (p q : Phase) (pdu : Bytes) (rest : Run (Logged T) C) (q' : C → Phase)
      → Sends B cfg p pdu q
      → KeepsTo B cfg T q rest q'
      → KeepsTo B cfg T p ((logged X).send pdu >> rest) q'
  KeepsTo-send_then p q pdu rest q' h k =
      KeepsTo-bind p ((logged X).send pdu) (λ _. rest) (λ _. q) q' (KeepsTo-send p q pdu h) (λ _. k)

  -- An answer that is parsed, and the rest of the call.
  pub KeepsTo-answer :
      {A C : Type 0} (p : Phase) (parse : Bytes → Result A) (next : A → Run (Logged T) C)
      (q' : C → Phase)
      → ((a : A) → KeepsTo B cfg T p (next a) q')
      → KeepsTo B cfg T p ((logged X).recv >>= λ buf. give (parse buf) >>= next) q'
  KeepsTo-answer p parse next q' k =
      KeepsTo-bind p (logged X).recv (λ buf. give (parse buf) >>= next) (λ _. p) q' (KeepsTo-recv p)
        (λ buf.
          KeepsTo-bind p (give (parse buf)) next (λ _. p) q'
            (KeepsTo-give p (parse buf) (λ _. p) (λ a. refl)) k)
