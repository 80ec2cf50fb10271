-- ===== src/User/Uses.antt =====
-- software/user/liblitepcie/litepcie_dma.c: `litepcie_dma_process` leaves it to the program which
-- engines it uses.
use litepcie_ptm_test.Base.{
  ℕ, Bool, true, false, ◌≡◌, refl, Option, some, none, if◌then◌else◌, ◌∙◌, Bool-cases, inl, inr,
  bit_and, subst,
}
use litepcie_ptm_test.Bus.{Hw}
use litepcie_ptm_test.File.{pollin, pollout}
use litepcie_ptm_test.File.Request.{Build, Session, nonzero}
use litepcie_ptm_test.User.{
  DmaCtrl, Polled, timeout, events, ◌>>=◌, dma_writer, dma_reader, poll_writer, poll_reader,
  read_event, write_event, process,
}

abbrev pub SameUse : DmaCtrl → DmaCtrl → Type 0
SameUse c c' = (c'.use_reader ≡ c.use_reader) × (c'.use_writer ≡ c.use_writer)

-- A step that returns keeps the two flags.
abbrev Keeps : DmaCtrl → Option (DmaCtrl × Session) → Type 0
Keeps c none = Unit
Keeps c (some r) = SameUse c r.0

Keeps-bind :
    (c : DmaCtrl) (m : Option (DmaCtrl × Session))
    (f : DmaCtrl × Session → Option (DmaCtrl × Session))
    → Keeps c m
    → ((r : DmaCtrl × Session) → Keeps (r.0) (f r))
    → Keeps c (m >>= f)
Keeps-bind c none f h k = tt
Keeps-bind c (some r) f h k = go (f r) (k r)
  where
    go : (o : Option (DmaCtrl × Session)) → Keeps (r.0) o → Keeps c o
    go none h' = tt
    go (some q) h' = (h'.0 ∙ h.0, h'.1 ∙ h.1)

-- A call of the driver whose result goes into the control block.
Keeps-call {ℓ} :
    {A : Type ℓ} (c : DmaCtrl) (m : Option A) (f : A → DmaCtrl × Session)
    → ((a : A) → SameUse c (f a).0)
    → Keeps c (m >>= λ a. some (f a))
Keeps-call c none f h = tt
Keeps-call c (some a) f h = h a

module _ (hw : Hw) (b : Build) where
  Keeps-poll_writer : (c : DmaCtrl) (s : Session) → Keeps c (poll_writer hw b c s)
  unfolding poll_writer
  Keeps-poll_writer c s = elim (Bool-cases (nonzero c.use_writer)) [
    | inl on ↦ rw on (Keeps-call c (dma_writer hw b 1 s) _ (λ a. (refl, refl)))
    | inr off ↦ rw off (refl, refl)
  ]

  Keeps-poll_reader : (c : DmaCtrl) (s : Session) → Keeps c (poll_reader hw b c s)
  unfolding poll_reader
  Keeps-poll_reader c s = elim (Bool-cases (nonzero c.use_reader)) [
    | inl on ↦ rw on (Keeps-call c (dma_reader hw b 1 s) _ (λ a. (refl, refl)))
    | inr off ↦ rw off (refl, refl)
  ]

  Keeps-read_event :
      (len : Option ℕ) (c : DmaCtrl) (s : Session) → Keeps c (read_event hw b len c s)
  unfolding read_event
  Keeps-read_event len c s = elim (Bool-cases (nonzero c.zero_copy)) [
    | inl maps ↦ rw maps (Keeps-call c _ _ (λ a. (refl, refl)))
    | inr copies ↦ rw copies (Keeps-call c len _ (λ a. (refl, refl)))
  ]

  Keeps-write_event :
      (len : Option ℕ) (c : DmaCtrl) (s : Session) → Keeps c (write_event hw b len c s)
  unfolding write_event
  Keeps-write_event len c s = elim (Bool-cases (nonzero c.zero_copy)) [
    | inl maps ↦ rw maps (Keeps-call c _ _ (λ a. (refl, refl)))
    | inr copies ↦ rw copies (Keeps-call c len _ (λ a. (refl, refl)))
  ]

  Keeps-if :
      (t : Bool) (c : DmaCtrl) (m m' : Option (DmaCtrl × Session))
      → Keeps c m
      → Keeps c m'
      → Keeps c (if t then m else m')
  Keeps-if true c m m' h h' = h
  Keeps-if false c m m' h h' = h'

  Keeps-process :
      (polled : Polled) (read_len write_len : Option ℕ) (c : DmaCtrl) (s : Session)
      → Keeps c (process hw b polled read_len write_len c s)
  unfolding process
  Keeps-process timeout read_len write_len c s =
      Keeps-bind c _ _ (Keeps-poll_writer c s)
        (λ r. Keeps-bind (r.0) _ _ (Keeps-poll_reader (r.0) (r.1)) (λ q. (refl, refl)))
  Keeps-process (events revents) read_len write_len c s =
      Keeps-bind c _ _ (Keeps-poll_writer c s) (λ r.
        Keeps-bind (r.0) _ _ (Keeps-poll_reader (r.0) (r.1)) (λ q.
          Keeps-bind (q.0) _ _
            (Keeps-if (nonzero (bit_and revents pollin)) (q.0) _ _
              (Keeps-read_event read_len (q.0) (q.1)) (refl, refl))
            (λ u.
              Keeps-if (nonzero (bit_and revents pollout)) (u.0) _ _
                (Keeps-write_event write_len (u.0) (u.1)) (refl, refl))))

  -- `litepcie_dma_process` changes neither `use_reader` nor `use_writer`.
  pub process-SameUse :
      (polled : Polled) (read_len write_len : Option ℕ) (c c' : DmaCtrl) (s s' : Session)
      → process hw b polled read_len write_len c s ≡ some (c', s')
      → SameUse c c'
  process-SameUse polled read_len write_len c c' s s' e =
      subst (λ o. Keeps c o) e (Keeps-process polled read_len write_len c s)
