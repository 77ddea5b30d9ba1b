-- ===== src/Ipc/SeqLock/Mailbox.antt =====
-- The contract of seq_lock.h for a reader and a writer that take turns: a mailbox with one message.
use tyndall.Base.{
  ℕ, suc, ◌+◌, ◌^◌, ◌<◌, ◌≤◌, Bool, true, false, Option, some, ◌≡◌, refl, arith, List, [], ◌∷◌,
  bind, ltb, if◌then◌else◌,
}
use tyndall.Ipc.SeqLock.{SeqLock, ReadState, Rc, success, enomsg, eagain, init_state, write, read}
use tyndall.Ipc.SeqLock.Sequential.{
  Idle, write-Idle, entry-write, Seen, Seen-init, expected_rc, read-Idle,
}

-- A call on the lock: of the writer with a new entry, or of the reader.
pub data Call {ℓ} (A : Type ℓ) : Type ℓ where
  put : A → Call A
  poll : Call A

expected_rc-mailbox :
    (seen written : ℕ)
    → expected_rc seen written
      ≡ (if ltb seen written then success else if ltb 0 written then eagain else enomsg)
expected_rc-mailbox seen written = ground arith

module _ {ℓ} {A : Type ℓ} where
  -- The calls in turn on the lock: what each poll returns. `none` if one does not return.
  unfoldable pub run_lock : ℕ → List (Call A) → SeqLock A → ReadState → Option (List (Rc × A))
  run_lock fuel [] l state = some []
  run_lock fuel (put a ∷ calls) l state = run_lock fuel calls (write a l) state
  run_lock fuel (poll ∷ calls) l state = bind (read fuel l state) (λ (rc, entry, state').
      bind (run_lock fuel calls l state') (λ rest. some ((rc, entry) ∷ rest)))

  -- The contract: the last message, whether it is unread, and whether there has been one.
  unfoldable pub run_mailbox : List (Call A) → (last : A) (fresh ever : Bool) → List (Rc × A)
  run_mailbox [] last fresh ever = []
  run_mailbox (put a ∷ calls) last fresh ever = run_mailbox calls a true true
  run_mailbox (poll ∷ calls) last fresh ever =
      (if fresh then success else if ever then eagain else enomsg, last)
      ∷ run_mailbox calls last false ever

  unfoldable pub count_puts : List (Call A) → ℕ
  count_puts [] = 0
  count_puts (put a ∷ calls) = suc (count_puts calls)
  count_puts (poll ∷ calls) = count_puts calls

  refines_from :
      (fuel seen written : ℕ) (calls : List (Call A)) (l : SeqLock A) (last : A) (state : ReadState)
      → l.entry ≡ last
      → Idle l written
      → Seen state seen
      → seen ≤ written
      → written + count_puts calls < seen + 2 ^ 31
      → run_lock (suc fuel) calls l state
        ≡ some (run_mailbox calls last (ltb seen written) (ltb 0 written))
  unfolding run_lock run_mailbox count_puts
  refines_from fuel seen written [] l last state e idle h le lt = refl
  refines_from fuel seen written (put a ∷ calls) l last state e idle h le lt =
      let fresh : ltb seen (written + 1) ≡ true = ground arith in
      let ever : ltb 0 (written + 1) ≡ true = ground arith in
      rw (fresh, ever) at
        (refines_from fuel seen (written + 1) calls (write a l) a state (entry-write a l)
          (write-Idle a l written idle) h (omega arith) (omega arith))
  refines_from fuel seen written (poll ∷ calls) l last state e idle h le lt =
      let (state', returned, h') = read-Idle fuel seen written l state idle h le (omega arith) in
      let read_all : ltb written written ≡ false = ground arith in
      rw
        (
          returned,
          rw read_all at (
              refines_from fuel written written calls l last state' e idle h' (omega arith)
                (omega arith)),
        )
        (rw (expected_rc-mailbox seen written, e))

  -- From the creation of the lock (all bytes 0) on, each poll gets what the mailbox gives, as long
  -- as there are fewer than 2 ^ 31 writes: every call returns, and the numbers do not show.
  pub run_lock-run_mailbox :
      (fuel : ℕ) (calls : List (Call A)) (zeroed : A)
      → count_puts calls < 2 ^ 31
      → run_lock (suc fuel) calls (record { seq = 0; entry = zeroed }) init_state
        ≡ some (run_mailbox calls zeroed false false)
  run_lock-run_mailbox fuel calls zeroed few =
      refines_from fuel 0 0 calls _ zeroed init_state refl (record { counted = refl }) Seen-init
        (omega arith) (omega arith)
