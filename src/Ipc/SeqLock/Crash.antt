-- ===== src/Ipc/SeqLock/Crash.antt =====
-- seq_lock.h after a writer that died between `seq_lock_write_begin` and `seq_lock_write_end`: the
-- shared memory outlives it, and the next writer goes on from an odd number.
use tyndall.Base.{ℕ, zero, suc, true, false, none, some, ◌≡◌, refl, arith, List, [], ◌∷◌}
use tyndall.Ipc.SeqLock.{
  SeqLock, ReadState, Rc, is_odd, seq_lock_write_begin, seq_lock_write_end, seq_lock_read_begin,
  write, read_loop, read_conclude, read,
}
use tyndall.Ipc.SeqLock.Sequential.{read_loop_even}

read_begin_odd : (fuel : ℕ) (seq : ℕ) → is_odd seq ≡ true → seq_lock_read_begin fuel seq ≡ none
unfolding seq_lock_read_begin
read_begin_odd zero seq h = refl
read_begin_odd (suc fuel) seq h = rw h (read_begin_odd fuel seq h)

module _ {ℓ} {A : Type ℓ} where
  -- A write that stops behind its first store, with `torn` in the entry.
  unfoldable pub interrupted_write : (torn : A) → SeqLock A → SeqLock A
  interrupted_write torn l = record (seq_lock_write_begin l).0 { entry = torn }

  unfoldable pub write_all : List A → SeqLock A → SeqLock A
  write_all [] l = l
  write_all (a ∷ as') l = write_all as' (write a l)

  write-is_odd : (a : A) (l : SeqLock A) → is_odd l.seq ≡ true → is_odd (write a l).seq ≡ true
  unfolding write seq_lock_write_begin seq_lock_write_end
  write-is_odd a l h = ground arith

  interrupted-is_odd :
      (a : A) (l : SeqLock A)
      → ((is_odd l.seq ≡ false) → is_odd (interrupted_write a l).seq ≡ true)
        × ((is_odd l.seq ≡ true) → is_odd (interrupted_write a l).seq ≡ false)
  unfolding interrupted_write seq_lock_write_begin
  interrupted-is_odd a l = (λ h. ground arith, λ h. ground arith)

  entry-interrupted : (a : A) (l : SeqLock A) → (interrupted_write a l).entry ≡ a
  unfolding interrupted_write
  entry-interrupted a l = refl

  write_all-is_odd :
      (as' : List A) (l : SeqLock A) → is_odd l.seq ≡ true → is_odd (write_all as' l).seq ≡ true
  unfolding write_all
  write_all-is_odd [] l h = h
  write_all-is_odd (a ∷ as') l h = write_all-is_odd as' (write a l) (write-is_odd a l h)

  read_odd :
      (fuel : ℕ) (l : SeqLock A) (state : ReadState)
      → is_odd l.seq ≡ true
      → read fuel l state ≡ none
  unfolding read read_loop
  read_odd zero l state h = refl
  read_odd (suc fuel) l state h = rw (read_begin_odd (suc fuel) l.seq h)

  -- If a writer dies in the middle of a write of an unlocked lock, then behind any number of
  -- complete writes by its successors no read returns, however long it waits.
  pub read_after_crash :
      (torn : A) (later : List A) (l : SeqLock A) (fuel : ℕ) (state : ReadState)
      → is_odd l.seq ≡ false
      → read fuel (write_all later (interrupted_write torn l)) state ≡ none
  read_after_crash torn later l fuel state h =
      read_odd fuel _ state (write_all-is_odd later _ ((interrupted-is_odd torn l).0 h))

  -- If a writer dies in the middle of a write of an unlocked lock, then behind any number of
  -- complete writes by its successors, while another write has `half` in the entry, a read returns
  -- `half` as if it were complete.
  pub read_torn_after_crash :
      (torn half : A) (later : List A) (l : SeqLock A) (fuel : ℕ) (state : ReadState)
      → is_odd l.seq ≡ false
      → let crashed = write_all later (interrupted_write torn l) in
        (r : Rc × A × ReadState) × (read (suc fuel) (interrupted_write half crashed) state ≡ some r)
        × (r.1 ≡ half)
  unfolding read
  read_torn_after_crash torn half later l fuel state h =
      let odd = write_all-is_odd later _ ((interrupted-is_odd torn l).0 h) in
      let crashed = write_all later (interrupted_write torn l) in
      let even = (interrupted-is_odd half crashed).1 odd in
      let (rc, state') = read_conclude (interrupted_write half crashed).seq state in
      (
        (rc, (interrupted_write half crashed).entry, state'),
        rw (read_loop_even fuel (interrupted_write half crashed) even),
        entry-interrupted half crashed,
      )
