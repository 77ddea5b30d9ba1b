-- ===== src/Tools/IpcRead/Main/Guarded.antt =====
-- What ipc_read copies while others write.
use tyndall.Base.{
  ◌∙◌, sym, subst, ℕ, zero, suc, ◌+◌, ◌<◌, ◌≤◌, true, false, ◌==◌, ==→eq, Bool-cases, inl, inr,
  Option, some, bind-eq-some, Bytes, [], ◌∷◌, get_or, ◌≡◌, refl, arith,
}
use tyndall.Ipc.SeqLock.{is_odd, seq_lock_read_retry}
use tyndall.Tools.IpcRead.Main.{cacheline_bytes, ipc_seq, read_begin, copy_bytes, copy_buf}

-- The bytes of an image from `at` on.
abbrev pub payload : (size at : ℕ) → Bytes → Bytes
payload zero at image = []
payload (suc size) at image = get_or image at 0 ∷ payload size (suc at) image

module _ (memory : ℕ → Bytes) where
  -- From the access `from` on, while the number is one and the same even number, the bytes behind the
  -- first cache line do not change.
  abbrev pub IsGuarded : ℕ → Type 0
  IsGuarded from =
      (t1 t t2 : ℕ)
      → from ≤ t1
      → t1 ≤ t
      → t ≤ t2
      → ipc_seq (memory t2) ≡ ipc_seq (memory t1)
      → is_odd (ipc_seq (memory t1)) ≡ false
      → (i : ℕ) → cacheline_bytes ≤ i
      → get_or (memory t) i 0 ≡ get_or (memory t1) i 0

  read_begin_even :
      (fuel t seq1 t1 : ℕ)
      → read_begin memory fuel t ≡ some (seq1, t1)
      → (start : ℕ) × (t ≤ start)
        × (t1 ≡ suc start)
        × (ipc_seq (memory start) ≡ seq1)
        × (is_odd (ipc_seq (memory start)) ≡ false)
  unfolding read_begin
  read_begin_even zero t seq1 t1 e = absurd (cc e)
  read_begin_even (suc fuel) t seq1 t1 e = elim (Bool-cases (is_odd (ipc_seq (memory t)))) [
    | inl odd ↦
        let (start, later, next, found, even) =
          read_begin_even fuel (suc t) seq1 t1 (rw (odd) at e) in
        (start, omega arith, next, found, even)
    | inr even ↦
        let e' : some (ipc_seq (memory t), suc t) ≡ some (seq1, t1) = rw (even) at e in
        let found : ipc_seq (memory t) ≡ seq1 = cc in
        let next : suc t ≡ t1 = cc in (t, omega arith, sym next, found, even)
  ]

  copy_guarded :
      (size at t start end from : ℕ)
      → IsGuarded from
      → from ≤ start
      → cacheline_bytes ≤ at
      → start ≤ t
      → t + size ≤ end
      → ipc_seq (memory end) ≡ ipc_seq (memory start)
      → is_odd (ipc_seq (memory start)) ≡ false
      → copy_bytes memory size at t ≡ payload size at (memory start)
  unfolding copy_bytes
  copy_guarded zero at t start end from guarded since h le within same even = refl
  copy_guarded (suc size) at t start end from guarded since h le within same even = rw (
    guarded start t end since le (omega arith) same even at h,
    copy_guarded size (suc at) (suc t) start end from guarded since (omega arith) (omega arith)
        (omega arith) same even,
  )

  abbrev ended_with : ℕ → Bytes → ℕ → Option (ℕ × Bytes × ℕ)
  ended_with seq1 copied t = some (seq1, copied, t)

  some_inj :
      {n n' t t' : ℕ} {bytes bytes' : Bytes}
      → ended_with n bytes t ≡ ended_with n' bytes' t'
      → (n ≡ n') × (bytes ≡ bytes') × (t ≡ t')
  some_inj e = (cc, cc, cc)

  -- The last round of the loop.
  last_round :
      (size seq1 seq2 t1 start t' from : ℕ) (copied : Bytes)
      → IsGuarded from
      → from ≤ start
      → t1 ≡ suc start
      → ipc_seq (memory start) ≡ seq2
      → is_odd (ipc_seq (memory start)) ≡ false
      → (ipc_seq (memory (t1 + size)) == seq2) ≡ true
      → ended_with seq2 (copy_bytes memory size cacheline_bytes t1) (suc (t1 + size))
        ≡ ended_with seq1 copied t'
      → (start < t')
        × (ipc_seq (memory start) ≡ seq1)
        × (is_odd seq1 ≡ false)
        × (copied ≡ payload size cacheline_bytes (memory start))
  last_round size seq1 seq2 t1 start t' from copied guarded since next found even same e =
      let (number, bytes, ended) = some_inj e in
      (
        omega arith,
        found ∙ number,
        subst (λ n. is_odd n ≡ false) (found ∙ number) even,
        sym bytes
            ∙ copy_guarded size cacheline_bytes t1 start (t1 + size) from guarded since
                (omega arith) (omega arith) (omega arith) (==→eq _ _ same ∙ sym found) even,
      )

  -- In a memory that is guarded from an access on, what a loop of ipc_read that begins no earlier has
  -- copied when it ends is what stood behind the first cache line at one moment since it began, and at
  -- that moment the number was the one that it reports, and no write was in progress.
  pub copy_buf-payload :
      (fuel size t seq1 t' from : ℕ) (copied : Bytes)
      → IsGuarded from
      → from ≤ t
      → copy_buf memory fuel size t ≡ some (seq1, copied, t')
      → (moment : ℕ) × (t ≤ moment)
        × (moment < t')
        × (ipc_seq (memory moment) ≡ seq1)
        × (is_odd seq1 ≡ false)
        × (copied ≡ payload size cacheline_bytes (memory moment))
  unfolding copy_buf seq_lock_read_retry
  copy_buf-payload zero size t seq1 t' from copied guarded since e = absurd (cc e)
  copy_buf-payload (suc fuel) size t seq1 t' from copied guarded since e =
      let ((seq2, t1), begun, e') = bind-eq-some (read_begin memory (suc fuel) t) _ e in
      let (start, later, next, found, even) = read_begin_even (suc fuel) t seq2 t1 begun in
      elim (Bool-cases (ipc_seq (memory (t1 + size)) == seq2)) [
        | inl same ↦
            let (before, number, unlocked, bytes) =
              last_round size seq1 seq2 t1 start t' from copied guarded (omega arith) next found
                even same (rw (same) at e') in
            (start, later, before, number, unlocked, bytes)
        | inr differs ↦
            let (moment, after, before, number, unlocked, bytes) =
              copy_buf-payload fuel size (suc (t1 + size)) seq1 t' from copied guarded (omega arith)
                (rw (differs) at e') in
            (moment, omega arith, before, number, unlocked, bytes)
      ]
