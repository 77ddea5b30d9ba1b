-- ===== src/Tools/IpcRead/Main/Settled.antt =====
-- ipc_read copies a message once the memory is left alone for long enough.
use tyndall.Base.{
  ◌∙◌, sym, subst, ◌/◌, ℕ, zero, suc, ◌+◌, ◌<◌, ◌≤◌, false, ◌==◌, eq→==, Bool-cases, inl, inr, some,
  Bytes, ◌≡◌, refl, arith,
}
use tyndall.Ipc.SeqLock.{is_odd, seq_lock_read_retry}
use tyndall.Tools.IpcRead.Main.{cacheline_bytes, ipc_seq, read_begin, copy_bytes, copy_buf}
use tyndall.Tools.IpcRead.Main.Guarded.{payload, copy_buf-payload}
use tyndall.Tools.IpcRead.Main.Observed.{Observed, IsShort, Observed-IsGuarded, last_write}
use tyndall.Ipc.SeqLock.Protocol.Invariant.{Same}

module _ (memory : ℕ → Bytes) where
  -- From the access `settled` on the number is one even number.
  abbrev pub IsSettled : ℕ → Type 0
  IsSettled settled =
      (t : ℕ)
      → settled ≤ t
      → (ipc_seq (memory t) ≡ ipc_seq (memory settled)) × (is_odd (ipc_seq (memory t)) ≡ false)

  read_begin_returns :
      (fuel t settled : ℕ)
      → IsSettled settled
      → settled ≤ t + fuel
      → (start : ℕ) × (t ≤ start)
        × (read_begin memory (suc fuel) t ≡ some (ipc_seq (memory start), suc start))
  unfolding read_begin
  read_begin_returns zero t settled still enough =
      let even = (still t (omega arith)).1 in (t, omega arith, rw (even) refl)
  read_begin_returns (suc fuel) t settled still enough =
      elim (Bool-cases (is_odd (ipc_seq (memory t)))) [
        | inl odd ↦
            let (start, later, begun) =
              read_begin_returns fuel (suc t) settled still (omega arith) in
            (start, omega arith, rw (odd) begun)
        | inr even ↦ (t, omega arith, rw (even) refl)
      ]

  copy_buf_returns :
      (fuel size t settled : ℕ)
      → IsSettled settled
      → settled ≤ t + fuel
      → (seq1 : ℕ) × (copied : Bytes) × (t' : ℕ) × (copy_buf memory (suc fuel) size t
          ≡ some (seq1, copied, t'))
  unfolding copy_buf seq_lock_read_retry
  copy_buf_returns zero size t settled still enough =
      let (start, later, begun) = read_begin_returns zero t settled still enough in
      let same : ipc_seq (memory (suc start + size)) ≡ ipc_seq (memory start) =
        (still (suc start + size) (omega arith)).0 ∙ sym (still start (omega arith)).0 in
      (
        ipc_seq (memory start),
        copy_bytes memory size cacheline_bytes (suc start),
        suc (suc start + size),
        rw (begun, eq→== (ipc_seq (memory (suc start + size))) (ipc_seq (memory start)) same) refl,
      )
  copy_buf_returns (suc fuel) size t settled still enough =
      let (start, later, begun) = read_begin_returns (suc fuel) t settled still enough in
      elim (Bool-cases (ipc_seq (memory (suc start + size)) == ipc_seq (memory start))) [
        | inl same ↦ (
          ipc_seq (memory start),
          copy_bytes memory size cacheline_bytes (suc start),
          suc (suc start + size),
          rw (begun, same) refl,
        )
        | inr other ↦
            let (seq1, copied, t', ends) =
              copy_buf_returns fuel size (suc (suc start + size)) settled still (omega arith) in
            (seq1, copied, t', rw (begun, other) ends)
      ]

  -- Let ipc_read look at a lock that a writer and any number of readers use by the protocol of seq_lock.h,
  -- and let the number be one even number from some access on, with fewer than 2 ^ 32 stores to it from
  -- the beginning of the loop on. Then the loop ends within as many rounds as there are accesses up to that
  -- one, and what it has copied stood behind the first cache line at one moment since it began; at that
  -- moment the number was the one that it reports, and the entry was that of the last complete write.
  pub copy_buf-payload_settled :
      (n fuel size t settled : ℕ) (o : Observed n memory)
      → IsShort o t
      → IsSettled settled
      → settled ≤ t + fuel
      → (seq1 : ℕ) × (copied : Bytes) × (t' : ℕ) × (copy_buf memory (suc fuel) size t
          ≡ some (seq1, copied, t'))
        × (moment : ℕ) × (t ≤ moment)
        × (moment < t')
        × (ipc_seq (memory moment) ≡ seq1)
        × (copied ≡ payload size cacheline_bytes (memory moment))
        × Same n (o.run moment).words ((o.run moment).history ((o.run moment).count / 2))
  copy_buf-payload_settled n fuel size t settled o few still enough =
      let (seq1, copied, t', ends) = copy_buf_returns fuel size t settled still enough in
      let (moment, later, before, number, unlocked, bytes) =
        copy_buf-payload memory (suc fuel) size t seq1 t' t copied (Observed-IsGuarded o t few)
          (omega arith) ends in
      (
        seq1,
        copied,
        t',
        ends,
        moment,
        later,
        before,
        number,
        bytes,
        last_write o moment (subst (λ k. is_odd k ≡ false) (sym number) unlocked),
      )
