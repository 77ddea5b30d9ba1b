-- ===== src/Ipc/Bus/Readers.antt =====
-- The readers of all processes, when one of them reads or the messages become more.
use tyndall.Base.{
  ◌∙◌, ap, subst, ℕ, ◌≤◌, ◌==◌, ==→eq, Bool-cases, inl, inr, Option, some, Bytes, ◌≡◌, arith,
}
use tyndall.Meta.Strval.{is_same}
use tyndall.Meta.Strval.Laws.{is_same_iff}
use tyndall.Ipc.SeqLock.{ReadState}
use tyndall.Ipc.SeqLock.Sequential.{Seen}
use tyndall.Ipc.SeqLock.Protocol.{update}
use tyndall.Ipc.Bus.{Process, put}
use tyndall.Ipc.Bus.Contract.{put_for}
use tyndall.Ipc.Bus.Shared.{ReaderOk}

-- A field that the process `p` keeps is that of every process still.
pub field_kept {ℓ} :
    {B : Type ℓ} (field : Process → B) (process : ℕ → Process) (p : ℕ) (me : Process) (q : ℕ)
    → field me ≡ field (process p)
    → field (update process p me q) ≡ field (process q)
field_kept field process p me q kept = elim (Bool-cases (p == q)) [
  | inl e ↦ let same : p ≡ q = ==→eq p q e in rw (e) (kept ∙ ap (λ k. field (process k)) same)
  | inr e ↦ rw (e)
]

pub field_update {ℓ} :
    {B : Type ℓ} (field : Process → B) (process : ℕ → Process) (p : ℕ) (me : Process) (q : ℕ)
    → update (λ k. field (process k)) p (field me) q ≡ field (update process p me q)
field_update field process p me q = elim (Bool-cases (p == q)) [ inl e ↦ rw (e) | inr e ↦ rw (e) ]

-- A reader stays right when there are more messages, and is right behind the last one.
pub ReaderOk-more :
    (held : Option ReadState) (seen written more : ℕ)
    → written ≤ more
    → ReaderOk held seen written
    → ReaderOk held seen more
ReaderOk-more held seen written more le h = record {
  counted = h.counted;
  within = omega (arith, h.within);
}

-- Of the readers of all processes, one reads up to the last message of its topic.
pub ReaderOk-read :
    (held : ℕ → Bytes → Option ReadState) (seen : ℕ → Bytes → ℕ) (length_of : Bytes → ℕ) (p : ℕ)
    (name : Bytes) (held' : Bytes → Option ReadState) (state' : ReadState)
    → Seen state' (length_of name)
    → ((other : Bytes) → held' other ≡ put (held p) name (some state') other)
    → ((q : ℕ) (other : Bytes) → ReaderOk (held q other) (seen q other) (length_of other))
    → (q : ℕ) (other : Bytes)
    → ReaderOk
        (update held p held' q other)
        (put_for seen p name (length_of name) q other)
        (length_of other)
ReaderOk-read held seen length_of p name held' state' seen' stored h q other =
    elim (Bool-cases (p == q)) [
      | inl e ↦ elim (Bool-cases (is_same name other)) [
        | inl e' ↦
            let same : name ≡ other = (is_same_iff name other).0 e' in
            rw (e, stored other, e')
              (subst (λ n. ReaderOk (some state') (length_of name) (length_of n)) same
                (record { counted = seen'; within = omega arith }))
        | inr e' ↦ rw (e, stored other, e') (h p other)
      ]
      | inr e ↦ rw (e) (h q other)
    ]
