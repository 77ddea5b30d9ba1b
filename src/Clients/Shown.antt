-- ===== src/Clients/Shown.antt =====
-- What reader.cpp prints of the messages of writer.cpp.
use tyndall.Base.{
  ℕ, suc, ◌-◌, ◌%◌, ◌^◌, ◌<◌, ◌≤◌, ltb, Bool, if◌then◌else◌, some, List, [], ◌∷◌, length, ◌≡◌,
}
use tyndall.Meta.Strval.Decimal.{ToString}
use tyndall.Ipc.Id.{id_prepare}
use tyndall.Ipc.Bus.{Platform}
use tyndall.Ipc.Bus.Opens.{Opens}
use tyndall.Ipc.Bus.Contract.{Board, last_message}
use tyndall.Clients.{MyStruct, Shown, repeat, my_struct_zero, topic, Turn, writer_turn, reader_turn}

-- An entry all of whose counters are `k`.
abbrev pub counted : ℕ → MyStruct
counted k = repeat 50 (record {
  ii = k % 2 ^ 32;
  c = 0;
  p1 = repeat 23 0;
  iii = k % 2 ^ 32;
  p2 = repeat 54 0;
  iiii = k % 2 ^ 32;
})

-- Such an entry, and what is printed of it.
abbrev pub shown_as : ℕ → Shown
shown_as k = (counted k, some (k % 2 ^ 32, k % 2 ^ 32, k % 2 ^ 32))

-- The numbers grow, and are between the bounds.
abbrev pub Increasing : (from below : ℕ) → List ℕ → Type 0
Increasing from below [] = Unit
Increasing from below (k ∷ ks) = (from ≤ k) × (k < below) × Increasing (suc k) below ks

abbrev pub count_turns : List Turn → ℕ
count_turns [] = 0
count_turns (writer_turn ∷ turns) = suc (count_turns turns)
count_turns (reader_turn ∷ turns) = count_turns turns

-- The numbers of the entries that are new to the reader when it reads: it prints the last one there is.
abbrev pub shown_numbers : List Turn → (written seen : ℕ) → List ℕ
shown_numbers [] written seen = []
shown_numbers (writer_turn ∷ turns) written seen = shown_numbers turns (suc written) seen
shown_numbers (reader_turn ∷ turns) written seen =
    let later = shown_numbers turns written written in
    if ltb seen written then (written - 1) ∷ later else later

module _ {W : Type 0} (platform : Platform W) (signed : Bool) (std : ToString) where
  -- The writer has written `k` entries, and the reader has seen `s` of them.
  record At (b : Board MyStruct) (k s : ℕ) : Type 0 where
    count : length (b.messages (id_prepare signed topic)) ≡ k
    last : last_message my_struct_zero (b.messages (id_prepare signed topic)) ≡ counted (k - 1)
    seen : b.seen_static 1 topic ≡ s
    behind : s ≤ k
