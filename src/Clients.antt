-- ===== src/Clients.antt =====
-- examples/ipc: my_struct.h, and the programs writer.cpp and reader.cpp, which share a topic.
pub mod Programs
pub mod Shown
mod Examples
use tyndall.Base.{
  ℕ, zero, suc, ◌+◌, ◌%◌, ◌^◌, Bool, Option, none, some, bind, Bytes, codes, List, [], ◌∷◌, ◌++◌,
}
use tyndall.Meta.Strval.Decimal.{ToString}
use tyndall.Ipc.SeqLock.{Rc, success, enomsg, eagain}
use tyndall.Ipc.Bus.{Platform, World, ipc_lazy_write, ipc_lazy_read}

-- An entry of `data`; an int is its 32 bits, a char array its bytes.
pub record Data : Type 0 where
  pub ii : ℕ
  pub c : ℕ
  pub p1 : Bytes
  pub iii : ℕ
  pub p2 : Bytes
  pub iiii : ℕ

-- `data[50]`
abbrev pub MyStruct : Type 0
MyStruct = List Data

abbrev pub increment : ℕ → ℕ
increment n = (n + 1) % 2 ^ 32

unfoldable pub my_struct_inc : MyStruct → MyStruct
my_struct_inc [] = []
my_struct_inc (d ∷ entry) =
    record d { ii = increment d.ii; iii = increment d.iii; iiii = increment d.iiii }
    ∷ my_struct_inc entry

abbrev pub repeat {ℓ} : {A : Type ℓ} → ℕ → A → List A
repeat zero a = []
repeat (suc n) a = a ∷ repeat n a

-- `my_struct entry = {}`
abbrev pub my_struct_zero : MyStruct
my_struct_zero =
    repeat 50 (record { ii = 0; c = 0; p1 = repeat 23 0; iii = 0; p2 = repeat 54 0; iiii = 0 })

abbrev pub topic : Bytes
topic = codes "/my/topic"

-- A round of the loop of one of the programs.
pub data Turn : Type 0 where
  writer_turn : Turn
  reader_turn : Turn

-- `my_struct_print`: the values that it prints, of the first element of `data`.
abbrev pub my_struct_print : MyStruct → Option (ℕ × ℕ × ℕ)
my_struct_print [] = none
my_struct_print (d ∷ entry) = some (d.ii, d.iii, d.iiii)

-- An entry that the reader is handed, and the values that it prints of it.
abbrev pub Shown : Type 0
Shown = MyStruct × Option (ℕ × ℕ × ℕ)

-- The reader's branches behind `ipc_read`, with DEBUG. The other one prints to stderr that there is no entry.
abbrev pub new_entry : Rc → MyStruct → List Shown
new_entry success entry = (entry, my_struct_print entry) ∷ []
new_entry enomsg entry = []
new_entry eagain entry = []

-- The writer is process 0, and the reader process 1.
module _ {W : Type 0} (platform : Platform W) (signed : Bool) (std : ToString) where
  unfoldable pub writer_round : MyStruct → World MyStruct W → Option (MyStruct × World MyStruct W)
  writer_round entry w =
      bind (ipc_lazy_write platform signed std 0 topic entry w)
        (λ w'. some (my_struct_inc entry, w'))

  unfoldable pub reader_round : ℕ → World MyStruct W → Option (List Shown × World MyStruct W)
  reader_round fuel w =
      bind (ipc_lazy_read platform signed std fuel 1 topic w)
        (λ ((rc, entry), w'). some (new_entry rc entry, w'))

  -- The rounds of both until they are interrupted: the new entries of the reader.
  unfoldable pub run_programs : ℕ → List Turn → MyStruct → World MyStruct W → Option (List Shown)
  run_programs fuel [] entry w = some []
  run_programs fuel (writer_turn ∷ turns) entry w =
      bind (writer_round entry w) (λ (entry', w'). run_programs fuel turns entry' w')
  run_programs fuel (reader_turn ∷ turns) entry w =
      bind (reader_round fuel w)
        (λ (shown, w'). bind (run_programs fuel turns entry w') (λ rest. some (shown ++ rest)))
