-- ===== src/Clients/Programs.antt =====
-- The programs writer.cpp and reader.cpp as a sequence of calls.
use tyndall.Base.{ℕ, Bool, Option, none, some, bind, List, [], ◌∷◌, ◌++◌, ◌≡◌, refl}
use tyndall.Meta.Strval.Decimal.{ToString}
use tyndall.Ipc.SeqLock.{Rc}
use tyndall.Ipc.Bus.{Platform, World, ipc_lazy_write, ipc_lazy_read}
use tyndall.Ipc.Bus.Contract.{Call, lazy_write, lazy_read, run_world}
use tyndall.Clients.{
  MyStruct, Shown, my_struct_inc, my_struct_zero, topic, Turn, writer_turn, reader_turn, new_entry,
  writer_round, reader_round, run_programs,
}

-- The calls that the programs make.
abbrev pub calls_of : List Turn → MyStruct → List (Call MyStruct)
calls_of [] entry = []
calls_of (writer_turn ∷ turns) entry =
    lazy_write 0 topic entry ∷ calls_of turns (my_struct_inc entry)
calls_of (reader_turn ∷ turns) entry = lazy_read 1 topic ∷ calls_of turns entry

abbrev pub new_entries : List (Rc × MyStruct) → List Shown
new_entries [] = []
new_entries ((rc, entry) ∷ results) = new_entry rc entry ++ new_entries results

module _ {W : Type 0} (platform : Platform W) (signed : Bool) (std : ToString) where
  write_bind :
      (o : Option (World MyStruct W)) (entry : MyStruct)
      (f : MyStruct → World MyStruct W → Option (List Shown))
      (g : World MyStruct W → Option (List (Rc × MyStruct)))
      → ((w : World MyStruct W) → f entry w ≡ bind (g w) (λ rs. some (new_entries rs)))
      → bind (bind o (λ w. some (entry, w))) (λ (e, w). f e w)
        ≡ bind (bind o g) (λ rs. some (new_entries rs))
  write_bind none entry f g h = refl
  write_bind (some w) entry f g h = h w

  read_more :
      (rc : Rc) (entry : MyStruct) (o : Option (List (Rc × MyStruct)))
      → bind
          (bind o (λ rs. some (new_entries rs)))
          (λ (rest : List Shown). some (new_entry rc entry ++ rest))
        ≡ bind
            (bind o (λ rest. some ((rc, entry) ∷ rest)))
            (λ (rs : List (Rc × MyStruct)). some (new_entries rs))
  read_more rc entry none = refl
  read_more rc entry (some rs) = refl

  read_bind :
      (o : Option ((Rc × MyStruct) × World MyStruct W)) (f : World MyStruct W → Option (List Shown))
      (g : World MyStruct W → Option (List (Rc × MyStruct)))
      → ((w : World MyStruct W) → f w ≡ bind (g w) (λ rs. some (new_entries rs)))
      → bind
          (bind o (λ ((rc, entry), w). some (new_entry rc entry, w)))
          (λ (shown, w). bind (f w) (λ rest. some (shown ++ rest)))
        ≡ bind
            (bind o (λ (r, w). bind (g w) (λ rest. some (r ∷ rest))))
            (λ rs. some (new_entries rs))
  read_bind none f g h = refl
  read_bind (some ((rc, entry), w)) f g h = rw (h w) (read_more rc entry (g w))

  pub run_programs-run_world :
      (fuel : ℕ) (turns : List Turn) (entry : MyStruct) (w : World MyStruct W)
      → run_programs platform signed std fuel turns entry w
        ≡ bind
            (run_world platform signed std my_struct_zero fuel (calls_of turns entry) w)
            (λ rs. some (new_entries rs))
  unfolding run_programs run_world writer_round reader_round
  run_programs-run_world fuel [] entry w = refl
  run_programs-run_world fuel (writer_turn ∷ turns) entry w =
      write_bind (ipc_lazy_write platform signed std 0 topic entry w) (my_struct_inc entry)
        (run_programs platform signed std fuel turns)
        (run_world platform signed std my_struct_zero fuel (calls_of turns (my_struct_inc entry)))
        (run_programs-run_world fuel turns (my_struct_inc entry))
  run_programs-run_world fuel (reader_turn ∷ turns) entry w =
      read_bind (ipc_lazy_read platform signed std fuel 1 topic w)
        (run_programs platform signed std fuel turns entry)
        (run_world platform signed std my_struct_zero fuel (calls_of turns entry))
        (run_programs-run_world fuel turns entry)
