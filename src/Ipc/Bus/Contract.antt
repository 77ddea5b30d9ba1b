-- ===== src/Ipc/Bus/Contract.antt =====
-- What the calls of ipc.h and ipc_rtid.h promise: a topic is its messages, and every reader has a place
-- in them. Nothing of names of memories, locks, registries and sequence numbers shows.
use tyndall.Base.{ℕ, suc, Bool, Option, none, some, bind, Bytes, List, [], ◌∷◌, length}
use tyndall.Meta.Strval.Decimal.{ToString}
use tyndall.Ipc.Id.{id_prepare, id_rtid_prepare}
use tyndall.Ipc.SeqLock.{Rc}
use tyndall.Ipc.SeqLock.Sequential.{expected_rc}
use tyndall.Ipc.SeqLock.Protocol.{update}
use tyndall.Ipc.Bus.{
  Platform, Process, World, put, ipc_lazy_write, ipc_lazy_read, ipc_rtid_write, ipc_rtid_read,
}

-- A call by the process `p`.
pub data Call {ℓ} (A : Type ℓ) : Type ℓ where
  lazy_write : (p : ℕ) (id : Bytes) → A → Call A
  lazy_read : (p : ℕ) (id : Bytes) → Call A
  rtid_write : (p : ℕ) (id : Bytes) → A → Call A
  rtid_read : (p : ℕ) (id : Bytes) → Call A

-- The messages of each topic, the last one first, and how many of them each reader has seen: that of
-- `ipc_read` for each process and id, that of `ipc_rtid_read` for each process and topic.
pub record Board {ℓ} (A : Type ℓ) : Type ℓ where
  pub messages : Bytes → List A
  pub seen_static : ℕ → Bytes → ℕ
  pub seen_rtid : ℕ → Bytes → ℕ

abbrev pub put_for {ℓ} : {A : Type ℓ} → (ℕ → Bytes → A) → ℕ → Bytes → A → ℕ → Bytes → A
put_for f p name a = update f p (put (f p) name a)

module _ {ℓ} {A : Type ℓ} (zeroed : A) where
  -- The last message, or bytes that are 0.
  abbrev pub last_message : List A → A
  last_message [] = zeroed
  last_message (a ∷ as') = a

  abbrev pub answer : ℕ → List A → Rc × A
  answer seen messages = (expected_rc seen (length messages), last_message messages)

  abbrev pub post : Bytes → A → Board A → Board A
  post topic a b = record b { messages = put b.messages topic (a ∷ b.messages topic) }

module _ {ℓ} {A : Type ℓ} {W : Type 0} (platform : Platform W) (signed : Bool) (std : ToString)
    (zeroed : A) where
  unfoldable pub run_board : List (Call A) → Board A → List (Rc × A)
  run_board [] b = []
  run_board (lazy_write p id a ∷ calls) b = run_board calls (post zeroed (id_prepare signed id) a b)
  run_board (rtid_write p id a ∷ calls) b =
      run_board calls (post zeroed (id_rtid_prepare std signed id) a b)
  run_board (lazy_read p id ∷ calls) b =
      let messages = b.messages (id_prepare signed id) in
      answer zeroed (b.seen_static p id) messages
      ∷ run_board calls (record b { seen_static = put_for b.seen_static p id (length messages) })
  run_board (rtid_read p id ∷ calls) b =
      let topic = id_rtid_prepare std signed id in
      let messages = b.messages topic in
      answer zeroed (b.seen_rtid p topic) messages
      ∷ run_board calls (record b { seen_rtid = put_for b.seen_rtid p topic (length messages) })

  -- What the reads of a sequence of calls return; none if one fails or does not return.
  unfoldable pub run_world : ℕ → List (Call A) → World A W → Option (List (Rc × A))
  run_world fuel [] w = some []
  run_world fuel (lazy_write p id a ∷ calls) w =
      bind (ipc_lazy_write platform signed std p id a w) (λ w'. run_world fuel calls w')
  run_world fuel (rtid_write p id a ∷ calls) w =
      bind (ipc_rtid_write platform signed std p id a w) (λ w'. run_world fuel calls w')
  run_world fuel (lazy_read p id ∷ calls) w =
      bind (ipc_lazy_read platform signed std fuel p id w)
        (λ (r, w'). bind (run_world fuel calls w') (λ rest. some (r ∷ rest)))
  run_world fuel (rtid_read p id ∷ calls) w =
      bind (ipc_rtid_read platform signed std fuel p id w)
        (λ (r, w'). bind (run_world fuel calls w') (λ rest. some (r ∷ rest)))

  -- The beginning: no process has a transport, and no memory has been opened.
  abbrev pub no_process : Process
  no_process = record {
    static_writer = λ _. none;
    static_reader = λ _. none;
    writer_registry = [];
    reader_registry = [];
  }

  abbrev pub fresh_world : W → World A W
  fresh_world kernel = record {
    topics = record {
      memory = λ _. record { lock = record { seq = 0; entry = zeroed }; th = 0 };
      kernel = kernel;
    };
    process = λ _. no_process;
  }

  abbrev pub empty_board : Board A
  empty_board = record { messages = λ _. []; seen_static = λ _ _. 0; seen_rtid = λ _ _. 0 }

  abbrev pub count_writes : List (Call A) → ℕ
  count_writes [] = 0
  count_writes (lazy_write p id a ∷ calls) = suc (count_writes calls)
  count_writes (rtid_write p id a ∷ calls) = suc (count_writes calls)
  count_writes (lazy_read p id ∷ calls) = count_writes calls
  count_writes (rtid_read p id ∷ calls) = count_writes calls
