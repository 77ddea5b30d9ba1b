-- ===== src/Ipc/Bus.antt =====
-- tyndall/ipc/ipc.h and ipc_rtid.h on shmem.h: processes that write and read topics, each with its own
-- lazily created readers and writers, on the shared memories that they open.
pub mod Opens
pub mod Contract
pub mod Transports
pub mod Shared
pub mod Readers
pub mod Calls
pub mod Refines
pub mod Meet
use tyndall.Base.{
  ℕ, ◌%◌, Bool, true, false, ◌&&◌, ◌==◌, if◌then◌else◌, Option, none, some, bind, Bytes, List, [],
  ◌∷◌, get_elem?, set, ◌≡◌,
}
use tyndall.Meta.Strval.{is_same}
use tyndall.Meta.Strval.Decimal.{ToString}
use tyndall.Ipc.Id.{id_prepare, id_rtid_prepare}
use tyndall.Ipc.SeqLock.{SeqLock, ReadState, Rc, init_state, write, read}
use tyndall.Ipc.SeqLock.Protocol.{update}
use tyndall.Ipc.Shmem.{init_tailer}
use tyndall.Ipc.Shmem.Create.{ShmCalls, shmem_create}
use tyndall.Ipc.Rtid.{RegistryItem, create_ipc_rtid_lazy}

-- The shared memory of a topic: the lock, and the hash in the tailer.
pub record Topic {ℓ} (A : Type ℓ) : Type ℓ where
  pub lock : SeqLock A
  pub th : ℕ

-- The shared memories by name, and the system in which they are. A memory that nobody has opened is that
-- which `shm_open` makes: all bytes 0.
pub record Topics {ℓ} (A : Type ℓ) (W : Type 0) : Type ℓ where
  pub memory : Bytes → Topic A
  pub kernel : W

-- What `init` depends on: the system calls, `getpagesize()`, CACHELINE_BYTES, `size`, and the hash of the
-- type of the entries.
pub record Platform (W : Type 0) : Type 0 where
  pub os : ShmCalls W
  pub page_size : ℕ
  pub cacheline_bytes : ℕ
  pub size : ℕ
  pub type_hash : ℕ

abbrev pub put {ℓ} : {A : Type ℓ} → (Bytes → A) → Bytes → A → Bytes → A
put f name a other = if is_same name other then a else f other

-- The transports of a process: the function statics of `ipc_lazy_write` and `ipc_lazy_read`, one for
-- each type of id, and the registries of `create_ipc_rtid_lazy`. A transport is its state.
pub record Process : Type 0 where
  pub static_writer : Bytes → Option ReadState
  pub static_reader : Bytes → Option ReadState
  pub writer_registry : List (RegistryItem ReadState)
  pub reader_registry : List (RegistryItem ReadState)

pub record World {ℓ} (A : Type ℓ) (W : Type 0) : Type ℓ where
  pub topics : Topics A W
  pub process : ℕ → Process

abbrev pub set_process {ℓ} :
    {A : Type ℓ} {W : Type 0} → World A W → ℕ → Process → Topics A W → World A W
set_process w p me topics = record { topics = topics; process = update w.process p me }

-- The state of the transport at a place of a registry, and the registry with another one there.
abbrev pub transport_at : ℕ → List (RegistryItem ReadState) → Option ReadState
transport_at i registry = bind (get_elem? registry i) (λ item. some item.transport)

abbrev pub set_transport :
    ℕ → ReadState → List (RegistryItem ReadState) → List (RegistryItem ReadState)
set_transport i state [] = []
set_transport ℕ.zero state (item ∷ registry) = record item { transport = state } ∷ registry
set_transport (ℕ.suc i) state (item ∷ registry) = item ∷ set_transport i state registry

-- The assertions of `init` on what `shmem_create` returns and on the address that it stores.
unfoldable pub is_mapped : {W : Type 0} → Platform W → (rc buf : ℕ) → Bool
is_mapped platform rc buf =
    rc == 0
    && (platform.page_size % platform.cacheline_bytes == 0 && buf % platform.cacheline_bytes == 0)

-- `signed` and `std` are what the names depend on. `none` is an assertion that fails, or a read that does
-- not return.
module _ {ℓ} {A : Type ℓ} {W : Type 0} (platform : Platform W) (signed : Bool)
    (std : ToString) where
  -- The end of `init`, on the tailer of the memory.
  unfoldable pub init_topic : Topic A → Option (Topic A)
  init_topic t =
      let (th', holds) = init_tailer platform.type_hash t.th in
      if holds then some (record t { th = th' }) else none

  -- `init`, of an object whose `buf` is NULL.
  unfoldable pub open_topic : Bytes → Topics A W → Option (Topics A W)
  open_topic name topics =
      let (rc, buf, kernel) = shmem_create platform.os 0 name platform.size topics.kernel in
      if is_mapped platform rc buf
      then bind (init_topic (topics.memory name))
          (λ t. some (record { memory = put topics.memory name t; kernel = kernel }))
      else none

  -- A function static: constructed when it is reached for the first time.
  unfoldable pub static_transport :
      Bytes → Option ReadState → Topics A W → Option (ReadState × Topics A W)
  static_transport name (some state) topics = some (state, topics)
  static_transport name none topics =
      bind (open_topic name topics) (λ opened. some (init_state, opened))

  -- `shmem_buf::write`
  unfoldable pub buf_write : Bytes → A → Topics A W → Topics A W
  buf_write name entry topics = record topics {
    memory =
        put topics.memory name
          (record (topics.memory name) { lock = write entry (topics.memory name).lock });
  }

  unfoldable pub ipc_lazy_write : ℕ → Bytes → A → World A W → Option (World A W)
  ipc_lazy_write p id entry w =
      let name = id_prepare signed id in
      let me = w.process p in
      bind (static_transport name (me.static_writer id) w.topics) (λ (state, topics). some (
        set_process w p (record me { static_writer = put me.static_writer id (some state) })
          (buf_write name entry topics)))

  unfoldable pub ipc_lazy_read : ℕ → ℕ → Bytes → World A W → Option ((Rc × A) × World A W)
  ipc_lazy_read fuel p id w =
      let name = id_prepare signed id in
      let me = w.process p in
      bind (static_transport name (me.static_reader id) w.topics) (λ (state, topics).
        bind (read fuel (topics.memory name).lock state) (λ (rc, entry, state'). some (
          (rc, entry),
          set_process w p (record me { static_reader = put me.static_reader id (some state') })
              topics,
        )))

  -- The constructor of a transport for the registry.
  unfoldable pub make_transport : Bytes → Option (Topics A W) → ReadState × Option (Topics A W)
  make_transport name topics = (init_state, bind topics (open_topic name))

  unfoldable pub ipc_rtid_write : ℕ → Bytes → A → World A W → Option (World A W)
  ipc_rtid_write p id entry w =
      let me = w.process p in
      let (i, registry, opened) =
        create_ipc_rtid_lazy make_transport std signed id me.writer_registry (some w.topics) in
      bind opened (λ topics. some (
        set_process w p (record me { writer_registry = registry })
          (buf_write (id_rtid_prepare std signed id) entry topics)))

  unfoldable pub ipc_rtid_read : ℕ → ℕ → Bytes → World A W → Option ((Rc × A) × World A W)
  ipc_rtid_read fuel p id w =
      let me = w.process p in
      let (i, registry, opened) =
        create_ipc_rtid_lazy make_transport std signed id me.reader_registry (some w.topics) in
      bind opened (λ topics. bind (transport_at i registry) (λ state.
        bind (read fuel (topics.memory (id_rtid_prepare std signed id)).lock state)
          (λ (rc, entry, state'). some (
            (rc, entry),
            set_process w p (record me { reader_registry = set_transport i state' registry })
                topics,
          ))))
