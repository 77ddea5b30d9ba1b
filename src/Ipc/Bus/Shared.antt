-- ===== src/Ipc/Bus/Shared.antt =====
-- Opening and writing the shared memories of topics, against the messages of the contract.
use tyndall.Base.{
  ◌∙◌, ap, sym, subst, ℕ, suc, ◌≤◌, Bool, ◌==◌, eq→==, Bool-cases, ◌⊎◌, inl, inr, Option, none,
  some, Bytes, List, ◌∷◌, length, ◌≡◌, refl, arith,
}
use tyndall.Meta.Strval.{is_same}
use tyndall.Meta.Strval.Laws.{is_same_iff}
use tyndall.Meta.Strval.Decimal.{ToString}
use tyndall.Ipc.SeqLock.{ReadState, init_state, write}
use tyndall.Ipc.SeqLock.Sequential.{Idle, write-Idle, entry-write, Seen}
use tyndall.Ipc.Shmem.{init_tailer, smp_cmp_xch}
use tyndall.Ipc.Bus.{
  Topic, Topics, Platform, put, init_topic, open_topic, static_transport, buf_write,
}
use tyndall.Ipc.Bus.Opens.{Opens, shmem_create-Room}
use tyndall.Ipc.Bus.Contract.{last_message}

-- The state of a transport that is there, or of the one that would be made.
abbrev pub state_of : Option ReadState → ReadState
state_of none = init_state
state_of (some state) = state

-- A transport has read behind the first `seen` of `written` messages.
pub record ReaderOk (held : Option ReadState) (seen written : ℕ) : Type 0 where
  pub counted : Seen (state_of held) seen
  pub within : seen ≤ written

pub put_self {ℓ} : {A : Type ℓ} (f : Bytes → A) (name : Bytes) (a : A) → put f name a name ≡ a
put_self f name a = rw ((is_same_iff name name).1 refl)

-- To show something of a changed table, show it of the new value and of the old table.
pub put_cases {ℓ κ} :
    {A : Type ℓ} (P : Bytes → A → Type κ) (f : Bytes → A) (name : Bytes) (a : A) (other : Bytes)
    → P name a
    → P other (f other)
    → P other (put f name a other)
put_cases P f name a other new old = elim (Bool-cases (is_same name other)) [
  | inl e ↦
      let same : name ≡ other = (is_same_iff name other).0 e in rw (e) (subst (λ n. P n a) same new)
  | inr e ↦ rw (e) old
]

module _ {ℓ} {A : Type ℓ} {W : Type 0} (platform : Platform W) (signed : Bool) (std : ToString)
    (zeroed : A) where
  -- The memory holds the last message, and is unopened or has the hash of the type.
  pub record TopicOk (t : Topic A) (messages : List A) : Type ℓ where
    pub idle : Idle t.lock (length messages)
    pub last : t.lock.entry ≡ last_message zeroed messages
    pub tagged : (t.th ≡ 0) ⊎ (t.th ≡ platform.type_hash)

  abbrev pub TopicsOk : Topics A W → (Bytes → List A) → Type ℓ
  TopicsOk topics messages = (name : Bytes) → TopicOk (topics.memory name) (messages name)

  init_topic_lem :
      (t : Topic A)
      → ((t.th ≡ 0) ⊎ (t.th ≡ platform.type_hash))
      → init_topic platform signed std t ≡ some (record t { th = platform.type_hash })
  unfolding init_topic init_tailer smp_cmp_xch
  init_topic_lem t tag = elim (Bool-cases (t.th == 0)) [
    | inl e ↦ rw (e)
    | inr e ↦ elim tag [
      | inl unopened ↦ absurd (cc (sym e ∙ eq→== t.th 0 unopened))
      | inr tagged ↦
          rw (e, eq→== t.th platform.type_hash tagged)
            (ap (λ th. some (record { lock = t.lock; th = th })) tagged)
    ]
  ]

  opened-TopicOk :
      (t : Topic A) (messages : List A)
      → TopicOk t messages
      → TopicOk (record t { th = platform.type_hash }) messages
  opened-TopicOk t messages h = record { idle = h.idle; last = h.last; tagged = inr refl }

  module _ (opens : Opens platform) where
    -- Opening a topic, by a process with the same type, succeeds where the system has room for it, and
    -- leaves its messages alone.
    pub open_topic-TopicsOk :
        (name : Bytes) (topics : Topics A W) (messages : Bytes → List A) (left : ℕ)
        → TopicsOk topics messages
        → opens.Usable name
        → opens.Room (suc left) topics.kernel
        → (opened : Topics A W) × (open_topic platform signed std name topics ≡ some opened)
          × TopicsOk opened messages
          × opens.Room left opened.kernel
    unfolding open_topic
    open_topic-TopicsOk name topics messages left h usable room =
        let (buf, kernel, e, mapped, room') =
          shmem_create-Room platform opens 0 left name topics.kernel usable room in
        (
          record {
            memory =
                put topics.memory name (record (topics.memory name) { th = platform.type_hash });
            kernel = kernel;
          },
          rw (e, mapped, init_topic_lem (topics.memory name) (h name).tagged),
          λ other.
              put_cases (λ n t. TopicOk t (messages n)) topics.memory name _ other
                (opened-TopicOk (topics.memory name) (messages name) (h name)) (h other),
          room',
        )

    pub static_transport-TopicsOk :
        (name : Bytes) (held : Option ReadState) (topics : Topics A W) (messages : Bytes → List A)
        (left : ℕ)
        → TopicsOk topics messages
        → opens.Usable name
        → opens.Room (suc left) topics.kernel
        → (opened : Topics A W) × (static_transport platform signed std name held topics
            ≡ some (state_of held, opened))
          × TopicsOk opened messages
          × opens.Room left opened.kernel
    unfolding static_transport
    static_transport-TopicsOk name (some state) topics messages left h usable room =
        (topics, refl, h, opens.spared left topics.kernel room)
    static_transport-TopicsOk name none topics messages left h usable room =
        let (opened, e, h', room') = open_topic-TopicsOk name topics messages left h usable room in
        (opened, rw (e), h', room')

  written-TopicOk :
      (t : Topic A) (messages : List A) (a : A)
      → TopicOk t messages
      → TopicOk (record t { lock = write a t.lock }) (a ∷ messages)
  written-TopicOk t messages a h = record {
    idle =
        subst (λ k. Idle (write a t.lock) k) (omega arith)
          (write-Idle a t.lock (length messages) h.idle);
    last = entry-write a t.lock;
    tagged = h.tagged;
  }

  -- A write puts a message in front of those of its topic.
  pub buf_write-TopicsOk :
      (name : Bytes) (a : A) (topics : Topics A W) (messages : Bytes → List A)
      → TopicsOk topics messages
      → TopicsOk
          (buf_write platform signed std name a topics)
          (put messages name (a ∷ messages name))
  unfolding buf_write
  buf_write-TopicsOk name a topics messages h other = elim (Bool-cases (is_same name other)) [
    | inl e ↦
        let same : name ≡ other = (is_same_iff name other).0 e in
        rw (e) (written-TopicOk (topics.memory name) (messages name) a (h name))
    | inr e ↦ rw (e) (h other)
  ]

  -- The number of messages of a topic does not fall, and grows by one at most.
  pub length-put :
      (messages : Bytes → List A) (name : Bytes) (a : A) (other : Bytes)
      → (length (messages other) ≤ length (put messages name (a ∷ messages name) other))
        × (length (put messages name (a ∷ messages name) other) ≤ suc (length (messages other)))
  length-put messages name a other =
      put_cases (λ n m. (length (messages n) ≤ length m) × (length m ≤ suc (length (messages n))))
        messages name (a ∷ messages name) other (omega arith) (omega arith)
