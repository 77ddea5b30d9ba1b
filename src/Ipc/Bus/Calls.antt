-- ===== src/Ipc/Bus/Calls.antt =====
-- Each call of ipc.h and ipc_rtid.h keeps the world and the board of the contract in agreement.
use tyndall.Base.{
  ◌∙◌, subst, ℕ, suc, ◌^◌, ◌<◌, ◌≤◌, Bool, inl, inr, Option, some, Option-cases, Bytes, List, ◌∷◌,
  length, ◌≡◌, refl, arith,
}
use tyndall.Meta.Strval.Decimal.{ToString}
use tyndall.Ipc.Id.{id_prepare, id_rtid_prepare}
use tyndall.Ipc.SeqLock.{ReadState, init_state, read}
use tyndall.Ipc.SeqLock.Sequential.{Seen, expected_rc, read-Idle}
use tyndall.Ipc.Rtid.{RegistryItem, find_item, found_or_made, create_ipc_rtid_lazy}
use tyndall.Ipc.Bus.{
  Topic, Topics, Platform, Process, World, put, set_process, transport_at, set_transport,
  make_transport, ipc_lazy_write, ipc_lazy_read, ipc_rtid_write, ipc_rtid_read, buf_write,
}
use tyndall.Ipc.Bus.Opens.{Opens}
use tyndall.Ipc.Bus.Contract.{Board, put_for, last_message, answer, post}
use tyndall.Ipc.Bus.Transports.{
  find_transport, transport_at-find_item, set_transport-found, made_at_end,
}
use tyndall.Ipc.Bus.Shared.{
  state_of, ReaderOk, TopicOk, TopicsOk, open_topic-TopicsOk, static_transport-TopicsOk,
  buf_write-TopicsOk, length-put,
}
use tyndall.Ipc.Bus.Readers.{field_kept, field_update, ReaderOk-more, ReaderOk-read}

module _ {ℓ} {A : Type ℓ} {W : Type 0} (platform : Platform W) (signed : Bool) (std : ToString)
    (zeroed : A) (opens : Opens platform) where
  -- The world and the board agree, with `written` writes made so far, and room for `left` more calls.
  pub record Agrees (w : World A W) (b : Board A) (written left : ℕ) : Type ℓ where
    pub topics : TopicsOk platform signed std zeroed w.topics b.messages
    pub static :
        (p : ℕ) (id : Bytes)
        → ReaderOk
            ((w.process p).static_reader id)
            (b.seen_static p id)
            (length (b.messages (id_prepare signed id)))
    pub rtid :
        (p : ℕ) (topic : Bytes)
        → ReaderOk
            (find_transport (w.process p).reader_registry topic)
            (b.seen_rtid p topic)
            (length (b.messages topic))
    pub room : opens.Room left w.topics.kernel
    pub bound : (topic : Bytes) → length (b.messages topic) ≤ written

  -- A write on a topic by a process that changes none of its readers.
  written :
      (w : World A W) (b : Board A) (k left p : ℕ) (me : Process) (topics : Topics A W)
      (topic : Bytes) (a : A)
      → me.static_reader ≡ (w.process p).static_reader
      → me.reader_registry ≡ (w.process p).reader_registry
      → TopicsOk platform signed std zeroed topics b.messages
      → opens.Room left topics.kernel
      → Agrees w b k (suc left)
      → Agrees
          (set_process w p me (buf_write platform signed std topic a topics))
          (post zeroed topic a b)
          (suc k)
          left
  unfolding buf_write
  written w b k left p me topics topic a same_static same_registry opened room h = record {
    room = room;
    topics = buf_write-TopicsOk platform signed std zeroed topic a topics b.messages opened;
    static = λ q id.
        rw (field_kept (λ x. x.static_reader) w.process p me q same_static)
          (ReaderOk-more _ _ _ _ (grown (id_prepare signed id)).0 (h.static q id));
    rtid = λ q name.
        rw (field_kept (λ x. x.reader_registry) w.process p me q same_registry)
          (ReaderOk-more _ _ _ _ (grown name).0 (h.rtid q name));
    bound = λ name. omega (arith, (grown name).1, h.bound name);
  }
    where
      grown :
          (name : Bytes)
          → (length (b.messages name) ≤ length (put b.messages topic (a ∷ b.messages topic) name))
            × (length (put b.messages topic (a ∷ b.messages topic) name)
                ≤ suc (length (b.messages name)))
      grown name = length-put platform signed std zeroed b.messages topic a name

  pub lazy_write-Agrees :
      (w : World A W) (b : Board A) (k left p : ℕ) (id : Bytes) (a : A)
      → opens.Usable (id_prepare signed id)
      → Agrees w b k (suc left)
      → (w' : World A W) × (ipc_lazy_write platform signed std p id a w ≡ some w')
        × Agrees w' (post zeroed (id_prepare signed id) a b) (suc k) left
  unfolding ipc_lazy_write
  lazy_write-Agrees w b k left p id a usable h =
      let me = w.process p in
      let (topics, e, opened, room) =
        static_transport-TopicsOk platform signed std zeroed opens (id_prepare signed id)
          (me.static_writer id) w.topics b.messages left h.topics usable h.room in
      let me' = record me {
        static_writer = put me.static_writer id (some (state_of (me.static_writer id)));
      } in
      (
        set_process w p me' (buf_write platform signed std (id_prepare signed id) a topics),
        rw (e),
        written w b k left p me' topics (id_prepare signed id) a refl refl opened room h,
      )

  -- What a call of `create_ipc_rtid_lazy` gives, on memories that agree with the messages.
  record Obtained (name : Bytes) (registry : List (RegistryItem ReadState))
      (messages : Bytes → List A) (left : ℕ)
      (r : ℕ × List (RegistryItem ReadState) × Option (Topics A W)) : Type ℓ where
    opened : Topics A W
    succeeded : r.2 ≡ some opened
    right : TopicsOk platform signed std zeroed opened messages
    room : opens.Room left opened.kernel
    placed : transport_at r.0 r.1 ≡ some (state_of (find_transport registry name))
    stored :
        (state : ReadState) (other : Bytes)
        → find_transport (set_transport r.0 state r.1) other
          ≡ put (find_transport registry) name (some state) other

  abbrev make : Bytes → Option (Topics A W) → ReadState × Option (Topics A W)
  make = make_transport platform signed std

  obtain :
      (name : Bytes) (registry : List (RegistryItem ReadState)) (topics : Topics A W)
      (messages : Bytes → List A) (left : ℕ)
      → TopicsOk platform signed std zeroed topics messages
      → opens.Usable name
      → opens.Room (suc left) topics.kernel
      → Obtained name registry messages left
          (found_or_made make name (find_item name registry) registry (some topics))
  unfolding found_or_made make_transport
  obtain name registry topics messages left h usable room =
      elim (Option-cases (find_item name registry)) [
        | inl missing ↦
            let (opened, e, h', room') =
              open_topic-TopicsOk platform signed std zeroed opens name topics messages left h
                usable room in
            let (none_held, at, _) = made_at_end name registry init_state init_state name missing in
            rw (missing) (record {
              opened = opened;
              succeeded = e;
              right = h';
              room = room';
              placed = rw (none_held) at;
              stored = λ state other. (made_at_end name registry init_state state other missing).2;
            })
        | inr (i, found) ↦
            let (state, at, held) = transport_at-find_item name registry i found in
            rw (found) (record {
              opened = topics;
              succeeded = refl;
              right = h;
              room = opens.spared left topics.kernel room;
              placed = rw (held) at;
              stored = λ state other. set_transport-found name registry i state other found;
            })
      ]

  abbrev lazy :
      Bytes
      → List (RegistryItem ReadState)
      → Topics A W
      → ℕ × List (RegistryItem ReadState) × Option (Topics A W)
  lazy id registry topics = create_ipc_rtid_lazy make std signed id registry (some topics)

  obtain_lazy :
      (id : Bytes) (registry : List (RegistryItem ReadState)) (topics : Topics A W)
      (messages : Bytes → List A) (left : ℕ)
      → TopicsOk platform signed std zeroed topics messages
      → opens.Usable (id_rtid_prepare std signed id)
      → opens.Room (suc left) topics.kernel
      → Obtained (id_rtid_prepare std signed id) registry messages left (lazy id registry topics)
  unfolding create_ipc_rtid_lazy
  obtain_lazy id registry topics messages left h usable room =
      obtain (id_rtid_prepare std signed id) registry topics messages left h usable room

  pub rtid_write-Agrees :
      (w : World A W) (b : Board A) (k left p : ℕ) (id : Bytes) (a : A)
      → opens.Usable (id_rtid_prepare std signed id)
      → Agrees w b k (suc left)
      → (w' : World A W) × (ipc_rtid_write platform signed std p id a w ≡ some w')
        × Agrees w' (post zeroed (id_rtid_prepare std signed id) a b) (suc k) left
  unfolding ipc_rtid_write
  rtid_write-Agrees w b k left p id a usable h =
      let me = w.process p in
      let got = obtain_lazy id me.writer_registry w.topics b.messages left h.topics usable h.room in
      let me' = record me { writer_registry = (lazy id me.writer_registry w.topics).1 } in
      let topic = id_rtid_prepare std signed id in
      (
        set_process w p me' (buf_write platform signed std topic a got.opened),
        rw (got.succeeded),
        written w b k left p me' got.opened topic a refl refl got.right got.room h,
      )

  -- A read of an agreeing topic gives the answer of the contract, and the state behind its last message.
  read_topic :
      (fuel k seen : ℕ) (t : Topic A) (messages : List A) (held : Option ReadState)
      → TopicOk platform signed std zeroed t messages
      → ReaderOk held seen (length messages)
      → length messages ≤ k
      → k < 2 ^ 31
      → (state' : ReadState) × (read (suc fuel) t.lock (state_of held)
          ≡ some (expected_rc seen (length messages), last_message zeroed messages, state'))
        × Seen state' (length messages)
  read_topic fuel k seen t messages held topic reader le lt =
      let (state', e, seen') =
        read-Idle fuel seen (length messages) t.lock (state_of held) topic.idle reader.counted
          reader.within (omega arith) in
      (state', e ∙ rw (topic.last) refl, seen')

  pub lazy_read-Agrees :
      (fuel : ℕ) (w : World A W) (b : Board A) (k left p : ℕ) (id : Bytes)
      → opens.Usable (id_prepare signed id)
      → Agrees w b k (suc left)
      → k < 2 ^ 31
      → let messages = b.messages (id_prepare signed id) in
        (w' : World A W) × (ipc_lazy_read platform signed std (suc fuel) p id w
          ≡ some (answer zeroed (b.seen_static p id) messages, w'))
        × Agrees w' (record b { seen_static = put_for b.seen_static p id (length messages) }) k left
  unfolding ipc_lazy_read
  lazy_read-Agrees fuel w b k left p id usable h lt =
      let me = w.process p in
      let name = id_prepare signed id in
      let (topics, e, opened, room) =
        static_transport-TopicsOk platform signed std zeroed opens name (me.static_reader id)
          w.topics b.messages left h.topics usable h.room in
      let (state', e', seen') =
        read_topic fuel k (b.seen_static p id) (topics.memory name) (b.messages name)
          (me.static_reader id) (opened name) (h.static p id) (h.bound name) lt in
      let me' = record me { static_reader = put me.static_reader id (some state') } in
      (
        set_process w p me' topics,
        rw (e, e'),
        record {
          topics = opened;
          room = room;
          static = λ q other.
              subst
                (λ (reader : Bytes → Option ReadState).
                  ReaderOk (reader other)
                    (put_for b.seen_static p id (length (b.messages name)) q other)
                    (length (b.messages (id_prepare signed other))))
                (field_update (λ x. x.static_reader) w.process p me' q)
                (ReaderOk-read (λ k. (w.process k).static_reader) b.seen_static
                  (λ n. length (b.messages (id_prepare signed n))) p id me'.static_reader state'
                  seen' (λ n. refl) h.static q other);
          rtid = λ q topic.
              rw (field_kept (λ x. x.reader_registry) w.process p me' q refl) (h.rtid q topic);
          bound = h.bound;
        },
      )

  pub rtid_read-Agrees :
      (fuel : ℕ) (w : World A W) (b : Board A) (k left p : ℕ) (id : Bytes)
      → opens.Usable (id_rtid_prepare std signed id)
      → Agrees w b k (suc left)
      → k < 2 ^ 31
      → let topic = id_rtid_prepare std signed id in
        let messages = b.messages topic in
        (w' : World A W) × (ipc_rtid_read platform signed std (suc fuel) p id w
          ≡ some (answer zeroed (b.seen_rtid p topic) messages, w'))
        × Agrees w' (record b { seen_rtid = put_for b.seen_rtid p topic (length messages) }) k left
  unfolding ipc_rtid_read
  rtid_read-Agrees fuel w b k left p id usable h lt =
      let me = w.process p in
      let topic = id_rtid_prepare std signed id in
      let got = obtain_lazy id me.reader_registry w.topics b.messages left h.topics usable h.room in
      let held = find_transport me.reader_registry topic in
      let (state', e', seen') =
        read_topic fuel k (b.seen_rtid p topic) (got.opened.memory topic) (b.messages topic) held
          (got.right topic) (h.rtid p topic) (h.bound topic) lt in
      let (i, registry, _) = lazy id me.reader_registry w.topics in
      let me' = record me { reader_registry = set_transport i state' registry } in
      (
        set_process w p me' got.opened,
        rw (got.succeeded, got.placed, e'),
        record {
          topics = got.right;
          room = got.room;
          static = λ q other.
              rw (field_kept (λ x. x.static_reader) w.process p me' q refl) (h.static q other);
          rtid = λ q other.
              subst
                (λ (table : Bytes → Option ReadState).
                  ReaderOk (table other)
                    (put_for b.seen_rtid p topic (length (b.messages topic)) q other)
                    (length (b.messages other)))
                (field_update (λ x. find_transport x.reader_registry) w.process p me' q)
                (ReaderOk-read (λ k. find_transport (w.process k).reader_registry) b.seen_rtid
                  (λ n. length (b.messages n)) p topic (find_transport me'.reader_registry) state'
                  seen' (got.stored state') h.rtid q other);
          bound = h.bound;
        },
      )
