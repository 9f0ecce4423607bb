-- ===== src/Spscq/Fifo.antt =====
-- The interleavings of spscq_push and spscq_pop of src/engine/base/spscq.c: what each thread
-- relies on, and the order of the pointers.
use ats.Base.{
  ℕ, ◌≡◌, ◌≢◌, ◌<◌, refl, sym, ◌∙◌, ap, List, [], ◌∷◌, ◌++◌, append_assoc, arith, null, get_or, set,
  length-set, set-get_or, get_or-set_self, get_or-set_ne,
}
use ats.Spscq.{Spscq, next_record}
use ats.Spscq.Ring.{
  IsValid, contents, next_record-lt, next_record_inj, window-set_ne, contents-snoc, contents-cons,
}
use ats.Spscq.Interleave.{
  Producer, Consumer, System, Step, load_write, refuse, pass_write, store_record, store_write,
  load_read, find_empty, pass_read, store_read, read_record, Reach, start, later,
}

-- The pointer that a consumer has taken off the ring and not yet returned.
abbrev pub in_hand : List ℕ → Consumer → List ℕ
in_hand recs (Consumer.stored r) = get_or recs r null ∷ []
in_hand recs _ = []

-- What the producer relies on at each of its points.
abbrev ProducerOk : Spscq → Producer → Type 0
ProducerOk q Producer.idle = Unit {0}
ProducerOk q (Producer.loaded e w) = w ≡ q.write_pos
ProducerOk q (Producer.tested e w) = (w ≡ q.write_pos) × (next_record q.capacity w ≢ q.read_pos)
ProducerOk q (Producer.stored e w) =
    (w ≡ q.write_pos) × (next_record q.capacity w ≢ q.read_pos) × (get_or q.records w null ≡ e)

-- What the consumer relies on. Past the store of `read_pos` its record lies in the free position.
abbrev ConsumerOk : Spscq → Consumer → Type 0
ConsumerOk q Consumer.idle = Unit {0}
ConsumerOk q (Consumer.loaded r) = r ≡ q.read_pos
ConsumerOk q (Consumer.tested r) = (r ≡ q.read_pos) × (r ≢ q.write_pos)
ConsumerOk q (Consumer.stored r) = (r < q.capacity) × (next_record q.capacity r ≡ q.read_pos)

record Inv (s : System) : Type 0 where
  valid : IsValid s.q
  producing : ProducerOk s.q s.producer
  consuming : ConsumerOk s.q s.consumer
  order : s.sent ≡ s.received ++ (in_hand s.q.records s.consumer ++ contents s.q)

-- Neither thread's store breaks what the other relies on.
module _ (q : Spscq) (v : IsValid q) where
  open q use {capacity, records, read_pos, write_pos}

  ConsumerOk-record :
      (c : Consumer) (e : ℕ)
      → ConsumerOk q c
      → ConsumerOk (record q { records = set records write_pos e }) c
  ConsumerOk-record Consumer.idle e h = h
  ConsumerOk-record _ e h = h

  in_hand-set :
      (c : Consumer) (e : ℕ)
      → next_record capacity write_pos ≢ read_pos
      → ConsumerOk q c
      → in_hand (set records write_pos e) c ≡ in_hand records c
  in_hand-set (Consumer.stored r) e ne h =
      ap (λ x. x ∷ [])
        (get_or-set_ne records write_pos r e null (λ p. ne (ap (next_record capacity) p ∙ h.1)))
  in_hand-set _ e ne h = refl

  ConsumerOk-write :
      (c : Consumer)
      → next_record capacity write_pos ≢ read_pos
      → ConsumerOk q c
      → ConsumerOk (record q { write_pos = next_record capacity write_pos }) c
  ConsumerOk-write (Consumer.tested r) ne h = (h.0, λ p. ne (sym p ∙ h.0))
  ConsumerOk-write _ ne h = h

  ProducerOk-read :
      (p : Producer)
      → read_pos ≢ write_pos
      → ProducerOk q p
      → ProducerOk (record q { read_pos = next_record capacity read_pos }) p
  ProducerOk-read (Producer.tested e w) ne h = (
    h.0,
    λ k. ne (
        sym (
          next_record_inj capacity _ _ v.word v.write_in v.read_in
            (ap (next_record capacity) (sym h.0) ∙ k))),
  )
  ProducerOk-read (Producer.stored e w) ne h = (
    h.0,
    λ k. ne (
        sym (
          next_record_inj capacity _ _ v.word v.write_in v.read_in
            (ap (next_record capacity) (sym h.0) ∙ k))),
    h.2,
  )
  ProducerOk-read _ ne h = h

  contents-set : (e : ℕ) → contents (record q { records = set records write_pos e }) ≡ contents q
  contents-set e =
      window-set_ne records capacity read_pos write_pos e _ v.word v.read_in v.write_in
        (omega arith)

  contents-write :
      next_record capacity write_pos ≢ read_pos
      → contents (record q { write_pos = next_record capacity write_pos })
        ≡ contents q ++ (get_or records write_pos null ∷ [])
  contents-write ne =
      rw (set-get_or records write_pos null) at
        (contents-snoc q v (get_or records write_pos null) ne)

store_record-IsValid :
    (q : Spscq) → IsValid q → (e : ℕ) → IsValid (record q { records = set q.records q.write_pos e })
store_record-IsValid q v e = ground (arith, length-set q.records q.write_pos e)

store_write-IsValid :
    (q : Spscq) → IsValid q → IsValid (record q { write_pos = next_record q.capacity q.write_pos })
store_write-IsValid q v = ground (arith, next_record-lt q.capacity q.write_pos)

store_read-IsValid :
    (q : Spscq) → IsValid q → IsValid (record q { read_pos = next_record q.capacity q.read_pos })
store_read-IsValid q v = ground (arith, next_record-lt q.capacity q.read_pos)

Step-Inv : (s t : System) → Inv s → Step s t → Inv t
Step-Inv s t i (load_write e p) = record {
  valid = i.valid;
  producing = refl;
  consuming = i.consuming;
  order = i.order;
}
Step-Inv s t i (refuse e w p h) = record {
  valid = i.valid;
  producing = tt;
  consuming = i.consuming;
  order = i.order;
}
Step-Inv s t i (pass_write e w p h) = record {
  valid = i.valid;
  producing = (rw p at i.producing, h);
  consuming = i.consuming;
  order = i.order;
}
Step-Inv s t i (store_record e w p) =
    let (at_write, room) = rw p at i.producing in
    rw at_write (record {
      valid = store_record-IsValid s.q i.valid e;
      producing = (
        refl,
        rw (← at_write) room,
        get_or-set_self s.q.records s.q.write_pos e null
            (omega (arith, i.valid.storage, i.valid.write_in)),
      );
      consuming = ConsumerOk-record s.q i.valid s.consumer e i.consuming;
      order =
          rw
            (
              in_hand-set s.q i.valid s.consumer e (rw (← at_write) room) i.consuming,
              contents-set s.q i.valid e,
            )
            i.order;
    })
Step-Inv s t i (store_write e w p) =
    let (at_write, room, kept) = rw p at i.producing in
    let room' : next_record s.q.capacity s.q.write_pos ≢ s.q.read_pos = rw at_write at room in
    let last : get_or s.q.records s.q.write_pos null ≡ e = rw at_write at kept in
    rw at_write (record {
      valid = store_write-IsValid s.q i.valid;
      producing = tt;
      consuming = ConsumerOk-write s.q i.valid s.consumer room' i.consuming;
      order =
          rw (contents-write s.q i.valid room', last)
            (ap (λ l. l ++ (e ∷ [])) i.order ∙ simp append_assoc);
    })
Step-Inv s t i (load_read p) = record {
  valid = i.valid;
  producing = i.producing;
  consuming = refl;
  order = rw p at i.order;
}
Step-Inv s t i (find_empty r p h) = record {
  valid = i.valid;
  producing = i.producing;
  consuming = tt;
  order = rw p at i.order;
}
Step-Inv s t i (pass_read r p h) = record {
  valid = i.valid;
  producing = i.producing;
  consuming = (rw p at i.consuming, h);
  order = rw p at i.order;
}
Step-Inv s t i (store_read r p) =
    let (at_read, some_left) = rw p at i.consuming in
    let left' : s.q.read_pos ≢ s.q.write_pos = rw at_read at some_left in
    rw at_read (record {
      valid = store_read-IsValid s.q i.valid;
      producing = ProducerOk-read s.q i.valid s.producer left' i.producing;
      consuming = (i.valid.read_in, refl);
      order = rw (contents-cons s.q i.valid left') at (rw p at i.order);
    })
Step-Inv s t i (read_record r p) = record {
  valid = i.valid;
  producing = i.producing;
  consuming = tt;
  order = rw append_assoc (rw p at i.order);
}

Reach-Inv : (q : Spscq) {s : System} → IsValid q → contents q ≡ [] → Reach q s → Inv s
Reach-Inv q v e start = record { valid = v; producing = tt; consuming = tt; order = sym e }
Reach-Inv q v e (later {s} {t} r st) = Step-Inv s t (Reach-Inv q v e r) st

-- From an empty valid queue, whatever the interleaving of one producer with one consumer: the
-- pointers that pushes have queued are those that pops have returned, then the one that a pop has
-- claimed and is about to read, then those in the ring, each once and in order.
pub Reach-order :
    (q : Spscq) {s : System}
    → IsValid q
    → contents q ≡ []
    → Reach q s
    → s.sent ≡ s.received ++ (in_hand s.q.records s.consumer ++ contents s.q)
Reach-order q v e r = (Reach-Inv q v e r).order

-- The producer's next store cannot hit the record that a pop has claimed.
claimed-ne :
    (s : System) (e w r : ℕ)
    → Inv s
    → s.producer ≡ Producer.tested e w
    → s.consumer ≡ Consumer.stored r
    → w ≢ r
claimed-ne s e w r i p c k =
    let (_, room) = rw p at i.producing in
    let (_, given) = rw c at i.consuming in room (ap (next_record s.q.capacity) k ∙ given)

-- A pop reads its record after it has given the position back. Still, in every interleaving from an
-- empty valid queue, a step of either thread leaves that record as it is until it has been read.
pub claimed_record_stays :
    (q : Spscq) {s t : System} (r : ℕ)
    → IsValid q
    → contents q ≡ []
    → Reach q s
    → s.consumer ≡ Consumer.stored r
    → Step s t
    → get_or t.q.records r null ≡ get_or s.q.records r null
claimed_record_stays q {s} r v e reach c (store_record x w p) =
    get_or-set_ne s.q.records w r x null (claimed-ne s x w r (Reach-Inv q v e reach) p c)
claimed_record_stays q r v e reach c _ = refl
